-- ===== src/Controller/RegistryController/Rounds.antt =====
-- How a reconciliation of SchemaRegistry ends.
use schema_strimzi_operator.Prelude.{
  ◌*◌, String, some, none, ◌∷◌, ◌≡◌, refl, sym, Option, inl, inr, Option-cases,
}
use mathlib.Core.Path.{subst}
use schema_strimzi_operator.Error.{Error, text, Result, ok, err, Result-cases}
use schema_strimzi_operator.Api.Meta.{
  ObjectKey, Condition, Timestamp, condition_false, find_condition,
}
use schema_strimzi_operator.Api.RegistryTypes.{SchemaRegistry}
use schema_strimzi_operator.Client.Types.{AuthConfig, SchemaRegistryClient}
use schema_strimzi_operator.Client.Requests.{new_client, new_tls_config, subjects_url, bare_request}
use schema_strimzi_operator.Client.Calls.{health_check}
use schema_strimzi_operator.Client.Answers.{HasStatus, health_check-eq-nil_iff}
use schema_strimzi_operator.World.{
  World, IsDocumented, Trace, got_registry, updated_registry_status, read_clock,
}
use schema_strimzi_operator.Controller.Effects.{Outcome, minute, key_of}
use schema_strimzi_operator.Controller.Helpers.{load_auth_config, request_timeout}
use schema_strimzi_operator.Controller.RegistryController.{
  ready, health_condition, with_health, with_failure, set_condition_failed, reconcile,
}

-- The client that the registry and its credentials make.
abbrev pub client_of : SchemaRegistry → AuthConfig → SchemaRegistryClient
client_of sr auth = record {
  base_url = sr.spec.url;
  http_client = record {
    timeout = request_timeout sr.spec.timeout;
    tls_client_config = new_tls_config auth sr.spec.insecure_skip_verify;
  };
  auth = auth;
}

-- The condition Ready of the status, for the present generation.
abbrev pub HasReady : SchemaRegistry → String → String → Type 0
HasReady x status reason =
    (c : Condition) × (find_condition "Ready" x.status.conditions ≡ some c)
    × (c.status ≡ status)
    × (c.reason ≡ reason)
    × (c.observed_generation ≡ x.metadata.generation)

-- What the status says of a health check.
abbrev Says : Option Error → SchemaRegistry → Type 0
Says none x = (x.status.connection_status ≡ "Connected") × HasReady x "True" "Connected"
Says (some e) x =
    (x.status.connection_status ≡ "Unreachable") × HasReady x "False" "ConnectionFailed"

with_health-Says :
    (w : World) (sr : SchemaRegistry) (time : Timestamp) (t : Trace) (health : Option Error)
    → IsDocumented w
    → Says health (
        with_health sr time
          (w.set_status_condition t sr.status.conditions (health_condition sr health))
          health)
with_health-Says w sr time t none d =
    let (c, found, status, reason, message, generation) =
      d.find-set t sr.status.conditions (health_condition sr none) in
    (refl, (c, found, status, reason, generation))
with_health-Says w sr time t (some e) d =
    let (c, found, status, reason, message, generation) =
      d.find-set t sr.status.conditions (health_condition sr (some e)) in
    (refl, (c, found, status, reason, generation))

module _ (w : World) (key : ObjectKey) (sr : SchemaRegistry) (t : Trace) where
  -- The result of loading the credentials for the registry that was read, and the history after it.
  abbrev pub credentials : Result AuthConfig × Trace
  credentials = load_auth_config w sr (got_registry key (ok sr) ∷ t)

  -- With these credentials, the list of subjects is answered with 200.
  abbrev pub IsUp : AuthConfig → Type 0
  IsUp auth =
      let c = client_of sr auth in
      (w.new_request_error "GET" (subjects_url c) ≡ none)
      × HasStatus 200
          (w.do_request credentials.1 c.http_client (bare_request w c "GET" (subjects_url c)))

  -- The status that is written and the outcome, for each of the things that may happen.
  pub data Report (out : Outcome) (x : SchemaRegistry) : Type 0 where
    connected :
        (auth : AuthConfig)
        → credentials.0 ≡ ok auth
        → IsUp auth
        → out ≡ record { requeue_after = 5 * minute; error = none }
        → x.status.connection_status ≡ "Connected"
        → HasReady x "True" "Connected"
        → Report out x
    unreachable :
        (auth : AuthConfig)
        → credentials.0 ≡ ok auth
        → ¬ IsUp auth
        → out ≡ record { requeue_after = 5 * minute; error = none }
        → x.status.connection_status ≡ "Unreachable"
        → HasReady x "False" "ConnectionFailed"
        → Report out x
    unloaded :
        (e : Error)
        → credentials.0 ≡ err e
        → out ≡ record { requeue_after = 0; error = none }
        → x.status.connection_status ≡ "Unreachable"
        → HasReady x "False" "AuthLoadFailed"
        → Report out x

  module _ (there : (t : Trace) → w.get_registry t key ≡ ok sr)
      (accepted : (t : Trace) (x : SchemaRegistry) → w.update_registry_status t x ≡ none) where
    reconcile-checked :
        (auth : AuthConfig)
        → credentials.0 ≡ ok auth
        → let check = health_check w (client_of sr auth) credentials.1 in
          let read = got_registry key (ok sr) ∷ check.1 in
          let before = read_clock (w.now read) ∷ read in
          let cs =
            w.set_status_condition before sr.status.conditions (health_condition sr check.0) in
          reconcile w key t ≡ (
            record { requeue_after = 5 * minute; error = none },
            updated_registry_status (with_health sr (w.now read) cs check.0) none ∷ before,
          )
    unfolding reconcile new_client
    reconcile-checked auth loaded = rw (there, loaded, there, accepted) refl

    pub reconcile-unloaded :
        (e : Error)
        → key ≡ key_of sr.metadata
        → credentials.0 ≡ err e
        → let read = got_registry key (ok sr) ∷ credentials.1 in
          let cs =
            w.set_status_condition read sr.status.conditions
              (ready sr condition_false "AuthLoadFailed" (text e)) in
          reconcile w key t ≡ (
            record { requeue_after = 0; error = none },
            updated_registry_status (with_failure sr cs) none ∷ read,
          )
    unfolding reconcile set_condition_failed
    reconcile-unloaded e same failed = rw (there, failed, sym same, there, accepted) refl

    -- Let a registry be found whenever its key is read, and each update of its status be accepted.
    -- Then a reconciliation of its key ends with an accepted update of the status and nothing else
    -- changed, whose condition Ready is for the present generation. If the credentials can be
    -- loaded, the next round is in five minutes and there is no error; the status says Connected
    -- and True if GET on the list of subjects, with the client that the registry and the
    -- credentials make, can be built and is answered with 200, and else Unreachable and False. If
    -- the credentials cannot be loaded, there is no error and no next round, and the status says
    -- Unreachable and False, with the reason AuthLoadFailed.
    pub reconcile-Report :
        IsDocumented w
        → key ≡ key_of sr.metadata
        → (out : Outcome) × (x : SchemaRegistry) × (rest : Trace) × (reconcile w key t
            ≡ (out, updated_registry_status x none ∷ rest))
          × (x ≡ record sr { status = x.status })
          × Report out x
    reconcile-Report d same = elim (Result-cases credentials.0) [
      | inl (auth, loaded) ↦
          let check = health_check w (client_of sr auth) credentials.1 in
          let read = got_registry key (ok sr) ∷ check.1 in
          let before = read_clock (w.now read) ∷ read in
          let cs =
            w.set_status_condition before sr.status.conditions (health_condition sr check.0) in
          let answered = health_check-eq-nil_iff w (client_of sr auth) credentials.1 in
          let says = with_health-Says w sr (w.now read) before check.0 d in
          let x = with_health sr (w.now read) cs check.0 in
          (
            record { requeue_after = 5 * minute; error = none },
            with_health sr (w.now read) cs check.0,
            before,
            reconcile-checked auth loaded,
            refl,
            elim (Option-cases check.0) [
              | inl fine ↦
                  let (connection, condition) = subst (λ o. Says o x) fine says in
                  connected auth loaded (answered.0 fine) refl connection condition
              | inr (e, failed) ↦
                  let (connection, condition) = subst (λ o. Says o x) failed says in
                  unreachable auth loaded (λ up. let fine = answered.1 up in cc (fine, failed)) refl
                    connection condition
            ],
          )
      | inr (e, failed) ↦
          let read = got_registry key (ok sr) ∷ credentials.1 in
          let condition = ready sr condition_false "AuthLoadFailed" (text e) in
          let cs = w.set_status_condition read sr.status.conditions condition in
          let (c, found, status, reason, message, generation) =
            d.find-set read sr.status.conditions condition in
          (
            record { requeue_after = 0; error = none },
            with_failure sr cs,
            read,
            reconcile-unloaded e same failed,
            refl,
            unloaded e failed refl refl (c, found, status, reason, generation),
          )
    ]
