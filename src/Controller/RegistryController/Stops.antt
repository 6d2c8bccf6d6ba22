-- ===== src/Controller/RegistryController/Stops.antt =====
-- What a reconciliation of SchemaRegistry has come to that asks for no further round.
use schema_strimzi_operator.Prelude.{
  String, Option, none, some, ◌∷◌, ◌≡◌, ◌≢◌, refl, inl, inr, arith, Option-cases,
}
use schema_strimzi_operator.Error.{Error, IsNotFound, text, ok, err, Result, Result-cases}
use schema_strimzi_operator.Client.Types.{AuthConfig, SchemaRegistryClient}
use schema_strimzi_operator.Controller.Helpers.{load_auth_config, request_timeout}
use schema_strimzi_operator.Api.Meta.{ObjectKey, Condition, condition_false, find_condition}
use schema_strimzi_operator.Api.RegistryTypes.{SchemaRegistry}
use schema_strimzi_operator.Client.Requests.{new_client}
use schema_strimzi_operator.Client.Calls.{health_check}
use schema_strimzi_operator.World.{
  World, IsDocumented, Trace, got_registry, updated_registry_status, read_clock,
}
use schema_strimzi_operator.Controller.Effects.{Outcome, done, key_of, requeue_with}
use schema_strimzi_operator.Controller.Ends.{Leaves-perform, Leaves-check, Ends, Ends-bind}
use schema_strimzi_operator.Controller.SchemaController.Settled.{ignored, stop_error}
use schema_strimzi_operator.Controller.RegistryController.{
  ready, health_condition, with_health, with_failure, set_condition_failed, record_health,
  check_registry, reconcile,
}

-- The registry is gone, or a status has just been accepted that says that its credentials could not
-- be loaded.
abbrev pub IsStopped : Trace → Type 0
IsStopped (got_registry key (err e) ∷ t) = IsNotFound e
IsStopped (updated_registry_status sr none ∷ t) =
    (sr.status.connection_status ≡ "Unreachable")
    × ((c : Condition) × (find_condition "Ready" sr.status.conditions ≡ some c)
        × (c.status ≡ condition_false)
        × (c.reason ≡ "AuthLoadFailed"))
IsStopped _ = ⊥

abbrev client_result : SchemaRegistry → AuthConfig → Result SchemaRegistryClient
client_result sr auth =
    new_client sr.spec.url auth (request_timeout sr.spec.timeout) sr.spec.insecure_skip_verify

abbrev Stops : Outcome → Trace → Type 0
Stops r t = r ≡ done → IsStopped t

module _ (w : World) (d : IsDocumented w) where
  failed-Stops :
      (stale : SchemaRegistry) (detail : String) (t : Trace)
      → let run = requeue_with 0 (set_condition_failed w stale "AuthLoadFailed" detail) t in
        Stops run.0 run.1
  unfolding requeue_with set_condition_failed
  failed-Stops stale detail t = elim (Result-cases (w.get_registry t (key_of stale.metadata))) [
    | inl (sr, found) ↦
        let before = got_registry (key_of stale.metadata) (ok sr) ∷ t in
        let condition = ready sr condition_false "AuthLoadFailed" detail in
        let (c, there, status, reason, same_message, generation) =
          d.find-set before sr.status.conditions condition in
        let cs = w.set_status_condition before sr.status.conditions condition in
        elim (Option-cases (w.update_registry_status before (with_failure sr cs))) [
          | inl accepted ↦ rw (found, accepted) λ h. (refl, (c, there, status, reason))
          | inr (e, refused) ↦ rw (found, refused) λ h. absurd (stop_error w e h)
        ]
    | inr (e, failed) ↦ rw failed λ h. ignored w d e h
  ]

  record_health-Ends :
      (key : ObjectKey) (health : Option Error) → Ends Stops (record_health w key health)
  unfolding record_health
  record_health-Ends key health = record {
    at = λ t. elim (Result-cases (w.get_registry t key)) [
      | inl (sr, found) ↦
          let read = got_registry key (ok sr) ∷ t in
          let time = w.now read in
          let before = read_clock time ∷ read in
          let cs =
            w.set_status_condition before sr.status.conditions (health_condition sr health) in
          elim (Option-cases (w.update_registry_status before (with_health sr time cs health))) [
            | inl accepted ↦ rw (found, accepted) λ h. absurd (ground arith)
            | inr (e, refused) ↦ rw (found, refused) λ h. absurd (stop_error w e h)
          ]
      | inr (e, failed) ↦ rw failed λ h. ignored w d e h
    ];
  }

  built : (sr : SchemaRegistry) (auth : AuthConfig) (e : Error) → client_result sr auth ≢ err e
  unfolding new_client
  built sr auth e h = cc h

  check_registry-Ends :
      (key : ObjectKey) (sr : SchemaRegistry) → Ends Stops (check_registry w key sr)
  unfolding check_registry
  check_registry-Ends key sr =
      let fail = λ (reason : String) (e : Error).
        requeue_with 0 (set_condition_failed w sr reason (text e)) in
      Ends-bind _ _ (Leaves-perform (load_auth_config w sr)) λ a.
        Ends-bind _ _ (Leaves-check a (fail "AuthLoadFailed") λ e h. failed-Stops sr (text e))
          λ auth.
            Ends-bind _ _
              (Leaves-check (client_result sr auth) (fail "ClientCreateFailed")
                λ e h. absurd (built sr auth e h))
              λ c. Ends-bind _ _ (Leaves-perform (health_check w c)) (record_health-Ends key)

  -- If a reconciliation of SchemaRegistry ends without an error and asks for no further round, then
  -- its last event is a read that found no such registry, or an accepted update of the status that
  -- says Unreachable and has the condition Ready False with the reason AuthLoadFailed.
  pub reconcile-IsStopped :
      (key : ObjectKey) (t : Trace) → (reconcile w key t).0 ≡ done → IsStopped (reconcile w key t).1
  unfolding reconcile
  reconcile-IsStopped key t = elim (Result-cases (w.get_registry t key)) [
    | inl (sr, found) ↦ rw found ((check_registry-Ends key sr).at (got_registry key (ok sr) ∷ t))
    | inr (e, failed) ↦ rw failed λ h. ignored w d e h
  ]
