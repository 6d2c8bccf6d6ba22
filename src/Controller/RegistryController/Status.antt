-- ===== src/Controller/RegistryController/Status.antt =====
-- What the reconciler of SchemaRegistry writes into the status, and when.
use schema_strimzi_operator.Prelude.{
  ℕ, ◌*◌, String, Option, none, some, [], ◌∷◌, ◌≡◌, ◌⊎◌, inl, inr, refl, arith,
}
use schema_strimzi_operator.Error.{Error, ok, err, Result-cases}
use schema_strimzi_operator.Api.Meta.{
  ObjectKey, Condition, Timestamp, condition_true, condition_false, find_condition,
}
use schema_strimzi_operator.Api.RegistryTypes.{SchemaRegistry}
use schema_strimzi_operator.Client.Types.{SchemaRegistryClient}
use schema_strimzi_operator.Client.Calls.{health_check}
use schema_strimzi_operator.World.{
  World, IsDocumented, Event, Trace, got_registry, updated_registry_status, sent, read_clock,
}
use schema_strimzi_operator.Exec.{◌>>=◌, ◌>>◌, perform, check_nil, pure, give}
use schema_strimzi_operator.Controller.Effects.{
  Outcome, minute, stop, key_of, get_registry, requeue_with,
}
use schema_strimzi_operator.Controller.Keeps.{Keeps, Holds, keeps_rules}
use schema_strimzi_operator.Controller.SchemaController.Parts.{IsQuiet, auth-Keeps}
use schema_strimzi_operator.Controller.RegistryController.{
  ready, health_condition, with_health, set_condition_failed, record_health, reconcile,
}

-- The last request of the history was answered with 200.
abbrev pub IsHealthy : Trace → Type 0
IsHealthy [] = ⊥
IsHealthy (sent client req (ok resp) ∷ t) = resp.status_code ≡ 200
IsHealthy (sent client req (err e) ∷ t) = ⊥
IsHealthy (_ ∷ t) = IsHealthy t

-- The connection status and the condition Ready say the same, and say Connected only of a registry
-- that has just answered.
abbrev pub IsCoherent : SchemaRegistry → Condition → Trace → Type 0
IsCoherent sr c t =
    ((sr.status.connection_status ≡ "Connected") × (c.status ≡ condition_true) × IsHealthy t)
    ⊎ ((sr.status.connection_status ≡ "Unreachable") × (c.status ≡ condition_false))

-- A status is written only with a condition Ready of the present generation that is coherent.
abbrev pub StatusRule : Event → Trace → Type 0
StatusRule (updated_registry_status sr answer) t =
    (c : Condition) × (find_condition "Ready" sr.status.conditions ≡ some c)
    × (c.observed_generation ≡ sr.metadata.generation)
    × IsCoherent sr c t
StatusRule _ t = Unit

module _ (w : World) (d : IsDocumented w) where
  quiet : IsQuiet (Holds StatusRule)
  quiet = record { registry = λ key r t h. (tt, h); secret = λ key r t h. (tt, h) }

  -- After the update.
  check_nil-Keeps :
      (refused : Option Error) (r : Outcome)
      → Keeps
          (Holds StatusRule)
          (check_nil refused (λ e. pure (stop (some e))) >> give {A = Outcome} r)
  check_nil-Keeps refused r = search keeps_rules depth 8

  health_check-IsHealthy :
      (c : SchemaRegistryClient) (t : Trace)
      → (health_check w c t).0 ≡ none
      → IsHealthy (health_check w c t).1
  unfolding health_check
  health_check-IsHealthy c t h = ground arith

  health_check-Keeps : (c : SchemaRegistryClient) → Keeps (Holds StatusRule) (health_check w c)
  unfolding health_check
  health_check-Keeps c = record { at = λ t h. ground arith }

  -- The status that a health check leads to obeys the rule.
  with_health-StatusRule :
      (sr : SchemaRegistry) (time : Timestamp) (health answer : Option Error) (t : Trace)
      → (health ≡ none → IsHealthy t)
      → let cs = w.set_status_condition t sr.status.conditions (health_condition sr health) in
        StatusRule (updated_registry_status (with_health sr time cs health) answer) t
  with_health-StatusRule sr time none answer t healthy =
      let (c, found, status, reason, message, generation) =
        d.find-set t sr.status.conditions (health_condition sr none) in
      (c, found, generation, inl (refl, status, healthy refl))
  with_health-StatusRule sr time (some e) answer t healthy =
      let (c, found, status, reason, message, generation) =
        d.find-set t sr.status.conditions (health_condition sr (some e)) in
      (c, found, generation, inr (refl, status))

  record_health-StatusRule :
      (key : ObjectKey) (health : Option Error) (t : Trace)
      → Holds StatusRule t
      → (health ≡ none → IsHealthy t)
      → Holds StatusRule (record_health w key health t).1
  unfolding record_health
  record_health-StatusRule key health t h healthy = elim (Result-cases (w.get_registry t key)) [
    | inl (sr, found) ↦
        let read = got_registry key (ok sr) ∷ t in
        let time = w.now read in
        let before = read_clock time ∷ read in
        let cs = w.set_status_condition before sr.status.conditions (health_condition sr health) in
        let wrote = with_health sr time cs health in
        let answer = w.update_registry_status before wrote in
        rw found (
          (check_nil-Keeps answer (record { requeue_after = 5 * minute; error = none })).at
            (updated_registry_status wrote answer ∷ before)
            (with_health-StatusRule sr time health answer before healthy, (tt, (tt, h))))
    | inr (e, failed) ↦ rw failed (tt, h)
  ]

  checked-Keeps :
      (key : ObjectKey) (c : SchemaRegistryClient)
      → Keeps (Holds StatusRule) (perform (health_check w c) >>= record_health w key)
  unfolding ◌>>=◌ record_health
  checked-Keeps key c = record {
    at = λ t h.
        record_health-StatusRule key (health_check w c t).0 (health_check w c t).1
          ((health_check-Keeps c).at t h) (health_check-IsHealthy c t);
  }

  set_condition_failed-Keeps :
      (stale : SchemaRegistry) (reason message : String)
      → Keeps (Holds StatusRule) (set_condition_failed w stale reason message)
  unfolding set_condition_failed
  set_condition_failed-Keeps stale reason message = record {
    at = λ t h. elim (Result-cases (w.get_registry t (key_of stale.metadata))) [
      | inl (sr, found) ↦
          let before = got_registry (key_of stale.metadata) (ok sr) ∷ t in
          let (c, there, status, same_reason, same_message, generation) =
            d.find-set before sr.status.conditions (ready sr condition_false reason message) in
          rw found ((c, there, generation, inr (refl, status)), (tt, h))
      | inr (e, failed) ↦ rw failed (tt, h)
    ];
  }

  requeue_failed-Keeps :
      (delay : ℕ) (stale : SchemaRegistry) (reason message : String)
      → Keeps (Holds StatusRule) (requeue_with delay (set_condition_failed w stale reason message))
  unfolding requeue_with
  requeue_failed-Keeps delay stale reason message = record {
    at = λ t h. (set_condition_failed-Keeps stale reason message).at t h;
  }

  get_registry-Keeps : (key : ObjectKey) → Keeps (Holds StatusRule) (get_registry w key)
  unfolding get_registry
  get_registry-Keeps key = record { at = λ t h. (tt, h) }

  reconcile-Keeps : (key : ObjectKey) → Keeps (Holds StatusRule) (reconcile w key)
  unfolding reconcile
  reconcile-Keeps key =
      search
        (keeps_rules, get_registry-Keeps, auth-Keeps w quiet, requeue_failed-Keeps, checked-Keeps)
        depth 20

  -- In a history that obeys the rule for the status, a reconciliation of SchemaRegistry obeys it
  -- too: each status that it writes has a condition Ready for the present generation, which is True
  -- with the connection status Connected or False with Unreachable, and is True only if the last
  -- request was answered with 200.
  pub reconcile-StatusRule :
      (key : ObjectKey) (t : Trace) → Holds StatusRule t → Holds StatusRule (reconcile w key t).1
  reconcile-StatusRule key = (reconcile-Keeps key).at
