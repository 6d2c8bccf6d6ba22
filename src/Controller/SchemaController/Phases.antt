-- ===== src/Controller/SchemaController/Phases.antt =====
-- Which requests the two paths of the reconciler send.
use mathlib.Core.Path.{subst}
use schema_strimzi_operator.Prelude.{
  Bool, Bool-cases, inl, inr, sym, true, false, ◌≡◌, ◌≢◌, refl, arith,
}
use schema_strimzi_operator.Error.{ok}
use schema_strimzi_operator.Api.Meta.{ObjectKey, is_zero}
use schema_strimzi_operator.Api.SchemaTypes.{Schema}
use schema_strimzi_operator.World.{World, Event, Trace, updated_schema_status, sent}
use schema_strimzi_operator.Exec.{◌>>=◌}
use schema_strimzi_operator.Controller.Effects.{update_schema}
use schema_strimzi_operator.Controller.Keeps.{Keeps, Holds, Keeps-bind, keeps_rules}
use schema_strimzi_operator.Controller.Quiet.{KeepsSent}
use schema_strimzi_operator.Controller.SchemaController.{
  release, finalize, refetch, ensure_finalizer, register, reconcile,
}
use schema_strimzi_operator.Controller.SchemaController.Parts.{delete_from_registry-Keeps}
use schema_strimzi_operator.Controller.SchemaController.Invariants.{
  Tolerates, get_schema-Keeps, register-Keeps,
}

module _ (w : World) where
  -- No request but DELETE is sent, and no status is written.
  abbrev pub OnlyDeletes : Event → Trace → Type 0
  OnlyDeletes (sent client req answer) t = req.method ≡ "DELETE"
  OnlyDeletes (updated_schema_status s answer) t = ⊥
  OnlyDeletes _ t = Unit

  -- No DELETE is sent.
  abbrev pub NeverDeletes : Event → Trace → Type 0
  NeverDeletes (sent client req answer) t = req.method ≢ "DELETE"
  NeverDeletes _ t = Unit

  finalize-OnlyDeletes :
      (s : Schema) (t : Trace) → Holds OnlyDeletes t → Holds OnlyDeletes (finalize w s t).1
  unfolding finalize release
  finalize-OnlyDeletes s t h =
      let on_sent : KeepsSent (λ method. method ≡ "DELETE") (Holds OnlyDeletes) = record {
        at = λ client req r t same h. (same, h);
      } in
      let kept =
        (delete_from_registry-Keeps w
            (record { registry = λ key r t h. (tt, h); secret = λ key r t h. (tt, h) }) on_sent s
            refl).at
          t h in
      ground (arith, kept)

  tolerant : Tolerates w (Holds NeverDeletes)
  tolerant = record {
    quiet = record { registry = λ key r t h. (tt, h); secret = λ key r t h. (tt, h) };
    get = λ key t h. (tt, h);
    clock = λ time t h. (tt, h);
    status = λ s t h. (tt, h);
  }

  on_sent : KeepsSent (λ method. method ≢ "DELETE") (Holds NeverDeletes)
  on_sent = record { at = λ client req r t other h. (other, h) }

  update-Keeps : (s : Schema) → Keeps (Holds NeverDeletes) (update_schema w s)
  unfolding update_schema
  update-Keeps s = record { at = λ t h. (tt, h) }

  ensure_finalizer-Keeps :
      (key : ObjectKey) (s : Schema) → Keeps (Holds NeverDeletes) (ensure_finalizer w key s)
  unfolding ensure_finalizer refetch
  ensure_finalizer-Keeps key s =
      search (keeps_rules, update-Keeps, get_schema-Keeps w tolerant) depth 16

  live-Keeps :
      (key : ObjectKey) (s : Schema)
      → Keeps (Holds NeverDeletes) (ensure_finalizer w key s >>= register w key)
  live-Keeps key s =
      Keeps-bind _ _ (ensure_finalizer-Keeps key s)
        λ fresh. register-Keeps w tolerant on_sent (λ e. cc e) (λ e. cc e) (λ e. cc e) key fresh

  reconcile-OnlyDeletes :
      (key : ObjectKey) (s : Schema) (t : Trace)
      → w.get_schema t key ≡ ok s
      → is_zero s.metadata.deletion_timestamp ≡ false
      → Holds OnlyDeletes t
      → Holds OnlyDeletes (reconcile w key t).1
  unfolding reconcile
  reconcile-OnlyDeletes key s t found dying h = rw (found, dying) (finalize-OnlyDeletes s _ (tt, h))

  reconcile-NeverDeletes :
      (key : ObjectKey) (s : Schema) (t : Trace)
      → w.get_schema t key ≡ ok s
      → is_zero s.metadata.deletion_timestamp ≡ true
      → Holds NeverDeletes t
      → Holds NeverDeletes (reconcile w key t).1
  unfolding reconcile
  reconcile-NeverDeletes key s t found live h = rw (found, live) ((live-Keeps key s).at _ (tt, h))

  -- What is allowed for a schema, by whether its timestamp of deletion is zero.
  abbrev pub PhaseRule : Bool → Event → Trace → Type 0
  PhaseRule true = NeverDeletes
  PhaseRule false = OnlyDeletes

  -- Let the reconciliation of a key find a schema. If this one is being deleted, then in a history
  -- with no request but DELETE and no update of a status, it sends no request but DELETE and updates
  -- no status. If it is not, then in a history with no DELETE, it sends no DELETE.
  pub reconcile-PhaseRule :
      (key : ObjectKey) (s : Schema) (t : Trace)
      → w.get_schema t key ≡ ok s
      → Holds (PhaseRule (is_zero s.metadata.deletion_timestamp)) t
      → Holds (PhaseRule (is_zero s.metadata.deletion_timestamp)) (reconcile w key t).1
  reconcile-PhaseRule key s t found h =
      let rule = λ (b : Bool). Holds (PhaseRule b) (reconcile w key t).1 in
      elim (Bool-cases (is_zero s.metadata.deletion_timestamp)) [
        | inl live ↦ subst rule (sym live) (
            reconcile-NeverDeletes key s t found live
              (subst (λ (b : Bool). Holds (PhaseRule b) t) live h))
        | inr dying ↦ subst rule (sym dying) (
            reconcile-OnlyDeletes key s t found dying
              (subst (λ (b : Bool). Holds (PhaseRule b) t) dying h))
      ]
