-- ===== src/Controller/Helpers/Secrets.antt =====
-- Which secrets are read for the credentials.
use schema_strimzi_operator.Prelude.{List, ◌≡◌, refl, string_eq, All, Any}
use schema_strimzi_operator.Error.{Result}
use schema_strimzi_operator.Api.Meta.{Secret}
use schema_strimzi_operator.Api.RegistryTypes.{SchemaRegistry}
use schema_strimzi_operator.World.{World, Event, Trace, got_secret}
use schema_strimzi_operator.Controller.Effects.{key_of}
use schema_strimzi_operator.Controller.Watches.{registries_for}
use schema_strimzi_operator.Controller.Watches.Requests.{Any-registries_for}
use schema_strimzi_operator.Controller.Helpers.{load_auth_config}
use schema_strimzi_operator.Controller.Helpers.Reads.{load_auth_config-Keeps}

module _ (sr : SchemaRegistry) where
  -- A read of a secret whose changes reconcile the registry `sr` again, as long as it is listed: the
  -- secret is in the namespace of `sr`, and among the requests for a changed secret of this name is
  -- the key of `sr`.
  abbrev pub IsWatched : Event → Type 0
  IsWatched (got_secret key r) =
      (key.namespace ≡ sr.metadata.namespace)
      × ((items : List SchemaRegistry)
          → Any (λ x. x ≡ sr) items
          → Any (λ k. k ≡ key_of sr.metadata) (registries_for key.name items))
  IsWatched _ = ⊥

  -- From a history of watched reads, loading the credentials of `sr` leads to a history of watched
  -- reads: it makes no other effect, and misses no secret that it depends on.
  pub load_auth_config-IsWatched :
      (w : World) (t : Trace) → All IsWatched t → All IsWatched (load_auth_config w sr t).1
  load_auth_config-IsWatched w =
      (load_auth_config-Keeps w {K = λ key. (r : Result Secret) → IsWatched (got_secret key r)}
        (record { at = λ key r t allowed h. (allowed r, h) }) sr
        λ name refers r. (refl, λ items listed. Any-registries_for name items sr refers listed)).at
