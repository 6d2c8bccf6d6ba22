-- ===== src/Controller/Watches/Requests.antt =====
-- Which resources a change leads to, and which it misses.
use schema_strimzi_operator.Prelude.{
  String, true, List, [], ◌∷◌, ◌≡◌, ◌≢◌, ◌↔◌, inl, inr, arith, eq_iff, string_eq, All, Any,
}
use schema_strimzi_operator.Error.{ok, Result-cases}
use schema_strimzi_operator.Api.Meta.{ObjectKey, ObjectMeta}
use schema_strimzi_operator.Api.SchemaTypes.{Schema}
use schema_strimzi_operator.Api.RegistryTypes.{SchemaRegistry}
use schema_strimzi_operator.World.{World, Trace}
use schema_strimzi_operator.Controller.Effects.{key_of}
use schema_strimzi_operator.Controller.Watches.References.{NamesSecret, references-NamesSecret_iff}
use schema_strimzi_operator.Controller.Watches.{
  schemas_for, registries_for, schema_registry_references_secret, find_schemas_for_registry,
  find_schema_registries_for_secret,
}

-- The schema refers to a registry of this name.
abbrev pub Refers : String → Schema → Type 0
Refers name s = s.spec.registry_ref.name ≡ name

Any-schemas_for_iff :
    (name : String) (key : ObjectKey) (items : List Schema)
    → Any (λ k. k ≡ key) (schemas_for name items)
      ↔ Any (λ s. Refers name s × (key_of s.metadata ≡ key)) items
unfolding schemas_for
Any-schemas_for_iff name key [] = (λ h. h, λ h. h)
Any-schemas_for_iff name key (s ∷ rest) =
    let ih = Any-schemas_for_iff name key rest in
    let same = eq_iff s.spec.registry_ref.name name in
    (λ h. ground (arith, ih, same), λ h. ground (arith, ih, same))

Any-registries_for_iff :
    (name : String) (key : ObjectKey) (items : List SchemaRegistry)
    → Any (λ k. k ≡ key) (registries_for name items)
      ↔ Any (λ sr. NamesSecret name sr × (key_of sr.metadata ≡ key)) items
unfolding registries_for
Any-registries_for_iff name key [] = (λ h. h, λ h. h)
Any-registries_for_iff name key (sr ∷ rest) =
    let ih = Any-registries_for_iff name key rest in
    let refers = references-NamesSecret_iff name sr in
    (λ h. ground (arith, ih, refers), λ h. ground (arith, ih, refers))

module _ (w : World) (t : Trace) where
  pub find_schemas_for_registry_iff :
      (registry : ObjectMeta) (items : List Schema) (key : ObjectKey)
      → w.list_schemas t registry.namespace ≡ ok items
      → Any (λ k. k ≡ key) (find_schemas_for_registry w registry t).0
        ↔ Any (λ s. Refers registry.name s × (key_of s.metadata ≡ key)) items
  unfolding find_schemas_for_registry
  find_schemas_for_registry_iff registry items key listed =
      rw listed (Any-schemas_for_iff registry.name key items)

  find_schema_registries_for_secret_iff :
      (secret : ObjectMeta) (items : List SchemaRegistry) (key : ObjectKey)
      → w.list_registries t secret.namespace ≡ ok items
      → Any (λ k. k ≡ key) (find_schema_registries_for_secret w secret t).0
        ↔ Any (λ sr. NamesSecret secret.name sr × (key_of sr.metadata ≡ key)) items
  unfolding find_schema_registries_for_secret
  find_schema_registries_for_secret_iff secret items key listed =
      rw listed (Any-registries_for_iff secret.name key items)

  -- If the list call gives these schemas, a changed registry leads to the reconciliation of a key
  -- exactly when one of them has this key and refers to the name of the registry. If the list call
  -- gives these registries, a changed secret leads to the reconciliation of a key exactly when one
  -- of them has this key and the section of its declared type is there and names the secret: that
  -- of BASIC, that of BEARER, or that of MTLS, for the certificate or for the authority.
  pub watches_iff :
      (registry secret : ObjectMeta) (schemas : List Schema) (registries : List SchemaRegistry)
      (key : ObjectKey)
      → w.list_schemas t registry.namespace ≡ ok schemas
      → w.list_registries t secret.namespace ≡ ok registries
      → (Any (λ k. k ≡ key) (find_schemas_for_registry w registry t).0
          ↔ Any (λ s. Refers registry.name s × (key_of s.metadata ≡ key)) schemas)
        × (Any (λ k. k ≡ key) (find_schema_registries_for_secret w secret t).0
            ↔ Any (λ sr. NamesSecret secret.name sr × (key_of sr.metadata ≡ key)) registries)
  watches_iff registry secret schemas registries key listed listed' = (
    find_schemas_for_registry_iff registry schemas key listed,
    find_schema_registries_for_secret_iff secret registries key listed',
  )

-- The keys of schemas that are all in one namespace are in this namespace.
schemas_for-namespace :
    (namespace name : String) (key : ObjectKey) (items : List Schema)
    → All (λ s. s.metadata.namespace ≡ namespace) items
    → Any (λ k. k ≡ key) (schemas_for name items)
    → key.namespace ≡ namespace
unfolding schemas_for
schemas_for-namespace namespace name key [] h m = absurd m
schemas_for-namespace namespace name key (s ∷ rest) h m =
    ground (arith, schemas_for-namespace namespace name key rest)

-- If the list calls give only schemas of the namespace that they ask for, a changed registry never
-- leads to the reconciliation of a schema in another namespace, whatever that one refers to.
pub find_schemas_for_registry_misses :
    (w : World) (t : Trace) (registry : ObjectMeta) (s : Schema)
    → ((items : List Schema)
        → w.list_schemas t registry.namespace ≡ ok items
        → All (λ x. x.metadata.namespace ≡ registry.namespace) items)
    → s.metadata.namespace ≢ registry.namespace
    → ¬ Any (λ k. k ≡ key_of s.metadata) (find_schemas_for_registry w registry t).0
unfolding find_schemas_for_registry
find_schemas_for_registry_misses w t registry s scoped other found =
    elim (Result-cases (w.list_schemas t registry.namespace)) [
      | inl (items, listed) ↦ other (
          schemas_for-namespace registry.namespace registry.name (key_of s.metadata) items
            (scoped items listed) (rw listed at found))
      | inr (e, failed) ↦ rw failed at found
    ]

-- A registry that is listed and refers to the secret is asked for.
pub Any-registries_for :
    (name : String) (items : List SchemaRegistry) (sr : SchemaRegistry)
    → schema_registry_references_secret sr name ≡ true
    → Any (λ x. x ≡ sr) items
    → Any (λ k. k ≡ key_of sr.metadata) (registries_for name items)
unfolding registries_for
Any-registries_for name (x ∷ rest) sr refers (inl e) = ground arith
Any-registries_for name (x ∷ rest) sr refers (inr m) =
    ground (arith, Any-registries_for name rest sr refers m)
Any-registries_for name [] sr refers m = absurd m
