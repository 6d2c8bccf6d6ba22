-- ===== src/Controller/Watches/Resolution.antt =====
-- The watch of registries against the reference that a client is built from.
use schema_strimzi_operator.Prelude.{List, [], ◌∷◌, ◌≡◌, inl, inr, refl, sym, ap, ◌∙◌, Any}
use mathlib.Core.Path.{subst}
use schema_strimzi_operator.Error.{ok}
use schema_strimzi_operator.Api.Meta.{ObjectMeta}
use schema_strimzi_operator.Api.SchemaTypes.{Schema}
use schema_strimzi_operator.World.{World, Trace}
use schema_strimzi_operator.Controller.Effects.{key_of}
use schema_strimzi_operator.Controller.SchemaController.{registry_key}
use schema_strimzi_operator.Controller.Watches.{find_schemas_for_registry}
use schema_strimzi_operator.Controller.Watches.Requests.{Refers, find_schemas_for_registry_iff}

Any-map :
    {P Q : Schema → Type 0} (items : List Schema)
    → ((s : Schema) → P s → Q s)
    → Any P items
    → Any Q items
Any-map [] f m = m
Any-map (s ∷ rest) f (inl p) = inl (f s p)
Any-map (s ∷ rest) f (inr m) = inr (Any-map rest f m)

registry_key-name : (s : Schema) → (registry_key s).name ≡ s.spec.registry_ref.name
unfolding registry_key
registry_key-name s = refl

-- If the client of a schema is built from the registry with this key, and the list call for the
-- registry's namespace gives the schema among others, then a change of the registry leads to the
-- reconciliation of the schema.
pub find_schemas_for_registry-registry_key :
    (w : World) (t : Trace) (registry : ObjectMeta) (s : Schema) (items : List Schema)
    → registry_key s ≡ key_of registry
    → w.list_schemas t registry.namespace ≡ ok items
    → Any (λ x. x ≡ s) items
    → Any (λ k. k ≡ key_of s.metadata) (find_schemas_for_registry w registry t).0
find_schemas_for_registry-registry_key w t registry s items resolved listed m =
    let refers : Refers registry.name s = sym (registry_key-name s) ∙ ap (λ k. k.name) resolved in
    (find_schemas_for_registry_iff w t registry items (key_of s.metadata) listed).1 (
      Any-map items
        (λ x same.
          (subst (Refers registry.name) (sym same) refers, ap (λ y. key_of y.metadata) same))
        m)
