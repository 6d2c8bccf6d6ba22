-- ===== src/Api/DeepCopy/Parts.antt =====
-- Each generated copy stands for the value of the original, in memory that was unused.
use schema_strimzi_operator.Api.Meta.{Condition}
use schema_strimzi_operator.Memory.{return, copy_slice}
use schema_strimzi_operator.Memory.Layout.{
  Layout, Extends-refl, Extends-trans, Makes-return, Makes-bind, Copies, step, keep,
}
use schema_strimzi_operator.Memory.Copying.{
  flat, flat-Copies, pointer, copy_pointer-Copies, copy_slice-Copies,
}
use schema_strimzi_operator.Api.DeepCopy.Cells.{
  Apimachinery, Cell, zero_reference, stored_basic, stored_bearer, stored_mtls, stored_auth,
  stored_references, stored_integer, stored_conditions,
}
use schema_strimzi_operator.Api.DeepCopy.{
  Copier, copy_auth_config, copy_schema_registry_spec, copy_schema_registry_status,
  copy_schema_spec, copy_schema_status,
}
use schema_strimzi_operator.Api.DeepCopy.Layouts.{
  basic_auth_layout, bearer_auth_layout, mtls_layout, integer_layout, time_layout,
  conditions_layout, references_layout, auth_config_layout, registry_spec_layout,
  registry_status_layout, schema_spec_layout, schema_status_layout,
}

-- What the documentation says of the copies of apimachinery: they share no memory with the original
-- either.
pub record IsDocumented (k : Apimachinery) (c : Copier k)
    (object_meta_layout : Layout (Cell k) k.ObjectMeta k.ObjectMetaValue)
    (list_meta_layout : Layout (Cell k) k.ListMeta k.ListMetaValue) : Type 0 where
  pub object_meta : Copies object_meta_layout c.copy_object_meta
  pub list_meta : Copies list_meta_layout c.copy_list_meta
  pub condition : Copies (flat Condition) c.copy_condition
  pub time : Copies (time_layout k) c.copy_time

module _ (k : Apimachinery) (c : Copier k) where
  copy_auth_config-Copies : Copies (auth_config_layout k) (copy_auth_config k c)
  unfolding copy_auth_config
  copy_auth_config-Copies = record {
    at = λ lo hi h x a bound (type, (basic, (bearer, mtls))).
        Makes-bind _ _ h
          (step (basic_auth_layout k) _ lo hi h h x.basic_auth a.basic_auth
            (copy_pointer-Copies (stored_basic k) (flat _) return flat-Copies) bound
            (Extends-refl h) basic)
          λ b g e rb.
            Makes-bind _ _ g
              (step (bearer_auth_layout k) _ lo hi h g x.bearer_auth a.bearer_auth
                (copy_pointer-Copies (stored_bearer k) (flat _) return flat-Copies) bound e bearer)
              λ b' g' e' rb'.
                Makes-bind _ _ g'
                  (step (mtls_layout k) _ lo hi h g' x.mtls a.mtls
                    (copy_pointer-Copies (stored_mtls k) (flat _) return flat-Copies) bound
                    (Extends-trans h g g' e e') mtls)
                  λ m g'' e'' rm. Makes-return _ g'' (
                    type,
                    (
                      keep (basic_auth_layout k) h.next g g'' b a.basic_auth
                          (Extends-trans g g' g'' e' e'') rb,
                      (keep (bearer_auth_layout k) h.next g' g'' b' a.bearer_auth e'' rb', rm),
                    ),
                  );
  }

  pub copy_schema_registry_spec-Copies :
      Copies (registry_spec_layout k) (copy_schema_registry_spec k c)
  unfolding copy_schema_registry_spec
  copy_schema_registry_spec-Copies = record {
    at = λ lo hi h x a bound (url, (auth, rest)).
        Makes-bind _ _ h
          (step (pointer (stored_auth k) (auth_config_layout k)) _ lo hi h h x.auth a.auth
            (copy_pointer-Copies (stored_auth k) (auth_config_layout k) (copy_auth_config k c)
              copy_auth_config-Copies)
            bound (Extends-refl h) auth)
          λ p g e r. Makes-return _ g (url, (r, rest));
  }

  pub copy_schema_spec-Copies : Copies (schema_spec_layout k) (copy_schema_spec k c)
  unfolding copy_schema_spec
  copy_schema_spec-Copies = record {
    at = λ lo hi h x a bound (subject, (type, (schema, (references, rest)))).
        Makes-bind _ _ h
          (step (references_layout k) _ lo hi h h x.references a.references
            (copy_slice-Copies (flat _) return flat-Copies (stored_references k) zero_reference)
            bound (Extends-refl h) references)
          λ p g e r. Makes-return _ g (subject, (type, (schema, (r, rest))));
  }

  module _ (time : Copies (time_layout k) c.copy_time)
      (condition : Copies (flat Condition) c.copy_condition) where
    copy_conditions-Copies :
        Copies
          (conditions_layout k)
          (copy_slice (stored_conditions k) c.zero_condition c.copy_condition)
    copy_conditions-Copies =
        copy_slice-Copies (flat _) c.copy_condition condition (stored_conditions k) c.zero_condition

    pub copy_schema_registry_status-Copies :
        Copies (registry_status_layout k) (copy_schema_registry_status k c)
    unfolding copy_schema_registry_status
    copy_schema_registry_status-Copies = record {
      at = λ lo hi h x a bound (connection, (last, (generation, conditions))).
          Makes-bind _ _ h
            (step (time_layout k) _ lo hi h h x.last_checked a.last_checked time bound
              (Extends-refl h) last)
            λ p g e r.
              Makes-bind _ _ g
                (step (conditions_layout k) _ lo hi h g x.conditions a.conditions
                  copy_conditions-Copies bound e conditions)
                λ q g' e' r'. Makes-return _ g' (
                  connection,
                  (keep (time_layout k) h.next g g' p a.last_checked e' r, (generation, r')),
                );
    }

    pub copy_schema_status-Copies : Copies (schema_status_layout k) (copy_schema_status k c)
    unfolding copy_schema_status
    copy_schema_status-Copies = record {
      at = λ lo hi h x a bound (id, (version, (registered, (generation, conditions)))).
          let integers = copy_pointer-Copies (stored_integer k) (flat _) return flat-Copies in
          Makes-bind _ _ h
            (step (integer_layout k) _ lo hi h h x.schema_id a.schema_id integers bound
              (Extends-refl h) id)
            λ p g e rp.
              Makes-bind _ _ g
                (step (integer_layout k) _ lo hi h g x.version a.version integers bound e version)
                λ q g' e' rq.
                  let before = Extends-trans h g g' e e' in
                  Makes-bind _ _ g'
                    (step (time_layout k) _ lo hi h g' x.registered_at a.registered_at time bound
                      before registered)
                    λ t g'' e'' rt.
                      Makes-bind _ _ g''
                        (step (conditions_layout k) _ lo hi h g'' x.conditions a.conditions
                          copy_conditions-Copies bound (Extends-trans h g' g'' before e'')
                          conditions)
                        λ s k' f rs.
                          let later = Extends-trans g' g'' k' e'' f in
                          Makes-return _ k' (
                            keep (integer_layout k) h.next g k' p a.schema_id
                                (Extends-trans g g' k' e' later) rp,
                            (
                              keep (integer_layout k) h.next g' k' q a.version later rq,
                              (
                                keep (time_layout k) h.next g'' k' t a.registered_at f rt,
                                (generation, rs),
                              ),
                            ),
                          );
    }
