-- ===== src/Controller/Helpers/Certificates.antt =====
-- What the loaded configuration of a registry with MTLS holds, and when loading it fails.
use schema_strimzi_operator.Prelude.{
  String, Option, none, some, [], ◌∷◌, ◌≡◌, ◌≢◌, ◌↔◌, ◌⊎◌, inl, inr, arith, eq_iff, ◌==◌, string_eq,
  Bool-cases,
}
use schema_strimzi_operator.Error.{ok, Result-cases}
use schema_strimzi_operator.Api.Meta.{ObjectKey, Secret, entry}
use schema_strimzi_operator.Api.RegistryTypes.{
  auth_type_basic, auth_type_bearer, auth_type_mtls, MtlsConfig, SchemaRegistry,
}
use schema_strimzi_operator.Api.RegistryTypes
use schema_strimzi_operator.Client.Types.{AuthConfig, CertPool}
use schema_strimzi_operator.World.{World, Trace, got_secret}
use schema_strimzi_operator.Controller.Helpers.{
  unloaded, load_mtls, load_of_type, load_optional, load_auth_config,
}

-- The texts of the secrets that an MTLS section names, and what is made of them.
module _ (w : World) (namespace : String) (config : AuthConfig) where
  -- The configuration has the client certificate of the texts `tls.crt` and `tls.key` of the secret.
  abbrev CertifiedBy : Secret → Option CertPool → Type 0
  CertifiedBy s pool =
      (w.key_pair_error (entry "tls.crt" s.entries) (entry "tls.key" s.entries) ≡ none)
      × (config ≡ record (unloaded auth_type_mtls) {
        client_cert =
            some (record {
              cert_pem = entry "tls.crt" s.entries;
              key_pem = entry "tls.key" s.entries;
            });
        ca_cert = pool;
      })

  abbrev pub FromMtls : Trace → Option MtlsConfig → Type 0
  FromMtls t none = ⊥
  FromMtls t (some m) =
      (s : Secret) × (w.get_secret t (record { name = m.cert_secret_ref; namespace = namespace })
        ≡ ok s)
      × (((m.ca_secret_ref ≡ "") × CertifiedBy s none)
          ⊎ ((m.ca_secret_ref ≢ "")
              × ((ca : Secret) × (w.get_secret
                      (got_secret (record { name = m.cert_secret_ref; namespace = namespace })
                          (ok s)
                        ∷ t)
                      (record { name = m.ca_secret_ref; namespace = namespace })
                    ≡ ok ca)
                  × CertifiedBy s (some (record { appended = entry "ca.crt" ca.entries ∷ [] })))))

  load_mtls_sound :
      (m : MtlsConfig) (t : Trace)
      → (load_mtls w namespace (some m) t).0 ≡ ok config
      → FromMtls t (some m)
  unfolding load_mtls
  load_mtls_sound m t h =
      let key : ObjectKey = record { name = m.cert_secret_ref; namespace = namespace } in
      let same = eq_iff m.ca_secret_ref "" in
      elim (Result-cases (w.get_secret t key)) [
        | inl (s, found) ↦ elim (Bool-cases (m.ca_secret_ref == "")) [
          | inl unnamed ↦ (s, found, inl (ground (arith, same), ground (arith, same)))
          | inr named ↦
              elim (Result-cases (
                w.get_secret (got_secret key (ok s) ∷ t)
                  (record { name = m.ca_secret_ref; namespace = namespace }))) [
                    | inl (ca, there) ↦
                        (s, found, inr (ground (arith, same), (ca, there, ground arith)))
                    | inr (e, failed) ↦ absurd (ground arith)
                  ]
        ]
        | inr (e, failed) ↦ absurd (ground arith)
      ]

  load_mtls-eq-ok_iff :
      (m : Option MtlsConfig) (t : Trace)
      → ((load_mtls w namespace m t).0 ≡ ok config) ↔ FromMtls t m
  unfolding load_mtls
  load_mtls-eq-ok_iff none t = (λ h. ground arith, λ h. absurd h)
  load_mtls-eq-ok_iff (some m) t =
      (load_mtls_sound m t, λ h. ground (arith, eq_iff m.ca_secret_ref ""))

  load_of_type-mtls :
      (auth : RegistryTypes.AuthConfig) (t : Trace)
      → auth.type ≡ auth_type_mtls
      → load_of_type w namespace auth t ≡ load_mtls w namespace auth.mtls t
  unfolding load_of_type
  load_of_type-mtls auth t e = ground (
    arith,
    eq_iff auth.type auth_type_basic,
    eq_iff auth.type auth_type_bearer,
    eq_iff auth.type auth_type_mtls,
    eq_iff auth_type_basic auth_type_mtls,
    eq_iff auth_type_bearer auth_type_mtls,
  )

-- For a registry that declares MTLS, loading gives a configuration exactly when the section is there,
-- its secret can be read and holds a pair of certificate and key that parses, and the secret of the
-- authority, if one is named, can be read after it. The configuration is then the one with this
-- pair, and with the entry `ca.crt` of the second secret or no authority, and nothing else.
pub load_auth_config-mtls_iff :
    (w : World) (sr : SchemaRegistry) (auth : RegistryTypes.AuthConfig) (t : Trace)
    (config : AuthConfig)
    → sr.spec.auth ≡ some auth
    → auth.type ≡ auth_type_mtls
    → ((load_auth_config w sr t).0 ≡ ok config)
      ↔ FromMtls w sr.metadata.namespace config t auth.mtls
unfolding load_auth_config load_optional
load_auth_config-mtls_iff w sr auth t config declared mtls =
    let namespace = sr.metadata.namespace in
    rw declared (
      rw (load_of_type-mtls w namespace config auth t mtls)
        (load_mtls-eq-ok_iff w namespace config auth.mtls t))
