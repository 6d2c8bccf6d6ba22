-- ===== src/Manager/Servers.antt =====
-- How the servers of the manager are protected.
use schema_strimzi_operator.Prelude.{
  true, some, List, [], ◌∷◌, ◌≡◌, ◌↔◌, arith, eq_iff, String, if◌then◌else◌,
}
use schema_strimzi_operator.Manager.Options.{
  Flags, ServerTls, with_authentication_and_authorization, apply_opts, manager_options,
}

-- The protocols that a server offers, when it starts out with the given TLS configuration.
abbrev pub offered : Flags → ServerTls → List String
offered flags c = if flags.enable_http2 then c.next_protos else "http/1.1" ∷ []

-- Whatever the flags and the TLS configurations that the servers start out with: the webhook server
-- and the metrics server offer http/1.1 alone, or what they start out with if HTTP/2 is enabled; the
-- metrics server asks for authentication and authorization exactly if it serves over TLS; and both
-- read their certificates from the directory that the flags give.
pub manager_options-protected :
    (flags : Flags) (c : ServerTls)
    → let options = manager_options flags in
      ((apply_opts options.webhook_server.tls_opts c).next_protos ≡ offered flags c)
      × ((apply_opts options.metrics.tls_opts c).next_protos ≡ offered flags c)
      × ((options.metrics.filter_provider ≡ some with_authentication_and_authorization)
          ↔ (options.metrics.secure_serving ≡ true))
      × (options.webhook_server.cert_dir ≡ flags.webhook_cert_path)
      × (options.metrics.cert_dir ≡ flags.metrics_cert_path)
unfolding manager_options apply_opts
manager_options-protected flags c =
    let webhook = eq_iff flags.webhook_cert_path "" in
    let metrics = eq_iff flags.metrics_cert_path "" in
    (
      ground (arith, webhook),
      ground (arith, metrics),
      (λ h. ground (arith, metrics), λ h. ground (arith, metrics)),
      ground (arith, webhook),
      ground (arith, metrics),
    )
