-- ===== src/Client/Urls.antt =====
-- The addresses of subjects with a slash.
use schema_strimzi_operator.Prelude.{String, none, ◌∷◌, ◌≡◌, ap, arith, ◌<>◌}
use text.Mathlib.TextLemmas.{append_assoc}
use schema_strimzi_operator.World.{World, Trace, sent}
use schema_strimzi_operator.Client.Types.{SchemaRegistryClient}
use schema_strimzi_operator.Client.Requests.{versions_url, subject_url, bare_request}
use schema_strimzi_operator.Client.Calls.{delete_subject}

module _ (c : SchemaRegistryClient) where
  subject_url-versions :
      (s v : String) → subject_url c (s <> "/versions/" <> v) ≡ versions_url c s <> "/" <> v
  subject_url-versions s v =
      simp append_assoc
        (ap (λ u. c.base_url <> "/subjects/" <> s <> u) (append_assoc "/versions" "/" v))

module _ (w : World) (c : SchemaRegistryClient) where
  pub delete_subject-at :
      (subject url : String) (t : Trace)
      → subject_url c subject ≡ url
      → w.new_request_error "DELETE" url ≡ none
      → let req = bare_request w c "DELETE" url in
        (delete_subject w c subject t).1
        ≡ sent c.http_client req (w.do_request t c.http_client req) ∷ t
  unfolding delete_subject
  delete_subject-at subject url t same built = ground arith

  -- If the request can be built, deleting the subject `s/versions/v` sends one request: DELETE at
  -- the address of version v of the subject s.
  pub delete_subject-versions :
      (s v : String) (t : Trace)
      → w.new_request_error "DELETE" (versions_url c s <> "/" <> v) ≡ none
      → let req = bare_request w c "DELETE" (versions_url c s <> "/" <> v) in
        (delete_subject w c (s <> "/versions/" <> v) t).1
        ≡ sent c.http_client req (w.do_request t c.http_client req) ∷ t
  delete_subject-versions s v t built =
      delete_subject-at (s <> "/versions/" <> v) _ t (subject_url-versions c s v) built
