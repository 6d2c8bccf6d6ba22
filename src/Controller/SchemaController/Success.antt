-- ===== src/Controller/SchemaController/Success.antt =====
-- When a client is bound to be built, and a registration or a deletion to succeed.
use schema_strimzi_operator.Prelude.{ℤ, String, none, ◌∷◌, ◌≡◌, refl, ap, ◌⊎◌, inl, inr}
use schema_strimzi_operator.Error.{ok}
use schema_strimzi_operator.Api.Meta.{ObjectKey, Secret}
use schema_strimzi_operator.Api.SchemaTypes.{Schema}
use schema_strimzi_operator.Api.RegistryTypes.{SchemaRegistry}
use schema_strimzi_operator.Client.Types.{
  Body, HttpClient, HttpRequest, HttpResponse, RegisterSchemaRequest, SchemaRegistryClient,
  SchemaResponse,
}
use schema_strimzi_operator.Client.Requests.{new_client, bare_request, subject_url}
use schema_strimzi_operator.Client.Calls.{register_schema, delete_subject}
use schema_strimzi_operator.Client.Answers.{
  version_after, registration_request, register_schema-version_after,
}
use schema_strimzi_operator.World.{World, IsDocumented, Trace, got_registry, sent}
use schema_strimzi_operator.Webhook.RegistryWebhook.{validate_create}
use schema_strimzi_operator.Controller.Quiet.{json_request-method, bare_request-method}
use schema_strimzi_operator.Controller.Helpers.{load_auth_config}
use schema_strimzi_operator.Controller.Helpers.Total.{load_auth_config-total}
use schema_strimzi_operator.Controller.RegistryController.Rounds.{client_of}
use schema_strimzi_operator.Controller.SchemaController.{registry_key, build_client}

module _ (w : World) (d : IsDocumented w) (s : Schema) (sr : SchemaRegistry)
    (registry_there : (t : Trace) → w.get_registry t (registry_key s) ≡ ok sr)
    (admitted : validate_create w sr ≡ none)
    (readable : (t : Trace) (key : ObjectKey)
      → (secret : Secret) × (w.get_secret t key ≡ ok secret))
    (parses : (cert key : String) → w.key_pair_error cert key ≡ none) where
  -- A client is built for a schema whose registry the webhook has accepted.
  pub build_client-total :
      (t : Trace) → (c : SchemaRegistryClient) × (t' : Trace) × (build_client w s t ≡ (ok c, t'))
  unfolding build_client new_client
  build_client-total t =
      let before = got_registry (registry_key s) (ok sr) ∷ t in
      let (auth, loaded) = load_auth_config-total w sr before d admitted readable parses in
      (client_of sr auth, (load_auth_config w sr before).1, rw (registry_there, loaded) refl)

module _ (w : World) (id : ℤ) (encodes : (body : Body) → w.marshal_error body ≡ none)
    (built : (method url : String) → w.new_request_error method url ≡ none)
    (answers : (t : Trace) (client : HttpClient) (req : HttpRequest)
      → req.method ≡ "POST"
      → (resp : HttpResponse) × (w.do_request t client req ≡ ok resp)
        × (resp.status_code ≡ 200)
        × (w.decode_id resp.body ≡ ok id)) where
  pub register_schema-total :
      (c : SchemaRegistryClient) (subject : String) (request : RegisterSchemaRequest) (t : Trace)
      → (resp : SchemaResponse) × (t' : Trace) × (register_schema w c subject request t
          ≡ (ok resp, t'))
        × (resp.id ≡ id)
  register_schema-total c subject request t =
      let answer = w.do_request t c.http_client (registration_request w c subject request) in
      let asked = sent c.http_client (registration_request w c subject request) answer ∷ t in
      let result : SchemaResponse = record {
        id = id;
        version = version_after w c subject asked;
        schema = "";
      } in
      let done_so = (register_schema-version_after w c subject request result t).1 (
        encodes _,
        built _ _,
        answers t c.http_client (registration_request w c subject request)
            (json_request-method w c "POST" _ _),
        refl,
        refl,
      ) in
      (
        result,
        (register_schema w c subject request t).1,
        ap (λ r. (r, (register_schema w c subject request t).1)) done_so,
        refl,
      )

module _ (w : World) (built : (method url : String) → w.new_request_error method url ≡ none)
    (answers : (t : Trace) (client : HttpClient) (req : HttpRequest)
      → req.method ≡ "DELETE"
      → (resp : HttpResponse) × (w.do_request t client req ≡ ok resp)
        × ((resp.status_code ≡ 404) ⊎ (resp.status_code ≡ 200))) where
  pub delete_subject-total :
      (c : SchemaRegistryClient) (subject : String) (t : Trace)
      → (resp : HttpResponse) × (delete_subject w c subject t ≡ (
        none,
        sent c.http_client (bare_request w c "DELETE" (subject_url c subject)) (ok resp) ∷ t,
      ))
  unfolding delete_subject
  delete_subject-total c subject t =
      let (resp, answered, code) =
        answers t c.http_client (bare_request w c "DELETE" (subject_url c subject))
          (bare_request-method w c "DELETE" (subject_url c subject)) in
      elim code [
        | inl missing ↦ (resp, rw (built, answered, missing) refl)
        | inr deleted ↦ (resp, rw (built, answered, deleted) refl)
      ]
