-- ===== src/Controller/Quiet.antt =====
-- The code below the reconcilers keeps any property of the history that its events keep.
use schema_strimzi_operator.Prelude.{String, ◌∷◌, ◌≡◌, arith}
use schema_strimzi_operator.Error.{Result}
use schema_strimzi_operator.Api.Meta.{ObjectKey, Secret}
use schema_strimzi_operator.Client.Types.{
  SchemaRegistryClient, RegisterSchemaRequest, HttpClient, HttpRequest, HttpResponse, Body,
}
use schema_strimzi_operator.Client.Requests.{bare_request, json_request}
use schema_strimzi_operator.Client.Calls.{
  send, health_check, get_latest_version_for_subject, register_schema, delete_subject,
  set_compatibility,
}
use schema_strimzi_operator.World.{World, Trace, got_secret, sent}
use schema_strimzi_operator.Controller.Keeps.{Keeps, keeps_rules}

pub bare_request-method :
    (w : World) (c : SchemaRegistryClient) (method url : String)
    → (bare_request w c method url).method ≡ method
unfolding bare_request
bare_request-method w c method url = ground arith

pub json_request-method :
    (w : World) (c : SchemaRegistryClient) (method url : String) (body : Body)
    → (json_request w c method url body).method ≡ method
unfolding json_request
json_request-method w c method url body = ground arith

-- The requests with these methods keep the property.
pub record KeepsSent (M : String → Type 0) (I : Trace → Type 0) : Type 0 where
  pub at :
      (client : HttpClient) (req : HttpRequest) (r : Result HttpResponse) (t : Trace)
      → M req.method
      → I t
      → I (sent client req r ∷ t)

-- Reads of the secrets with these keys keep the property.
pub record KeepsReads (K : ObjectKey → Type 0) (I : Trace → Type 0) : Type 0 where
  pub at :
      (key : ObjectKey) (r : Result Secret) (t : Trace) → K key → I t → I (got_secret key r ∷ t)

module _ (w : World) {I : Trace → Type 0} {M : String → Type 0} (on_sent : KeepsSent M I)
    (c : SchemaRegistryClient) where
  send-Keeps : (req : HttpRequest) → M req.method → Keeps I (send w c req)
  unfolding send
  send-Keeps req allowed = record { at = λ t h. on_sent.at c.http_client req _ t allowed h }

  bare-Keeps : (method url : String) → M method → Keeps I (send w c (bare_request w c method url))
  bare-Keeps method url allowed = send-Keeps _ (rw bare_request-method allowed)

  json-Keeps :
      (method url : String) (body : Body)
      → M method
      → Keeps I (send w c (json_request w c method url body))
  json-Keeps method url body allowed = send-Keeps _ (rw json_request-method allowed)

  pub health_check-Keeps : M "GET" → Keeps I (health_check w c)
  unfolding health_check
  health_check-Keeps allowed = search (keeps_rules, bare-Keeps) depth 12

  pub latest-Keeps :
      (subject : String) → M "GET" → Keeps I (get_latest_version_for_subject w c subject)
  unfolding get_latest_version_for_subject
  latest-Keeps subject allowed = search (keeps_rules, bare-Keeps) depth 12

  pub register_schema-Keeps :
      (subject : String) (request : RegisterSchemaRequest)
      → M "POST"
      → M "GET"
      → Keeps I (register_schema w c subject request)
  unfolding register_schema
  register_schema-Keeps subject request posts gets =
      search (keeps_rules, json-Keeps, latest-Keeps) depth 16

  pub delete_subject-Keeps : (subject : String) → M "DELETE" → Keeps I (delete_subject w c subject)
  unfolding delete_subject
  delete_subject-Keeps subject allowed = search (keeps_rules, bare-Keeps) depth 12

  pub set_compatibility-Keeps :
      (subject level : String) → M "PUT" → Keeps I (set_compatibility w c subject level)
  unfolding set_compatibility
  set_compatibility-Keeps subject level allowed = search (keeps_rules, json-Keeps) depth 12
