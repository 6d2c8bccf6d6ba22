-- ===== src/Tests/ClientTests.antt =====
-- The theorems about the client at concrete requests.
use schema_strimzi_operator.Prelude.{pos, none, [], ◌∷◌, ◌≡◌, ◌↔◌, ◌⊎◌, ◌<>◌, All, refl}
use schema_strimzi_operator.Error.{ok}
use schema_strimzi_operator.Client.Types.{
  RegisterSchemaRequest, SchemaResponse, HttpResponse, registration, compatibility,
}
use schema_strimzi_operator.Client.Requests.{
  subjects_url, versions_url, subject_url, config_url, bare_request, json_request,
}
use schema_strimzi_operator.Client.Calls.{
  health_check, register_schema, delete_subject, set_compatibility,
}
use schema_strimzi_operator.Client.Answers.{
  HasStatus, IsVersion, registration_request, registration_answer, calls-eq-nil_iff,
  register_schema-eq-ok_iff,
}
use schema_strimzi_operator.Client.Authorization.{
  Lists, Registers, Deletes, Configures, IsOwn, calls-IsOwn,
}
use schema_strimzi_operator.Client.Urls.{delete_subject-versions}
use schema_strimzi_operator.World.{World, Event, sent}
use schema_strimzi_operator.Tests.Sample.{schema, world, world_with, client}

abbrev request : RegisterSchemaRequest
request = record { schema = "{}"; schema_type = "AVRO"; references = [] }

abbrev response : SchemaResponse
response = record { id = pos 7; version = pos 3; schema = "" }

-- The registry answers every request with 404.
abbrev missing : World
missing = world_with schema 404

calls-eq-nil_iff_example :
    let list = bare_request missing client "GET" (subjects_url client) in
    let delete = bare_request missing client "DELETE" (subject_url client "users-value") in
    let put =
      json_request missing client "PUT" (config_url client "users-value") (compatibility "FULL") in
    (((health_check missing client []).0 ≡ none) ↔ (
      (missing.new_request_error "GET" (subjects_url client) ≡ none)
      × HasStatus 200 (missing.do_request [] client.http_client list)))
    × (((delete_subject missing client "users-value" []).0 ≡ none) ↔ (
        (missing.new_request_error "DELETE" (subject_url client "users-value") ≡ none)
        × (HasStatus 404 (missing.do_request [] client.http_client delete)
            ⊎ HasStatus 200 (missing.do_request [] client.http_client delete))))
    × (((set_compatibility missing client "users-value" "FULL" []).0 ≡ none) ↔ (
        (missing.marshal_error (compatibility "FULL") ≡ none)
        × (missing.new_request_error "PUT" (config_url client "users-value") ≡ none)
        × HasStatus 200 (missing.do_request [] client.http_client put)))
calls-eq-nil_iff_example = calls-eq-nil_iff missing client "users-value" "FULL" []

register_schema-eq-ok_iff_example :
    ((register_schema world client "users-value" request []).0 ≡ ok response) ↔ (
      (world.marshal_error (registration request) ≡ none)
      × (world.new_request_error "POST" (versions_url client "users-value") ≡ none)
      × ((resp : HttpResponse) × (registration_answer world client "users-value" request []
            ≡ ok resp)
          × (resp.status_code ≡ 200)
          × (world.decode_id resp.body ≡ ok response.id))
      × IsVersion world client "users-value"
          (sent client.http_client
              (registration_request world client "users-value" request)
              (registration_answer world client "users-value" request [])
            ∷ [])
          response.version
      × (response.schema ≡ ""))
register_schema-eq-ok_iff_example =
    register_schema-eq-ok_iff world client "users-value" request response []

-- All the conditions of a registration hold in the sample world.
register_schema-sample : (register_schema world client "users-value" request []).0 ≡ ok response
unfolding register_schema
register_schema-sample = refl

-- Nothing is known of the events before, and there are none.
abbrev Nothing : Event → Type 0
Nothing e = ⊥

calls-IsOwn_example :
    All (IsOwn world client Nothing (Lists world client)) (health_check world client []).1
    × All
        (IsOwn world client Nothing (Registers world client "users-value"))
        (register_schema world client "users-value" request []).1
    × All
        (IsOwn world client Nothing (Deletes world client "users-value"))
        (delete_subject world client "users-value" []).1
    × All
        (IsOwn world client Nothing (Configures world client "users-value"))
        (set_compatibility world client "users-value" "FULL" []).1
calls-IsOwn_example = calls-IsOwn world client Nothing [] tt "users-value" "FULL" request

delete_subject-versions_example :
    let req =
      bare_request world client "DELETE" (versions_url client "users-value" <> "/" <> "1") in
    (delete_subject world client ("users-value" <> "/versions/" <> "1") []).1
    ≡ sent client.http_client req (world.do_request [] client.http_client req) ∷ []
delete_subject-versions_example = delete_subject-versions world client "users-value" "1" [] refl
