-- ===== src/Client/Calls.antt =====
-- The calls of the Schema Registry API.
use schema_strimzi_operator.Prelude.{
  ℤ, pos, String, Option, none, some, ◌∷◌, ◌==◌, nat_eq, ◌<>◌, not, decimal_nat, if◌then◌else◌,
}
use schema_strimzi_operator.Error.{Error, message, wrap, Result, ok, err}
use schema_strimzi_operator.World.{World, sent}
use schema_strimzi_operator.Exec.{
  Run, finish, give, perform, check, check_nil, pure, exec, ◌>>=◌, ◌>>◌,
}
use schema_strimzi_operator.Client.Types.{
  SchemaRegistryClient, SchemaResponse, RegisterSchemaRequest, registration, compatibility,
  HttpRequest, HttpResponse,
}
use schema_strimzi_operator.Client.Requests.{
  subjects_url, versions_url, latest_url, subject_url, config_url, bare_request, json_request,
}

module _ (w : World) (c : SchemaRegistryClient) where
  -- `c.httpClient.Do(req)`
  unfoldable pub send : HttpRequest → Run (Result HttpResponse)
  send req t = let r = w.do_request t c.http_client req in (r, sent c.http_client req r ∷ t)

  abbrev pub failed_with : String → HttpResponse → Error
  failed_with prefix resp = message (prefix <> decimal_nat resp.status_code <> ": " <> resp.body)

  unfoldable pub health_check : Run (Option Error)
  unfolding exec send
  health_check = finish do
    check_nil (w.new_request_error "GET" (subjects_url c)) (λ e. pure (some e))
    r ← perform (send (bare_request w c "GET" (subjects_url c)))
    resp ← check r (λ e. pure (some (wrap "health check failed" e)))
    if not (resp.status_code == 200)
        then give
            (some (message ("health check failed with status: " <> decimal_nat resp.status_code)))
        else give none

  unfoldable pub get_latest_version_for_subject : String → Run (Result ℤ)
  unfolding exec send
  get_latest_version_for_subject subject = finish do
    check_nil (w.new_request_error "GET" (latest_url c subject)) (λ e. pure (err e))
    r ← perform (send (bare_request w c "GET" (latest_url c subject)))
    resp ← check r (λ e. pure (err (wrap "failed to get latest version" e)))
    if not (resp.status_code == 200)
        then give (
            err
              (message ("get latest version failed with status: " <> decimal_nat resp.status_code)))
        else do
          result ←
              check (w.decode_response resp)
                (λ e. pure (err (wrap "failed to decode latest version response" e)))
          give (ok result.version)

  -- A version that cannot be found out is left at 0, and so is the schema text at "".
  pub registered : ℤ → Result ℤ → SchemaResponse
  registered id (ok version) = record { id = id; version = version; schema = "" }
  registered id (err _) = record { id = id; version = pos 0; schema = "" }

  unfoldable pub register_schema : String → RegisterSchemaRequest → Run (Result SchemaResponse)
  unfolding exec send get_latest_version_for_subject registered
  register_schema subject request = finish do
    check_nil (w.marshal_error (registration request))
        (λ e. pure (err (wrap "failed to marshal schema request" e)))
    check_nil (w.new_request_error "POST" (versions_url c subject)) (λ e. pure (err e))
    r ← perform (send (json_request w c "POST" (versions_url c subject) (registration request)))
    resp ← check r (λ e. pure (err (wrap "failed to register schema" e)))
    if not (resp.status_code == 200)
        then give (err (failed_with "schema registration failed with status " resp))
        else do
          id ←
              check (w.decode_id resp.body)
                (λ e. pure (err (wrap "failed to decode register response" e)))
          version ← perform (get_latest_version_for_subject subject)
          give (ok (registered id version))

  unfoldable pub delete_subject : String → Run (Option Error)
  unfolding exec send
  delete_subject subject = finish do
    check_nil (w.new_request_error "DELETE" (subject_url c subject)) (λ e. pure (some e))
    r ← perform (send (bare_request w c "DELETE" (subject_url c subject)))
    resp ← check r (λ e. pure (some (wrap "failed to delete subject" e)))
    if resp.status_code == 404
        then give none
        else if not (resp.status_code == 200)
        then give (some (failed_with "delete subject failed with status " resp))
        else give none

  unfoldable pub set_compatibility : String → String → Run (Option Error)
  unfolding exec send
  set_compatibility subject level = finish do
    check_nil (w.marshal_error (compatibility level)) (λ e. pure (some e))
    check_nil (w.new_request_error "PUT" (config_url c subject)) (λ e. pure (some e))
    r ← perform (send (json_request w c "PUT" (config_url c subject) (compatibility level)))
    resp ← check r (λ e. pure (some (wrap "failed to set compatibility" e)))
    if not (resp.status_code == 200)
        then give (some (failed_with "set compatibility failed with status " resp))
        else give none
