-- ===== src/Client/Requests.antt =====
-- The constructor of the client, the URLs that it asks for, and its authentication headers.
use schema_strimzi_operator.Prelude.{
  ℤ, String, Bool, Option, none, some, List, [], ◌∷◌, ◌==◌, string_eq, ◌<>◌, if◌then◌else◌,
}
use schema_strimzi_operator.Error.{Result, ok}
use schema_strimzi_operator.Client.Types.{
  CertPool, AuthConfig, TlsConfig, SchemaRegistryClient, HttpRequest, Body,
}
use schema_strimzi_operator.World.{World}

-- `RootCAs` is set where there is a pool; without one it keeps its zero value.
root_cas : Option CertPool → Option CertPool
root_cas none = none
root_cas (some pool) = some pool

unfoldable pub new_tls_config : AuthConfig → Bool → TlsConfig
unfolding root_cas
new_tls_config auth insecure =
    if auth.type == "MTLS"
    then record {
      insecure_skip_verify = insecure;
      certificates = auth.client_cert ∷ [];
      root_cas = root_cas auth.ca_cert;
    }
    else record { insecure_skip_verify = insecure; certificates = []; root_cas = none }

-- `NewClient`. It fails never.
unfoldable pub new_client : String → AuthConfig → ℤ → Bool → Result SchemaRegistryClient
unfolding new_tls_config
new_client base_url auth timeout insecure = ok (record {
  base_url = base_url;
  http_client = record { timeout = timeout; tls_client_config = new_tls_config auth insecure };
  auth = auth;
})

abbrev pub subjects_url : SchemaRegistryClient → String
subjects_url c = c.base_url <> "/subjects"

abbrev pub versions_url : SchemaRegistryClient → String → String
versions_url c subject = c.base_url <> "/subjects/" <> subject <> "/versions"

abbrev pub latest_url : SchemaRegistryClient → String → String
latest_url c subject = c.base_url <> "/subjects/" <> subject <> "/versions/latest"

abbrev pub subject_url : SchemaRegistryClient → String → String
subject_url c subject = c.base_url <> "/subjects/" <> subject

abbrev pub config_url : SchemaRegistryClient → String → String
config_url c subject = c.base_url <> "/config/" <> subject

abbrev pub content_type : String
content_type = "application/vnd.schemaregistry.v1+json"

-- `Header.Set`: the value replaces the ones that the key has.
unfoldable pub set_header : String → String → List (String × String) → List (String × String)
set_header key value [] = (key, value) ∷ []
set_header key value ((k, v) ∷ rest) =
    if k == key then (key, value) ∷ rest else (k, v) ∷ set_header key value rest

-- `Header.Get`
unfoldable pub header : String → List (String × String) → Option String
header key [] = none
header key ((k, v) ∷ rest) = if k == key then some v else header key rest

module _ (w : World) (c : SchemaRegistryClient) where
  unfoldable pub add_auth : HttpRequest → HttpRequest
  unfolding set_header
  add_auth req =
      if c.auth.type == "BASIC"
      then record req {
        headers =
            set_header "Authorization" (w.basic_auth c.auth.username c.auth.password) req.headers;
      }
      else if c.auth.type == "BEARER"
      then record req {
        headers = set_header "Authorization" ("Bearer " <> c.auth.bearer_token) req.headers;
      }
      else req

  -- A request with no body, as three of the calls send it.
  unfoldable pub bare_request : String → String → HttpRequest
  unfolding add_auth
  bare_request method url =
      add_auth (record { method = method; url = url; headers = []; body = none })

  -- A request with a JSON body, as the two others send it.
  unfoldable pub json_request : String → String → Body → HttpRequest
  unfolding add_auth
  json_request method url body =
      let req = add_auth (record { method = method; url = url; headers = []; body = some body }) in
      record req { headers = set_header "Content-Type" content_type req.headers }
