-- ===== src/Client/Authorization.antt =====
-- Which requests the client sends, where, and with which credentials.
use schema_strimzi_operator.Prelude.{
  String, Option, some, none, [], ◌∷◌, ◌≡◌, ◌⊎◌, inl, inr, refl, arith, ◌==◌, string_eq, eq_iff,
  ◌<>◌, if◌then◌else◌, All,
}
use mathlib.Core.Path.{subst₂}
use schema_strimzi_operator.World.{World, Event, Trace, sent}
use schema_strimzi_operator.Client.Types.{
  SchemaRegistryClient, RegisterSchemaRequest, registration, compatibility, HttpRequest, Body,
}
use schema_strimzi_operator.Client.Requests.{
  bare_request, json_request, header, subjects_url, versions_url, latest_url, subject_url,
  config_url,
}
use schema_strimzi_operator.Client.Calls.{
  health_check, get_latest_version_for_subject, register_schema, delete_subject, set_compatibility,
}

module _ (w : World) (c : SchemaRegistryClient) where
  -- What the header `Authorization` has to be.
  abbrev pub credentials : Option String
  credentials =
      if c.auth.type == "BASIC"
      then some (w.basic_auth c.auth.username c.auth.password)
      else if c.auth.type == "BEARER"
      then some ("Bearer " <> c.auth.bearer_token)
      else none

  bare_request-credentials :
      (method url : String)
      → header "Authorization" (bare_request w c method url).headers ≡ credentials
  unfolding bare_request header
  bare_request-credentials method url = ground (arith, eq_iff "Authorization" "Authorization")

  json_request-credentials :
      (method url : String) (body : Body)
      → header "Authorization" (json_request w c method url body).headers ≡ credentials
  unfolding json_request header
  json_request-credentials method url body =
      ground (arith, eq_iff "Authorization" "Authorization", eq_iff "Authorization" "Content-Type")

  -- What each call may send about a subject: the method and the address.
  abbrev pub Lists : String → String → Type 0
  Lists method url = (method ≡ "GET") × (url ≡ subjects_url c)

  abbrev pub Registers : String → String → String → Type 0
  Registers subject method url =
      ((method ≡ "POST") × (url ≡ versions_url c subject))
      ⊎ ((method ≡ "GET") × (url ≡ latest_url c subject))

  abbrev pub Deletes : String → String → String → Type 0
  Deletes subject method url = (method ≡ "DELETE") × (url ≡ subject_url c subject)

  abbrev pub Configures : String → String → String → Type 0
  Configures subject method url = (method ≡ "PUT") × (url ≡ config_url c subject)

  module _ (Before : Event → Type 0) (Call : String → String → Type 0) where
    -- A request of the call that carries the client's credentials.
    pub IsOwnRequest : HttpRequest → Type 0
    IsOwnRequest req = (header "Authorization" req.headers ≡ credentials) × Call req.method req.url

    abbrev pub IsSent : Event → Type 0
    IsSent (sent client req answer) = (client ≡ c.http_client) × IsOwnRequest req
    IsSent _ = ⊥

    -- An event of the history before, or such a request, sent over the client's transport.
    abbrev pub IsOwn : Event → Type 0
    IsOwn e = Before e ⊎ IsSent e

    All-IsOwn : (t : Trace) → All Before t → All IsOwn t
    All-IsOwn [] h = tt
    All-IsOwn (e ∷ t) (b, h) = (inl b, All-IsOwn t h)

    bare_request-IsOwn :
        (method url : String) → Call method url → IsOwnRequest (bare_request w c method url)
    unfolding IsOwnRequest bare_request
    bare_request-IsOwn method url h =
        (bare_request-credentials method url, subst₂ Call (ground arith) (ground arith) h)

    json_request-IsOwn :
        (method url : String) (body : Body)
        → Call method url
        → IsOwnRequest (json_request w c method url body)
    unfolding IsOwnRequest json_request
    json_request-IsOwn method url body h =
        (json_request-credentials method url body, subst₂ Call (ground arith) (ground arith) h)

  module _ (Before : Event → Type 0) (t : Trace) (before : All Before t) where
    health_check-IsOwn : All (IsOwn Before Lists) (health_check w c t).1
    unfolding health_check
    health_check-IsOwn = ground (
      arith,
      All-IsOwn Before Lists t before,
      bare_request-IsOwn Before Lists "GET" (subjects_url c) (refl, refl),
    )

    delete_subject-IsOwn :
        (subject : String) → All (IsOwn Before (Deletes subject)) (delete_subject w c subject t).1
    unfolding delete_subject
    delete_subject-IsOwn subject = ground (
      arith,
      All-IsOwn Before (Deletes subject) t before,
      bare_request-IsOwn Before (Deletes subject) "DELETE" (subject_url c subject) (refl, refl),
    )

    set_compatibility-IsOwn :
        (subject level : String)
        → All (IsOwn Before (Configures subject)) (set_compatibility w c subject level t).1
    unfolding set_compatibility
    set_compatibility-IsOwn subject level = ground (
      arith,
      All-IsOwn Before (Configures subject) t before,
      json_request-IsOwn Before (Configures subject) "PUT" (config_url c subject)
          (compatibility level) (refl, refl),
    )

    register_schema-IsOwn :
        (subject : String) (request : RegisterSchemaRequest)
        → All (IsOwn Before (Registers subject)) (register_schema w c subject request t).1
    unfolding register_schema get_latest_version_for_subject
    register_schema-IsOwn subject request = ground (
      arith,
      All-IsOwn Before (Registers subject) t before,
      json_request-IsOwn Before (Registers subject) "POST" (versions_url c subject)
          (registration request) (inl (refl, refl)),
      bare_request-IsOwn Before (Registers subject) "GET" (latest_url c subject) (inr (refl, refl)),
    )

    -- Whatever is known of the events before, each call adds only requests of its own, over the
    -- client's transport, with the user name and password for BASIC, the token for BEARER, and no
    -- `Authorization` for any other type. A health check adds only GET on the list of subjects. A
    -- registration adds only POST on the versions of the given subject and GET on the latest of
    -- them. A deletion adds only DELETE on the given subject, and setting a compatibility level
    -- only PUT on the configuration of the given subject.
    pub calls-IsOwn :
        (subject level : String) (request : RegisterSchemaRequest)
        → All (IsOwn Before Lists) (health_check w c t).1
          × All (IsOwn Before (Registers subject)) (register_schema w c subject request t).1
          × All (IsOwn Before (Deletes subject)) (delete_subject w c subject t).1
          × All (IsOwn Before (Configures subject)) (set_compatibility w c subject level t).1
    calls-IsOwn subject level request = (
      health_check-IsOwn,
      register_schema-IsOwn subject request,
      delete_subject-IsOwn subject,
      set_compatibility-IsOwn subject level,
    )
