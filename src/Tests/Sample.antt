-- ===== src/Tests/Sample.antt =====
-- A world in which everything works: the API holds one schema and one registry, and the registry
-- answers each request with 200.
use schema_strimzi_operator.Prelude.{
  ℕ, pos, String, Bool, true, false, Option, none, some, List, [], ◌∷◌, ◌≡◌, ◌≢◌, refl, arith,
  eq_refl, ◌==◌, string_eq, if◌then◌else◌,
}
use schema_strimzi_operator.Error.{Error, IsNotFound, not_found, message, wrap, Result, ok}
use schema_strimzi_operator.Api.Meta.{Condition, ObjectKey, ObjectMeta, Secret, find_condition}
use schema_strimzi_operator.Api.SchemaTypes.{Schema}
use schema_strimzi_operator.Api.RegistryTypes.{AuthConfig, SchemaRegistry}
use schema_strimzi_operator.Client.Types.{HttpResponse, SchemaRegistryClient}
use schema_strimzi_operator.Client.Types
use schema_strimzi_operator.World.{World, IsDocumented, FieldError, Trace}
use schema_strimzi_operator.Controller.SchemaController.{schema_finalizer}

abbrev pub contains : List String → String → Bool
contains [] f = false
contains (g ∷ gs) f = if g == f then true else contains gs f

abbrev add : List String → String → List String
add [] f = f ∷ []
add (g ∷ gs) f = if g == f then g ∷ gs else g ∷ add gs f

abbrev remove : List String → String → List String
remove [] f = []
remove (g ∷ gs) f = let rest = remove gs f in if g == f then rest else g ∷ rest

abbrev set_condition : List Condition → Condition → List Condition
set_condition [] c = c ∷ []
set_condition (d ∷ ds) c = if d.type == c.type then c ∷ ds else d ∷ set_condition ds c

abbrev ignore : Error → Option Error
ignore (not_found s) = none
ignore (message s) = some (message s)
ignore (wrap prefix e) = elim (ignore e) [ none ↦ none | some f ↦ some (wrap prefix e) ]

abbrev aggregate : List FieldError → Option Error
aggregate [] = none
aggregate (e ∷ es) = some (message "invalid")

abbrev pub meta : String → List String → ObjectMeta
meta name fs = record {
  name = name;
  namespace = "kafka";
  generation = pos 2;
  resource_version = "17";
  deletion_timestamp = none;
  finalizers = fs;
}

abbrev pub schema : Schema
schema = record {
  metadata = meta "user-schema" (schema_finalizer ∷ []);
  spec = record {
    subject = "users-value";
    schema_type = "AVRO";
    schema = "{}";
    references = record { name = "id"; subject = "ids"; version = pos 1 } ∷ [];
    registry_ref = record { name = "registry"; namespace = "" };
    compatibility_level = "BACKWARD";
  };
  status = record {
    schema_id = none;
    version = none;
    registered_at = none;
    observed_generation = pos 0;
    conditions = [];
  };
}

-- The same schema, to be deleted.
abbrev pub dying : Schema
dying = record schema { metadata = record schema.metadata { deletion_timestamp = some 9 } }

abbrev pub basic : AuthConfig
basic = record {
  type = "BASIC";
  basic_auth = some (record { secret_ref = "credentials" });
  bearer_auth = none;
  mtls = none;
}

abbrev pub registry : SchemaRegistry
registry = record {
  metadata = meta "registry" [];
  spec = record {
    url = "http://registry:8081";
    auth = some basic;
    insecure_skip_verify = false;
    timeout = pos 30;
  };
  status = record {
    connection_status = "";
    last_checked = none;
    observed_generation = pos 0;
    conditions = [];
  };
}

abbrev pub secret : Secret
secret = record {
  name = "credentials";
  namespace = "kafka";
  entries = ("username", "ann") ∷ ("password", "pw") ∷ [];
}

-- The answer to every request.
abbrev pub answer : ℕ → HttpResponse
answer code = record { status_code = code; body = "7" }

-- The world with this schema, and this status code of every answer.
abbrev pub world_with : Schema → ℕ → World
world_with s code = record {
  get_schema = λ t key. ok s;
  get_registry = λ t key. ok registry;
  get_secret = λ t key. ok secret;
  list_schemas = λ t namespace. ok (s ∷ []);
  list_registries = λ t namespace. ok (registry ∷ []);
  update_schema = λ t x. none;
  update_schema_status = λ t x. none;
  update_registry_status = λ t x. none;
  do_request = λ t client req. ok (answer code);
  now = λ t. 42;
  new_request_error = λ method url. none;
  marshal_error = λ body. none;
  key_pair_error = λ cert key. none;
  decode_id = λ body. ok (pos 7);
  decode_response = λ resp. ok (record { id = pos 7; version = pos 3; schema = "" });
  json_valid = λ text. true;
  basic_auth = λ user password. user;
  quote = λ text. text;
  contains_finalizer = contains;
  add_finalizer = add;
  remove_finalizer = remove;
  ignore_not_found = ignore;
  set_status_condition = λ t cs c. set_condition cs c;
  to_aggregate = aggregate;
}

abbrev pub world : World
world = world_with schema 200

contains-add : (fs : List String) (f : String) → contains (add fs f) f ≡ true
contains-add [] f = ground (arith, eq_refl f)
contains-add (g ∷ gs) f = ground (arith, contains-add gs f)

contains-remove : (fs : List String) (f : String) → contains (remove fs f) f ≡ false
contains-remove [] f = refl
contains-remove (g ∷ gs) f = ground (arith, contains-remove gs f)

find-set :
    (cs : List Condition) (c : Condition) → find_condition c.type (set_condition cs c) ≡ some c
unfolding find_condition
find-set [] c = ground (arith, eq_refl c.type)
find-set (d ∷ ds) c = ground (arith, find-set ds c, eq_refl c.type)

ignore-IsNotFound : (e : Error) → IsNotFound e → ignore e ≡ none
ignore-IsNotFound (not_found s) h = refl
ignore-IsNotFound (message s) h = absurd h
ignore-IsNotFound (wrap prefix e) h = rw (ignore-IsNotFound e h) refl

ignore-others : (e : Error) → ¬ IsNotFound e → ignore e ≡ some e
ignore-others (not_found s) other = absurd (other tt)
ignore-others (message s) other = refl
ignore-others (wrap prefix e) other = rw (ignore-others e other) refl

aggregate-cons : (e : FieldError) (es : List FieldError) → aggregate (e ∷ es) ≢ none
aggregate-cons e es = ground arith

-- The sample meets the assumptions.
pub world_with-IsDocumented : (s : Schema) (code : ℕ) → IsDocumented (world_with s code)
world_with-IsDocumented s code = record {
  contains-add = contains-add;
  contains-remove = contains-remove;
  find-set = λ t cs c. (c, find-set cs c, refl, refl, refl, refl);
  ignore-IsNotFound = ignore-IsNotFound;
  ignore-others = ignore-others;
  aggregate-nil = refl;
  aggregate-cons = aggregate-cons;
}

-- The sample with an API server that answers in another way where schemas are concerned.
abbrev pub storing : (Trace → ObjectKey → Result Schema) → (Trace → Schema → Option Error) → World
storing get update = record world {
  get_schema = get;
  update_schema = update;
  update_schema_status = update;
}

pub storing-IsDocumented :
    (get : Trace → ObjectKey → Result Schema) (update : Trace → Schema → Option Error)
    → IsDocumented (storing get update)
storing-IsDocumented get update =
    let d = world_with-IsDocumented schema 200 in
    record {
      contains-add = d.contains-add;
      contains-remove = d.contains-remove;
      find-set = d.find-set;
      ignore-IsNotFound = d.ignore-IsNotFound;
      ignore-others = d.ignore-others;
      aggregate-nil = d.aggregate-nil;
      aggregate-cons = d.aggregate-cons;
    }

abbrev pub auth : Types.AuthConfig
auth = record {
  type = "BASIC";
  username = "ann";
  password = "pw";
  bearer_token = "";
  client_cert = none;
  ca_cert = none;
}

abbrev pub client : SchemaRegistryClient
client = record {
  base_url = "http://registry:8081";
  http_client = record {
    timeout = pos 30000000000;
    tls_client_config = record { insecure_skip_verify = false; certificates = []; root_cas = none };
  };
  auth = auth;
}
