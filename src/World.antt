-- ===== src/World.antt =====
-- What the operator meets outside its own code. Each effect is an oracle over the history of all
-- effects so far, so that other clients, the garbage collector and the network may do anything
-- between two calls. Code of third-party packages that computes a value is a function here, and
-- `IsDocumented` holds what their documentation promises of the functions that theorems rely on.
use schema_strimzi_operator.Prelude.{
  ℤ, String, Bool, true, false, Option, none, some, List, [], ◌∷◌, ◌≡◌, ◌≢◌,
}
use schema_strimzi_operator.Error.{Error, IsNotFound, Result}
use schema_strimzi_operator.Api.Meta.{ObjectKey, Condition, Secret, Timestamp, find_condition}
use schema_strimzi_operator.Api.SchemaTypes.{Schema}
use schema_strimzi_operator.Api.RegistryTypes.{SchemaRegistry}
use schema_strimzi_operator.Client.Types.{
  HttpClient, HttpRequest, HttpResponse, Body, SchemaResponse,
}

-- One effect with the answer that it got.
pub data Event : Type 0 where
  got_schema : ObjectKey → Result Schema → Event
  got_registry : ObjectKey → Result SchemaRegistry → Event
  got_secret : ObjectKey → Result Secret → Event
  listed_schemas : String → Result (List Schema) → Event
  listed_registries : String → Result (List SchemaRegistry) → Event
  updated_schema : Schema → Option Error → Event
  updated_schema_status : Schema → Option Error → Event
  updated_registry_status : SchemaRegistry → Option Error → Event
  sent : HttpClient → HttpRequest → Result HttpResponse → Event
  read_clock : Timestamp → Event

-- The history, the latest event first.
abbrev pub Trace : Type 0
Trace = List Event

-- A field error of k8s.io/apimachinery/pkg/util/validation/field: its kind, path, value and detail.
pub data FieldError : Type 0 where
  required : (path detail : String) → FieldError
  invalid : (path : String) → (value : String) → (detail : String) → FieldError
  invalid_int : (path : String) → (value : ℤ) → (detail : String) → FieldError
  forbidden : (path detail : String) → FieldError
  internal : (path : String) → Error → FieldError

pub record World : Type 0 where
  -- The API server, through sigs.k8s.io/controller-runtime/pkg/client.
  pub get_schema : Trace → ObjectKey → Result Schema
  pub get_registry : Trace → ObjectKey → Result SchemaRegistry
  pub get_secret : Trace → ObjectKey → Result Secret
  pub list_schemas : Trace → String → Result (List Schema)
  pub list_registries : Trace → String → Result (List SchemaRegistry)
  pub update_schema : Trace → Schema → Option Error
  pub update_schema_status : Trace → Schema → Option Error
  pub update_registry_status : Trace → SchemaRegistry → Option Error
  -- `http.Client.Do`, and `metav1.Now`.
  pub do_request : Trace → HttpClient → HttpRequest → Result HttpResponse
  pub now : Trace → Timestamp
  -- The errors of `http.NewRequestWithContext` (method, URL), `json.Marshal` and `tls.X509KeyPair`.
  pub new_request_error : String → String → Option Error
  pub marshal_error : Body → Option Error
  pub key_pair_error : String → String → Option Error
  -- `json.Unmarshal` into the `id` field, `json.Decoder.Decode`, `json.Valid`.
  pub decode_id : String → Result ℤ
  pub decode_response : HttpResponse → Result SchemaResponse
  pub json_valid : String → Bool
  -- The header value that `http.Request.SetBasicAuth` sets, of a user name and a password.
  pub basic_auth : String → String → String
  -- `%q` of package fmt.
  pub quote : String → String
  -- controllerutil.{ContainsFinalizer, AddFinalizer, RemoveFinalizer}, `client.IgnoreNotFound`.
  pub contains_finalizer : List String → String → Bool
  pub add_finalizer : List String → String → List String
  pub remove_finalizer : List String → String → List String
  pub ignore_not_found : Error → Option Error
  -- `meta.SetStatusCondition`, which reads the clock, and `field.ErrorList.ToAggregate`.
  pub set_status_condition : Trace → List Condition → Condition → List Condition
  pub to_aggregate : List FieldError → Option Error

-- The documentation of the packages, as far as theorems need it.
pub record IsDocumented (w : World) : Type 0 where
  -- A finalizer is there once it is added, and gone once it is removed.
  pub contains-add :
      (fs : List String) (f : String) → w.contains_finalizer (w.add_finalizer fs f) f ≡ true
  pub contains-remove :
      (fs : List String) (f : String) → w.contains_finalizer (w.remove_finalizer fs f) f ≡ false
  -- The condition of the given type has the given status, reason, message and generation.
  pub find-set :
      (t : Trace) (cs : List Condition) (c : Condition)
      → (found : Condition) × (find_condition c.type (w.set_status_condition t cs c) ≡ some found)
        × (found.status ≡ c.status)
        × (found.reason ≡ c.reason)
        × (found.message ≡ c.message)
        × (found.observed_generation ≡ c.observed_generation)
  -- NotFound errors become nil, wrapped or not, and any other error is returned as it is.
  pub ignore-IsNotFound : (e : Error) → IsNotFound e → w.ignore_not_found e ≡ none
  pub ignore-others : (e : Error) → ¬ IsNotFound e → w.ignore_not_found e ≡ some e
  -- An empty list has no aggregate, and any other list has one.
  pub aggregate-nil : w.to_aggregate [] ≡ none
  pub aggregate-cons : (e : FieldError) (es : List FieldError) → w.to_aggregate (e ∷ es) ≢ none
