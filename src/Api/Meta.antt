-- ===== src/Api/Meta.antt =====
-- The Kubernetes types under the custom resources (metav1, corev1, types.NamespacedName), with the
-- fields that the operator reads or writes.
use schema_strimzi_operator.Prelude.{
  ℕ, ℤ, String, Bool, true, Option, none, some, List, [], ◌∷◌, ◌==◌, nat_eq, string_eq,
  if◌then◌else◌,
}

-- A point in time; zero stands for Go's zero time.
abbrev pub Timestamp : Type 0
Timestamp = ℕ

pub record ObjectKey : Type 0 where
  pub name : String
  pub namespace : String

pub record ObjectMeta : Type 0 where
  pub name : String
  pub namespace : String
  pub generation : ℤ
  pub resource_version : String
  pub deletion_timestamp : Option Timestamp
  pub finalizers : List String

pub record Condition : Type 0 where
  pub type : String
  pub status : String
  pub reason : String
  pub message : String
  pub observed_generation : ℤ
  pub last_transition_time : Timestamp

abbrev pub condition_true : String
condition_true = "True"

abbrev pub condition_false : String
condition_false = "False"

-- The condition of a type in a status, as its readers look it up (a list keyed by the type).
unfoldable pub find_condition : String → List Condition → Option Condition
find_condition type [] = none
find_condition type (c ∷ cs) = if c.type == type then some c else find_condition type cs

-- `Secret.Data`.
pub record Secret : Type 0 where
  pub name : String
  pub namespace : String
  pub entries : List (String × String)

-- `secret.Data[key]`: a key that is missing gives no bytes.
unfoldable pub entry : String → List (String × String) → String
entry key [] = ""
entry key ((k, v) ∷ rest) = if k == key then v else entry key rest

-- `DeletionTimestamp.IsZero()`: of no timestamp, and of the zero time.
unfoldable pub is_zero : Option Timestamp → Bool
is_zero none = true
is_zero (some t) = t == 0
