-- ===== src/Api.antt =====
-- The API types of `api/v1`: `Duck` and `DuckType`, their specs and lists, the condition sets and
-- the helper methods of `duck_lifecycle.go` and `ducktype_lifecycle.go`. Of `metav1.ObjectMeta`
-- the records hold the fields that the program reads. The status is the parameter `S`.
pub mod Webhook
use ducks.Prelude.{String, ◌≡◌, List, [], ◌∷◌, Bool, Option, ℕ}
use ducks.Schema.{Schema, GroupVersion, GroupVersionKind, GroupVersionResource, TypeMeta}
use ducks.Conditions.{Conditions}

-- The parts of `metav1.ObjectMeta` that the program reads.
pub record ObjectMeta : Type 0 where
  pub name : String
  pub uid : String
  pub deletion_timestamp : Option ℕ
  pub finalizers : List String

pub record DuckSpec : Type 0 where
  pub group : String
  pub version : String
  pub kind : String

pub record Duck (S : Type 0) : Type 0 where
  pub type_meta : TypeMeta
  pub metadata : ObjectMeta
  pub spec : DuckSpec
  pub status : S

pub record DuckList (S : Type 0) : Type 0 where
  pub type_meta : TypeMeta
  pub items : List (Duck S)

pub record DuckTypeSpec : Type 0 where
  pub group : String
  pub plural : String
  pub singular : String
  pub kind : String
  pub list_kind : String

pub record DuckType (S : Type 0) : Type 0 where
  pub type_meta : TypeMeta
  pub metadata : ObjectMeta
  pub spec : DuckTypeSpec
  pub status : S

-- `apis.ConditionReady` is the type `Ready`.
abbrev pub condition_ready : String
condition_ready = "Ready"

abbrev pub duck_condition_rbac : String
duck_condition_rbac = "RBAC"

abbrev pub duck_condition_available : String
duck_condition_available = "Available"

abbrev pub duck_type_condition_rbac : String
duck_type_condition_rbac = "RBAC"

abbrev pub duck_type_condition_established : String
duck_type_condition_established = "CustomResourceDefinitionEstablished"

abbrev pub duck_conditions : List String
duck_conditions = duck_condition_rbac ∷ duck_condition_available ∷ []

abbrev pub duck_type_conditions : List String
duck_type_conditions = duck_type_condition_rbac ∷ duck_type_condition_established ∷ []

module _ (c : Conditions) where
  -- `DuckStatus.GetConditionSet`.
  abbrev pub duck_condition_set : c.ConditionSet
  duck_condition_set = c.living_set condition_ready duck_conditions

  -- `DuckTypeStatus.GetConditionSet`.
  abbrev pub duck_type_condition_set : c.ConditionSet
  duck_type_condition_set = c.living_set condition_ready duck_type_conditions

  -- `GetConditionManager` of the status, as the functions of its condition set.
  unfoldable pub duck_get_condition : String → Duck c.Status → Option c.Condition
  duck_get_condition type r = c.get_condition duck_condition_set type r.status

  unfoldable pub duck_type_get_condition : String → DuckType c.Status → Option c.Condition
  duck_type_get_condition type r = c.get_condition duck_type_condition_set type r.status

  unfoldable pub duck_initialize_conditions : Duck c.Status → Duck c.Status
  duck_initialize_conditions r = record r { status = c.initialize duck_condition_set r.status }

  unfoldable pub duck_type_initialize_conditions : DuckType c.Status → DuckType c.Status
  duck_type_initialize_conditions r = record r {
    status = c.initialize duck_type_condition_set r.status;
  }

module _ (s : Schema) {S : Type 0} where
  -- `Duck.GroupVersionResource`.
  unfoldable pub group_version_resource : Duck S → GroupVersionResource
  group_version_resource r = s.with_version (s.parse_group_resource r.metadata.name) r.spec.version

-- `DuckSpec.GroupVersionKind`.
unfoldable pub group_version_kind : DuckSpec → GroupVersionKind
group_version_kind r = record { group = r.group; version = r.version; kind = r.kind }

-- `DuckSpec.TypeMeta`.
pub type_meta_of : Schema → DuckSpec → TypeMeta
type_meta_of s r = record {
  api_version = s.group_version_string (record { group = r.group; version = r.version });
  kind = r.kind;
}
