-- ===== src/Controller/Roles.antt =====
-- The cluster roles of `DuckClusterRoleChildSetReconciler` and
-- `DuckReconcilerClusterRoleChildSetReconciler`.
pub mod Selection
pub mod Names
use ducks.Prelude.{String, Bool, true, false, List, [], ◌∷◌, Option, none, some, ◌≡◌}
use ducks.Prelude.Text.{◌<>◌}
use ducks.Prelude.Exec.{Result, ok, err}
use ducks.Prelude.Assoc.{Assoc}
use ducks.Schema.{Schema, GroupKind, GroupResource, GroupVersionKind}
use ducks.Api.{Duck, DuckType}

-- `rbacv1.PolicyRule`
pub record PolicyRule : Type 0 where
  pub api_groups : List String
  pub resources : List String
  pub verbs : List String

-- What `metav1.NewControllerRef` makes of an owner.
pub record OwnerReference : Type 0 where
  pub gvk : GroupVersionKind
  pub name : String
  pub uid : String

-- `rbacv1.ClusterRole`; the aggregation rule is the list of its selectors' labels.
pub record ClusterRole : Type 0 where
  pub name : String
  pub labels : Assoc String
  pub owner_references : List OwnerReference
  pub rules : List PolicyRule
  pub aggregation_rule : Option (List (Assoc String))

abbrev pub type_label : String
type_label = "ducks.reconciler.io/type"

abbrev pub role_label : String
role_label = "ducks.reconciler.io/role"

-- The aggregated role of a duck type, for `role` one of `view` and `edit`.
unfoldable pub duck_type_role : {S : Type 0} → DuckType S → String → ClusterRole
duck_type_role resource role = record {
  name = "reconcilerio-ducks-" <> resource.metadata.name <> "-" <> role;
  labels = (type_label, resource.metadata.name) ∷ [];
  owner_references = [];
  rules = [];
  aggregation_rule = some (((type_label, resource.metadata.name) ∷ (role_label, role) ∷ []) ∷ []);
}

-- `DesiredChildren` of the duck type; its error is always nil.
unfoldable pub duck_type_roles : {S : Type 0} → DuckType S → List ClusterRole
unfolding duck_type_role
duck_type_roles resource = duck_type_role resource "view" ∷ duck_type_role resource "edit" ∷ []

abbrev pub view_verbs : List String
view_verbs = "get" ∷ "list" ∷ "watch" ∷ []

abbrev pub edit_verbs : List String
edit_verbs = "get" ∷ "list" ∷ "watch" ∷ "patch" ∷ []

-- `IdentifyChild`
unfoldable pub identify_child : ClusterRole → String
identify_child child = child.name

-- The calls that `DesiredChildren` of a duck makes: the client's `GroupVersionKindFor`, and the
-- resource that the REST mapping of a kind and version names.
pub record Mapper (S E : Type 0) : Type 0 where
  pub group_version_kind_for : Duck S → Result E GroupVersionKind
  pub rest_mapping : GroupKind → String → Result E GroupResource

module _ (s : Schema) {S : Type 0} where
  -- The role of a duck, for `role` one of `view` and `edit`.
  unfoldable pub duck_role : GroupVersionKind → String → Duck S → String → List String → ClusterRole
  duck_role gvk type resource role verbs = record {
    name = "reconcilerio-ducks-" <> type <> "-" <> resource.metadata.name <> "-" <> role;
    labels = (type_label, type) ∷ (role_label, role) ∷ [];
    owner_references =
        record { gvk = gvk; name = resource.metadata.name; uid = resource.metadata.uid } ∷ [];
    rules =
        record {
          api_groups = (s.parse_group_resource resource.metadata.name).group ∷ [];
          resources = (s.parse_group_resource resource.metadata.name).resource ∷ [];
          verbs = verbs;
        }
        ∷ [];
    aggregation_rule = none;
  }

module _ (s : Schema) {S E : Type 0} where
  abbrev pub roles_of :
      GroupVersionKind → Duck S → Result E GroupResource → Result E (List ClusterRole)
  roles_of gvk resource (err e) = err e
  roles_of gvk resource (ok mapping) =
      let type = s.group_resource_string mapping in
      ok (
        duck_role s gvk type resource "view" view_verbs
        ∷ duck_role s gvk type resource "edit" edit_verbs
        ∷ [])

  abbrev pub roles_for :
      Mapper S E → Duck S → Result E GroupVersionKind → Result E (List ClusterRole)
  roles_for m resource (err e) = err e
  roles_for m resource (ok gvk) =
      roles_of gvk resource (m.rest_mapping (s.group_kind gvk) gvk.version)

  -- `DesiredChildren` of a duck.
  unfoldable pub duck_roles : Mapper S E → Duck S → Result E (List ClusterRole)
  unfolding duck_role
  duck_roles m resource = roles_for m resource (m.group_version_kind_for resource)

-- `HarmonizeImmutableFields` returns the desired role.
unfoldable pub harmonize_role : ClusterRole → ClusterRole → ClusterRole
harmonize_role current desired = elim desired.aggregation_rule [
  | none ↦ desired
  | some selectors ↦ record desired { rules = current.rules }
]

-- `MergeBeforeUpdate` returns the current role.
unfoldable pub merge_role : ClusterRole → ClusterRole → ClusterRole
merge_role current desired = record current {
  labels = desired.labels;
  rules = desired.rules;
  aggregation_rule = desired.aggregation_rule;
}
