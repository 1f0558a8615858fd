-- ===== src/Controller/Roles/Selection.antt =====
-- Which roles the aggregated roles of a duck type collect, and what an update leaves of a role.
use ducks.Prelude.{
  String, ◌≡◌, Bool, true, false, ◌&&◌, List, [], ◌∷◌, none, some, ◌==◌, arith, if◌then◌else◌,
}
use ducks.Prelude.Assoc.{Assoc, lookup}
use ducks.Schema.{Schema, GroupVersionKind}
use ducks.Api.{Duck, DuckType}
use ducks.Controller.Roles.{ClusterRole, duck_type_role, duck_role, harmonize_role, merge_role}

-- Kubernetes adds the rules of every role whose labels match a selector of an aggregated role.
abbrev has_label : Assoc String → String → String → Bool
has_label labels k v = elim (lookup k labels) [ none ↦ false | some v' ↦ v' == v ]

abbrev matches : Assoc String → Assoc String → Bool
matches [] labels = true
matches ((k, v) ∷ selector) labels = has_label labels k v && matches selector labels

abbrev any_matches : List (Assoc String) → Assoc String → Bool
any_matches [] labels = false
any_matches (selector ∷ selectors) labels =
    if matches selector labels then true else any_matches selectors labels

abbrev pub collects : ClusterRole → ClusterRole → Bool
collects aggregated role = elim aggregated.aggregation_rule [
  | none ↦ false
  | some selectors ↦ any_matches selectors role.labels
]

module _ (s : Schema) {S : Type 0} where
  -- The aggregated role of a duck type for `role` collects a duck's role for `role'` exactly if the
  -- duck's type is the name of the duck type and the two roles are the same. It collects no
  -- aggregated role, so that none collects itself.
  pub collects-duck_role :
      (t t' : DuckType S) (role : String) (gvk : GroupVersionKind) (type : String) (d : Duck S)
      (role' : String) (verbs : List String)
      → (collects (duck_type_role t role) (duck_role s gvk type d role' verbs)
          ≡ (type == t.metadata.name && role' == role))
        × (collects (duck_type_role t role) (duck_type_role t' role') ≡ false)
  unfolding duck_type_role duck_role lookup
  collects-duck_role t t' role gvk type d role' verbs = (ground arith, ground arith)

-- An update takes labels and aggregation rule from the desired role and keeps the name. It keeps
-- the rules of an aggregated role, which Kubernetes fills in, and replaces those of any other.
pub merge-harmonize :
    (current desired : ClusterRole)
    → let merged = merge_role current (harmonize_role current desired) in
      (merged.name ≡ current.name)
      × (merged.labels ≡ desired.labels)
      × (merged.aggregation_rule ≡ desired.aggregation_rule)
      × (merged.rules
          ≡ elim desired.aggregation_rule [ none ↦ desired.rules | some selectors ↦ current.rules ])
unfolding merge_role harmonize_role
merge-harmonize current desired = ground arith
