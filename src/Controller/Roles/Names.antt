-- ===== src/Controller/Roles/Names.antt =====
-- The names by which the roles of one parent are told apart.
use Prim.Native.String.{count}
use ducks.Prelude.{String, List, ◌≡◌, ◌≢◌, ◌↔◌, ◌⊎◌, inl, inr, refl, sym, ◌∙◌, arith, eq_iff, ap}
use text.Mathlib.TextLemmas.{append_cancel_left, append_inj, length-append}
use ducks.Prelude.Text.{◌<>◌, <>-assoc}
use ducks.Schema.{Schema, GroupVersionKind}
use ducks.Api.{Duck, DuckType}
use ducks.Controller.Roles.{duck_type_role, duck_role, view_verbs, edit_verbs, identify_child}

view-ne-edit : ◌≢◌ {A = String} "view" "edit"
view-ne-edit e = ground (arith, eq_iff "view" "edit")

after_prefix :
    (name a b : String)
    → "reconcilerio-ducks-" <> name <> "-" <> a ≡ "reconcilerio-ducks-" <> name <> "-" <> b
    → a ≡ b
after_prefix name a b e = append_cancel_left "-" a b (
    append_cancel_left name ("-" <> a) ("-" <> b)
      (append_cancel_left "reconcilerio-ducks-" (name <> "-" <> a) (name <> "-" <> b) e))

after_type :
    (type name : String)
    → "reconcilerio-ducks-" <> type <> "-" <> name <> "-" <> "view"
      ≡ "reconcilerio-ducks-" <> type <> "-" <> name <> "-" <> "edit"
    → "reconcilerio-ducks-" <> name <> "-" <> "view"
      ≡ "reconcilerio-ducks-" <> name <> "-" <> "edit"
after_type type name e =
    ap (λ x. "reconcilerio-ducks-" <> x)
      (after_prefix type (name <> "-" <> "view") (name <> "-" <> "edit") e)

module _ (s : Schema) {S : Type 0} where
  -- The view role and the edit role of a duck type, and those of a duck, never have the same name,
  -- by which the child set reconciler tells the children of one parent apart.
  pub identify_child-ne :
      (t : DuckType S) (gvk : GroupVersionKind) (type : String) (d : Duck S)
      → (identify_child (duck_type_role t "view") ≢ identify_child (duck_type_role t "edit"))
        × (identify_child (duck_role s gvk type d "view" view_verbs)
            ≢ identify_child (duck_role s gvk type d "edit" edit_verbs))
  unfolding identify_child duck_type_role duck_role
  identify_child-ne t gvk type d = (
    (λ e. view-ne-edit (after_prefix t.metadata.name "view" "edit" e)),
    (λ e.
        view-ne-edit
          (after_prefix d.metadata.name "view" "edit" (after_type type d.metadata.name e))),
  )

-- The roles for which there are cluster roles.
abbrev pub IsRole : String → Type 0
IsRole role = (role ≡ "view") ⊎ (role ≡ "edit")

count-role : (role : String) → IsRole role → count role ≡ 4
count-role role (inl e) = rw e refl
count-role role (inr e) = rw e refl

-- Both roles have one length, so that names that end with them are the same in both parts.
same_ends :
    (x y role role' : String)
    → IsRole role
    → IsRole role'
    → x <> "-" <> role ≡ y <> "-" <> role'
    → (x ≡ y) × (role ≡ role')
same_ends x y role role' r r' e =
    let (same, ends) = append_inj e (
      omega (
        arith,
        ap count e,
        length-append x ("-" <> role),
        length-append y ("-" <> role'),
        length-append "-" role,
        length-append "-" role',
        count-role role r,
        count-role role' r',
      )) in
    (same, append_cancel_left "-" role role' ends)

-- What is between the prefix and the role of a cluster role's name.
abbrev middle : String → String → String
middle type name = type <> "-" <> name

split_name :
    (type name role : String)
    → "reconcilerio-ducks-" <> type <> "-" <> name <> "-" <> role
      ≡ "reconcilerio-ducks-" <> (middle type name <> "-" <> role)
split_name type name role =
    ap (λ x. "reconcilerio-ducks-" <> x)
      (ap (λ x. type <> x) (sym (<>-assoc "-" name ("-" <> role)))
        ∙ sym (<>-assoc type ("-" <> name) ("-" <> role)))

named_iff :
    (x y role role' : String)
    → IsRole role
    → IsRole role'
    → ("reconcilerio-ducks-" <> x <> "-" <> role ≡ "reconcilerio-ducks-" <> y <> "-" <> role')
      ↔ ((x ≡ y) × (role ≡ role'))
named_iff x y role role' r r' = (
  (λ e.
      same_ends x y role role' r r'
        (append_cancel_left "reconcilerio-ducks-" (x <> "-" <> role) (y <> "-" <> role') e)),
  λ h. cc (h.0, h.1),
)

module _ (s : Schema) {S : Type 0} where
  -- For the roles `view` and `edit`: the cluster roles of two ducks have the same name exactly if they
  -- are of one role and the names of type and duck, joined by a dash, are the same, which they may be
  -- for different types and ducks; and the aggregated role of a duck type has the name of a duck's role
  -- exactly if they are of one role and the duck type is named like that.
  pub duck_role-same_name :
      (gvk gvk' : GroupVersionKind) (type type' : String) (d d' : Duck S) (t : DuckType S)
      (role role' : String) (verbs verbs' : List String)
      → IsRole role
      → IsRole role'
      → ((identify_child (duck_role s gvk type d role verbs)
            ≡ identify_child (duck_role s gvk' type' d' role' verbs'))
          ↔ ((type <> "-" <> d.metadata.name ≡ type' <> "-" <> d'.metadata.name) × (role ≡ role')))
        × ((identify_child (duck_type_role t role)
              ≡ identify_child (duck_role s gvk' type' d' role' verbs'))
            ↔ ((t.metadata.name ≡ type' <> "-" <> d'.metadata.name) × (role ≡ role')))
  unfolding identify_child duck_type_role duck_role
  duck_role-same_name gvk gvk' type type' d d' t role role' verbs verbs' r r' =
      let name = d.metadata.name in
      let name' = d'.metadata.name in
      (
        rw (split_name type name role, split_name type' name' role')
            (named_iff (middle type name) (middle type' name') role role' r r'),
        rw (split_name type' name' role')
            (named_iff t.metadata.name (middle type' name') role role' r r'),
      )
