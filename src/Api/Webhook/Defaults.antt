-- ===== src/Api/Webhook/Defaults.antt =====
-- What `DuckType.Default` fills in, and which duck types the webhook accepts after it.
use Prim.Native.Char.{Char}
use ducks.Prelude.{
  String, ◌≡◌, ◌≢◌, ◌↔◌, ◌⊎◌, arith, eq_iff, ap, [], ◌∷◌, append-eq-nil_iff, ↔-trans, none,
}
use ducks.Prelude.Text.{◌<>◌, to_lower, to_lower_idem, to_lower-ne-nil, <>-ne-nil}
use text.Mathlib.TextLemmas.{cons≢nil}
use ducks.Api.{DuckType, DuckTypeSpec}
use ducks.Api.Webhook.Fields.{Field}
use ducks.Api.Webhook.Accepts.{to_aggregate_iff, required_errors_iff, invalid_unless_iff}
use ducks.Api.Webhook.{
  lowercase_errors, duck_type_spec_default, duck_type_default, duck_type_spec_validate,
  duck_type_validate, duck_type_validate_create, duck_type_validate_update,
}

module _ (lower : Char → Char) where
  -- A name that is there and all lowercase.
  pub record IsLowercase (value : String) : Type 0 where
    pub given : value ≢ ""
    pub lowered : to_lower lower value ≡ value

  -- A spec that a `DuckType` may have once it is defaulted.
  pub record IsDuckTypeSpec (r : DuckTypeSpec) : Type 0 where
    pub group : IsLowercase r.group
    pub plural : IsLowercase r.plural
    pub singular : IsLowercase r.singular
    pub kind : r.kind ≢ ""
    pub list_kind : r.list_kind ≢ ""

  -- A `DuckType` as a user may write it: the singular name is given in lowercase or left out.
  pub record IsDuckType {S : Type 0} (r : DuckType S) : Type 0 where
    pub name : r.metadata.name ≡ r.spec.plural <> "." <> r.spec.group
    pub group : IsLowercase r.spec.group
    pub plural : IsLowercase r.spec.plural
    pub singular : (r.spec.singular ≡ "") ⊎ (to_lower lower r.spec.singular ≡ r.spec.singular)
    pub kind : r.spec.kind ≢ ""

module _ (lower : Char → Char) where
  -- Defaulting a spec twice is defaulting it once.
  spec_default_idem :
      (r : DuckTypeSpec)
      → duck_type_spec_default lower (duck_type_spec_default lower r)
        ≡ duck_type_spec_default lower r
  unfolding duck_type_spec_default
  spec_default_idem r = ground (
    arith,
    eq_iff r.singular "",
    eq_iff r.list_kind "",
    eq_iff (to_lower lower r.kind) "",
    eq_iff (r.kind <> "List") "",
  )

  list_kind_given : (r : DuckTypeSpec) → (duck_type_spec_default lower r).list_kind ≢ ""
  unfolding duck_type_spec_default
  list_kind_given r = ground (arith, eq_iff r.list_kind "", <>-ne-nil r.kind "List" cons≢nil)

  singular_default :
      ((c : Char) → lower (lower c) ≡ lower c)
      → (r : DuckTypeSpec) → r.kind ≢ ""
      → IsLowercase lower (duck_type_spec_default lower r).singular
        ↔ ((r.singular ≡ "") ⊎ (to_lower lower r.singular ≡ r.singular))
  unfolding duck_type_spec_default
  singular_default idem r kind = ground (
    arith,
    eq_iff r.singular "",
    to_lower_idem lower idem r.kind,
    to_lower-ne-nil lower r.kind kind,
  )

  module _ (f : Field) where
    lowercase_errors_iff :
        (path : f.FieldPath) (value : String)
        → (lowercase_errors f lower path value ≡ []) ↔ IsLowercase lower value
    unfolding lowercase_errors
    lowercase_errors_iff path value =
        ground (arith, eq_iff value "", eq_iff (to_lower lower value) value)

    duck_type_spec_validate_iff :
        (r : DuckTypeSpec) (path : f.FieldPath)
        → (duck_type_spec_validate f lower r path ≡ []) ↔ IsDuckTypeSpec lower r
    unfolding duck_type_spec_validate
    duck_type_spec_validate_iff r path =
        let parts =
          append-eq-nil_iff _ _ (lowercase_errors_iff (f.child path ("group" ∷ [])) r.group) (
            append-eq-nil_iff _ _ (lowercase_errors_iff (f.child path ("plural" ∷ [])) r.plural) (
              append-eq-nil_iff _ _
                (lowercase_errors_iff (f.child path ("singular" ∷ [])) r.singular)
                (append-eq-nil_iff _ _ (required_errors_iff f (f.child path ("kind" ∷ [])) r.kind)
                  (required_errors_iff f (f.child path ("listKind" ∷ [])) r.list_kind)))) in
        (
          (λ e.
              let (g, (p, (s, (k, l)))) = parts.0 e in
              record { group = g; plural = p; singular = s; kind = k; list_kind = l }),
          λ h. parts.1 (h.group, (h.plural, (h.singular, (h.kind, h.list_kind)))),
        )

    duck_type_validate_iff :
        {S : Type 0} (r : DuckType S) (path : f.FieldPath)
        → (duck_type_validate f lower r path ≡ [])
          ↔ ((r.metadata.name ≡ r.spec.plural <> "." <> r.spec.group) × IsDuckTypeSpec lower r.spec)
    unfolding duck_type_validate
    duck_type_validate_iff r path =
        append-eq-nil_iff _ _ (↔-trans (invalid_unless_iff f _ _) (eq_iff _ _))
          (duck_type_spec_validate_iff r.spec (f.child path ("spec" ∷ [])))

    -- With `unicode.ToLower` idempotent, creation of a duck type is accepted exactly if its name
    -- is `<plural>.<group>`, its group and plural name are given in lowercase, its kind is given,
    -- and its singular name is left out or in lowercase. The list kind may be anything.
    pub duck_type_validate_create-accepts :
        ((c : Char) → lower (lower c) ≡ lower c)
        → {S : Type 0} (r : DuckType S)
        → ((duck_type_validate_create f lower r).error ≡ none) ↔ IsDuckType lower r
    unfolding duck_type_validate_create
    duck_type_validate_create-accepts idem r = ↔-trans (to_aggregate_iff f _) (
        ↔-trans (duck_type_validate_iff (duck_type_default lower r) (f.new_path "")) (
          (λ h. record {
            name = h.0;
            group = h.1.group;
            plural = h.1.plural;
            singular = (singular_default idem r.spec h.1.kind).0 h.1.singular;
            kind = h.1.kind;
          }),
          λ h. (
            h.name,
            record {
              group = h.group;
              plural = h.plural;
              singular = (singular_default idem r.spec h.kind).1 h.singular;
              kind = h.kind;
              list_kind = list_kind_given r.spec;
            },
          ),
        ))

    -- The object that `ValidateCreate` leaves is a fixed point: `ValidateUpdate` of it leaves the
    -- same object with the verdict that creation gave, whatever the old object.
    pub duck_type_validate_update-create :
        {S : Type 0} (old r : DuckType S)
        → let checked = (duck_type_validate_create f lower r).object in
          ((duck_type_validate_update f lower old checked).object ≡ checked)
          × ((duck_type_validate_update f lower old checked).error
              ≡ (duck_type_validate_create f lower r).error)
    unfolding duck_type_validate_create duck_type_validate_update
    duck_type_validate_update-create old r =
        let again = ap (λ d. record r { spec = d }) (spec_default_idem r.spec) in
        (again, ap (λ o. f.to_aggregate (duck_type_validate f lower o (f.new_path ""))) again)
