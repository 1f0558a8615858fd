-- ===== src/Api/Webhook/Accepts.antt =====
-- Which objects the validating webhooks accept, stated without the error lists.
use ducks.Prelude.{
  String, ◌≡◌, ◌≢◌, ◌↔◌, refl, arith, eq_iff, if◌then◌else◌, List, [], ◌∷◌, append-eq-nil_iff,
  ↔-trans, Bool, none, true, false, not,
}
use ducks.Prelude.Text.{◌<>◌, has_suffix, has_suffix-append, has_suffix-split}
use ducks.Api.{Duck, DuckSpec}
use ducks.Api.Webhook.Fields.{Field}
use ducks.Api.Webhook.{
  required_errors, duck_spec_default, duck_default, duck_spec_validate, duck_validate,
  duck_validate_create,
}

-- A spec that a `Duck` may have.
pub record IsDuckSpec (r : DuckSpec) : Type 0 where
  pub group : r.group ≢ ""
  pub version : r.version ≢ ""
  pub kind : r.kind ≢ ""

-- A duck whose name ends with its group.
pub record IsDuck {S : Type 0} (r : Duck S) : Type 0 where
  pub spec : IsDuckSpec r.spec
  pub name : (resource : String) × (r.metadata.name ≡ resource <> "." <> r.spec.group)

module _ (f : Field) where
  pub to_aggregate_iff : (es : List f.FieldError) → (f.to_aggregate es ≡ none) ↔ (es ≡ [])
  to_aggregate_iff [] = ((λ _. refl), λ _. f.to_aggregate-nil)
  to_aggregate_iff (e ∷ es) = ((λ h. absurd (f.to_aggregate-cons e es h)), λ h. cc)

  pub required_errors_iff :
      (path : f.FieldPath) (value : String) → (required_errors f path value ≡ []) ↔ (value ≢ "")
  unfolding required_errors
  required_errors_iff path value = ground (arith, eq_iff value "")

  pub duck_spec_validate_iff :
      (r : DuckSpec) (path : f.FieldPath) → (duck_spec_validate f r path ≡ []) ↔ IsDuckSpec r
  unfolding duck_spec_validate
  duck_spec_validate_iff r path =
      let parts =
        append-eq-nil_iff _ _ (required_errors_iff (f.child path ("group" ∷ [])) r.group) (
          append-eq-nil_iff _ _ (required_errors_iff (f.child path ("version" ∷ [])) r.version)
            (required_errors_iff (f.child path ("kind" ∷ [])) r.kind)) in
      (
        (λ e. let (g, (v, k)) = parts.0 e in record { group = g; version = v; kind = k }),
        λ h. parts.1 (h.group, (h.version, h.kind)),
      )

  pub invalid_unless_iff :
      (b : Bool) (e : f.FieldError) → ((if not b then e ∷ [] else []) ≡ []) ↔ (b ≡ true)
  invalid_unless_iff true e = ((λ _. refl), λ _. refl)
  invalid_unless_iff false e = ((λ h. cc), λ h. cc)

  suffix_iff :
      (name suffix : String)
      → (has_suffix name suffix ≡ true) ↔ ((rest : String) × (name ≡ rest <> suffix))
  suffix_iff name suffix =
      (has_suffix-split name suffix, (λ h. rw h.1 (has_suffix-append h.0 suffix)))

  -- The errors of a duck's spec and its name are none exactly for a good duck.
  pub duck_validate_iff :
      {S : Type 0} (r : Duck S) (path : f.FieldPath) → (duck_validate f r path ≡ []) ↔ IsDuck r
  unfolding duck_validate
  duck_validate_iff r path =
      let parts =
        append-eq-nil_iff _ _ (duck_spec_validate_iff r.spec (f.child path ("spec" ∷ [])))
          (↔-trans (invalid_unless_iff _ _) (suffix_iff r.metadata.name ("." <> r.spec.group))) in
      (
        (λ e. let (s, n) = parts.0 e in record { spec = s; name = n }),
        λ h. parts.1 (h.spec, h.name),
      )

  -- A duck is accepted on creation exactly if its group, version and kind are given and its name
  -- ends with a dot and its group; the check leaves the object as it was sent.
  pub duck_validate_create-accepts :
      {S : Type 0} (r : Duck S)
      → ((duck_validate_create f r).error ≡ none ↔ IsDuck r)
        × ((duck_validate_create f r).object ≡ r)
  unfolding duck_validate_create duck_default duck_spec_default
  duck_validate_create-accepts r =
      (↔-trans (to_aggregate_iff _) (duck_validate_iff r (f.new_path "")), refl)
