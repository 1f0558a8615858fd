-- ===== src/Api/Webhook.antt =====
-- The defaulting and validating webhooks of `api/v1/duck_webhook.go` and
-- `api/v1/ducktype_webhook.go`. A handler that writes to its object returns the object.
pub mod Fields
pub mod Defaults
pub mod Accepts
use Prim.Native.Char.{Char}
use ducks.Prelude.{
  String, Bool, true, false, not, List, [], ◌∷◌, ◌++◌, Option, none, ◌==◌, if◌then◌else◌,
}
use ducks.Prelude.Text.{◌<>◌, has_suffix, to_lower}
use ducks.Api.{Duck, DuckSpec, DuckType, DuckTypeSpec}
use Fields.{Field}

-- What a validating webhook returns, with the object as the call leaves it.
pub record Admission (O E : Type 0) : Type 0 where
  pub object : O
  pub warnings : List String
  pub error : Option E

-- `DuckSpec.Default` sets nothing.
unfoldable pub duck_spec_default : DuckSpec → DuckSpec
duck_spec_default r = r

unfoldable pub duck_default : {S : Type 0} → Duck S → Duck S
unfolding duck_spec_default
duck_default obj = record obj { spec = duck_spec_default obj.spec }

module _ (lower : Char → Char) where
  -- `DuckTypeSpec.Default`; the error that it returns is always nil.
  unfoldable pub duck_type_spec_default : DuckTypeSpec → DuckTypeSpec
  duck_type_spec_default r = record r {
    singular = if r.singular == "" then to_lower lower r.kind else r.singular;
    list_kind = if r.list_kind == "" then r.kind <> "List" else r.list_kind;
  }

  unfoldable pub duck_type_default : {S : Type 0} → DuckType S → DuckType S
  unfolding duck_type_spec_default
  duck_type_default obj = record obj { spec = duck_type_spec_default obj.spec }

module _ (f : Field) where
  open f use {
    FieldPath, FieldError, AggregateError, new_path, child, required, invalid, to_aggregate,
  }

  -- `if value == "" { errs = append(errs, field.Required(path, "")) }`
  pub required_errors : FieldPath → String → List FieldError
  required_errors path value = if value == "" then required path "" ∷ [] else []

  unfoldable pub duck_spec_validate : DuckSpec → FieldPath → List FieldError
  unfolding required_errors
  duck_spec_validate r path =
      required_errors (child path ("group" ∷ [])) r.group
      ++ (required_errors (child path ("version" ∷ [])) r.version
          ++ required_errors (child path ("kind" ∷ [])) r.kind)

  unfoldable pub duck_validate : {S : Type 0} → Duck S → FieldPath → List FieldError
  unfolding duck_spec_validate
  duck_validate r path =
      duck_spec_validate r.spec (child path ("spec" ∷ []))
      ++ (if not (has_suffix r.metadata.name ("." <> r.spec.group))
          then invalid (child path ("spec" ∷ "group" ∷ [])) r.spec.group
              "resource name must end with group"
            ∷ []
          else [])

  unfoldable pub duck_validate_create : {S : Type 0} → Duck S → Admission (Duck S) AggregateError
  unfolding duck_validate duck_default
  duck_validate_create obj =
      let obj' = duck_default obj in
      record {
        object = obj';
        warnings = [];
        error = to_aggregate (duck_validate obj' (new_path ""));
      }

  unfoldable pub duck_validate_update :
      {S : Type 0} → Duck S → Duck S → Admission (Duck S) AggregateError
  unfolding duck_validate duck_default
  duck_validate_update old_obj new_obj =
      let obj' = duck_default new_obj in
      record {
        object = obj';
        warnings = [];
        error = to_aggregate (duck_validate obj' (new_path ""));
      }

  unfoldable pub duck_validate_delete : {S : Type 0} → Duck S → Admission (Duck S) AggregateError
  duck_validate_delete obj = record { object = obj; warnings = []; error = none }

module _ (f : Field) (lower : Char → Char) where
  open f use {
    FieldPath, FieldError, AggregateError, new_path, child, required, invalid, to_aggregate,
  }

  -- A name that must be there and must be all lowercase: the two branches that
  -- `DuckTypeSpec.Validate` has for each of `group`, `plural` and `singular`.
  pub lowercase_errors : FieldPath → String → List FieldError
  lowercase_errors path value =
      if value == ""
      then required path "" ∷ []
      else if not (to_lower lower value == value)
      then invalid path value "must be all lowercase" ∷ []
      else []

  unfoldable pub duck_type_spec_validate : DuckTypeSpec → FieldPath → List FieldError
  unfolding lowercase_errors required_errors
  duck_type_spec_validate r path =
      lowercase_errors (child path ("group" ∷ [])) r.group
      ++ (lowercase_errors (child path ("plural" ∷ [])) r.plural
          ++ (lowercase_errors (child path ("singular" ∷ [])) r.singular
              ++ (required_errors f (child path ("kind" ∷ [])) r.kind
                  ++ required_errors f (child path ("listKind" ∷ [])) r.list_kind)))

  unfoldable pub duck_type_validate : {S : Type 0} → DuckType S → FieldPath → List FieldError
  unfolding duck_type_spec_validate
  duck_type_validate r path =
      (if not (r.metadata.name == (r.spec.plural <> "." <> r.spec.group))
        then invalid (child path ("metadata" ∷ "name" ∷ [])) r.metadata.name
            "name must take the form `<plural>.<group>`"
          ∷ []
        else [])
      ++ duck_type_spec_validate r.spec (child path ("spec" ∷ []))

  unfoldable pub duck_type_validate_create :
      {S : Type 0} → DuckType S → Admission (DuckType S) AggregateError
  unfolding duck_type_validate duck_type_default
  duck_type_validate_create obj =
      let obj' = duck_type_default lower obj in
      record {
        object = obj';
        warnings = [];
        error = to_aggregate (duck_type_validate obj' (new_path ""));
      }

  unfoldable pub duck_type_validate_update :
      {S : Type 0} → DuckType S → DuckType S → Admission (DuckType S) AggregateError
  unfolding duck_type_validate duck_type_default
  duck_type_validate_update old_obj new_obj =
      let obj' = duck_type_default lower new_obj in
      record {
        object = obj';
        warnings = [];
        error = to_aggregate (duck_type_validate obj' (new_path ""));
      }

  unfoldable pub duck_type_validate_delete :
      {S : Type 0} → DuckType S → Admission (DuckType S) AggregateError
  duck_type_validate_delete obj = record { object = obj; warnings = []; error = none }
