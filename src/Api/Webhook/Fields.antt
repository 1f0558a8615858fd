-- ===== src/Api/Webhook/Fields.antt =====
-- The package `k8s.io/apimachinery/pkg/util/validation/field`: paths, errors and error lists. An
-- empty list aggregates to nil, and no other list does.
use ducks.Prelude.{String, ◌≡◌, ◌≢◌, List, [], ◌∷◌, Option, none}

pub record Field : Type 1 where
  pub FieldPath : Type 0
  pub FieldError : Type 0
  pub AggregateError : Type 0
  pub new_path : String → FieldPath
  pub child : FieldPath → List String → FieldPath
  -- `field.Required(path, detail)` and `field.Invalid(path, value, detail)`
  pub required : FieldPath → String → FieldError
  pub invalid : FieldPath → String → String → FieldError
  pub to_aggregate : List FieldError → Option AggregateError
  pub to_aggregate-nil : to_aggregate [] ≡ none
  pub to_aggregate-cons : (e : FieldError) (es : List FieldError) → to_aggregate (e ∷ es) ≢ none
