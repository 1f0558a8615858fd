-- ===== src/Dies/DuckTypeSpec.antt =====
-- The calls of `DuckTypeSpecDie` that set fields.
use ducks.Prelude.{ℕ, String}
use ducks.Api.{DuckTypeSpec}
use ducks.Dies.Types.{edit, duck_type_spec_dies}
use ducks.Dies.{Dies, die_stamp}

module _ (C : Type 0) where
  abbrev pub Calls : Type 0
  Calls = ℕ → Dies (duck_type_spec_dies {C = C}) → ℕ × Dies (duck_type_spec_dies {C = C})

  abbrev set : (DuckTypeSpec → DuckTypeSpec) → Calls
  set f p = die_stamp (duck_type_spec_dies {C = C}) p (edit duck_type_spec_dies f)

  unfoldable pub group : String → Calls
  group v = set λ r. record r { group = v }

  unfoldable pub plural : String → Calls
  plural v = set λ r. record r { plural = v }

  unfoldable pub singular : String → Calls
  singular v = set λ r. record r { singular = v }

  unfoldable pub kind : String → Calls
  kind v = set λ r. record r { kind = v }

  unfoldable pub list_kind : String → Calls
  list_kind v = set λ r. record r { list_kind = v }
