-- ===== src/Dies/DuckSpec.antt =====
-- The calls of `DuckSpecDie` that set fields.
use ducks.Prelude.{ℕ, String}
use ducks.Api.{DuckSpec}
use ducks.Dies.Types.{edit, duck_spec_dies}
use ducks.Dies.{Dies, die_stamp}

module _ (C : Type 0) where
  abbrev pub Calls : Type 0
  Calls = ℕ → Dies (duck_spec_dies {C = C}) → ℕ × Dies (duck_spec_dies {C = C})

  abbrev set : (DuckSpec → DuckSpec) → Calls
  set f p = die_stamp (duck_spec_dies {C = C}) p (edit duck_spec_dies f)

  unfoldable pub group : String → Calls
  group v = set λ r. record r { group = v }

  unfoldable pub version : String → Calls
  version v = set λ r. record r { version = v }

  unfoldable pub kind : String → Calls
  kind v = set λ r. record r { kind = v }
