-- ===== src/Dies/Duck.antt =====
-- The calls of `DuckDie` that set fields.
use ducks.Prelude.{ℕ, String}
use ducks.Schema.{TypeMeta}
use ducks.Api.{DuckSpec}
use ducks.Copies.{Resource, StoredDuck}
use ducks.Dies.Types.{edit, MetaDies, duck_dies, duck_spec_dies, status_dies, stamp_through}
use ducks.Dies.{Dies, Fn, die_stamp}

module _ {C : Type 0} (meta state : Resource C) (metas : MetaDies meta) where
  abbrev pub DuckDies : Type 0
  DuckDies = Dies (duck_dies meta state metas)

  abbrev pub StatusDies : Type 0
  StatusDies = Dies (status_dies meta state metas)

  abbrev pub SpecDies : Type 0
  SpecDies = Dies (duck_spec_dies {C = C})

  abbrev pub Calls : Type 0
  Calls = ℕ → DuckDies → ℕ × DuckDies

  abbrev pub set : (StoredDuck meta.Value state.Value → StoredDuck meta.Value state.Value) → Calls
  set f p = die_stamp (duck_dies meta state metas) p (edit (duck_dies meta state metas) f)

  unfoldable pub api_version : String → Calls
  api_version v = set λ r. record r { type_meta = record r.type_meta { api_version = v } }

  unfoldable pub kind : String → Calls
  kind v = set λ r. record r { type_meta = record r.type_meta { kind = v } }

  unfoldable pub type_metadata : TypeMeta → Calls
  type_metadata v = set λ r. record r { type_meta = v }

  unfoldable pub type_metadata_die : metas.TypeFn → Calls
  type_metadata_die fn = set λ r. record r { type_meta = metas.type_meta_die fn r.type_meta }

  unfoldable pub metadata : meta.Value → Calls
  metadata v = set λ r. record r { object_meta = v }

  abbrev pub metadata_fn : metas.ObjectFn → Fn (duck_dies meta state metas)
  metadata_fn fn r m =
      let (v, m') = metas.object_meta_die fn r.object_meta m in (record r { object_meta = v }, m')

  unfoldable pub metadata_die : metas.ObjectFn → Calls
  metadata_die fn p = die_stamp (duck_dies meta state metas) p (metadata_fn fn)

  -- The last argument is the dies of the spec, of which `blank` is the blank one.
  unfoldable pub spec_die :
      ℕ → (ℕ → SpecDies → SpecDies) → ℕ → DuckDies → SpecDies → (ℕ × DuckDies) × SpecDies
  spec_die blank fn p =
      stamp_through (duck_dies meta state metas) duck_spec_dies (λ r. r.spec)
        (λ v r. record r { spec = v }) blank p fn

  unfoldable pub status_die :
      ℕ → (ℕ → StatusDies → StatusDies) → ℕ → DuckDies → StatusDies → (ℕ × DuckDies) × StatusDies
  status_die blank fn p =
      stamp_through (duck_dies meta state metas) (status_dies meta state metas) (λ r. r.status)
        (λ v r. record r { status = v }) blank p fn

  unfoldable pub spec : DuckSpec → Calls
  spec v = set λ r. record r { spec = v }

  unfoldable pub status : state.Value → Calls
  status v = set λ r. record r { status = v }
