-- ===== src/Dies/DuckType.antt =====
-- The calls of `DuckTypeDie` that set fields.
use ducks.Prelude.{ℕ, String}
use ducks.Schema.{TypeMeta}
use ducks.Api.{DuckTypeSpec}
use ducks.Copies.{Resource, StoredDuckType}
use ducks.Dies.Types.{
  edit, MetaDies, duck_type_dies, duck_type_spec_dies, status_dies, stamp_through,
}
use ducks.Dies.{Dies, Fn, die_stamp}

module _ {C : Type 0} (meta state : Resource C) (metas : MetaDies meta) where
  abbrev pub DuckTypeDies : Type 0
  DuckTypeDies = Dies (duck_type_dies meta state metas)

  abbrev pub StatusDies : Type 0
  StatusDies = Dies (status_dies meta state metas)

  abbrev pub SpecDies : Type 0
  SpecDies = Dies (duck_type_spec_dies {C = C})

  abbrev pub Calls : Type 0
  Calls = ℕ → DuckTypeDies → ℕ × DuckTypeDies

  abbrev pub set :
      (StoredDuckType meta.Value state.Value → StoredDuckType meta.Value state.Value) → Calls
  set f p = die_stamp (duck_type_dies meta state metas) p (edit (duck_type_dies meta state metas) f)

  unfoldable pub die_default_type_metadata : Calls
  die_default_type_metadata = set λ r. record r {
    type_meta = record { api_version = "duck.reconciler.io/v1"; kind = "DuckType" };
  }

  unfoldable pub api_version : String → Calls
  api_version v = set λ r. record r { type_meta = record r.type_meta { api_version = v } }

  unfoldable pub kind : String → Calls
  kind v = set λ r. record r { type_meta = record r.type_meta { kind = v } }

  unfoldable pub type_metadata : TypeMeta → Calls
  type_metadata v = set λ r. record r { type_meta = v }

  unfoldable pub type_metadata_die : metas.TypeFn → Calls
  type_metadata_die fn = set λ r. record r { type_meta = metas.type_meta_die fn r.type_meta }

  unfoldable pub metadata : meta.Value → Calls
  metadata v = set λ r. record r { object_meta = v }

  abbrev pub metadata_fn : metas.ObjectFn → Fn (duck_type_dies meta state metas)
  metadata_fn fn r m =
      let (v, m') = metas.object_meta_die fn r.object_meta m in (record r { object_meta = v }, m')

  unfoldable pub metadata_die : metas.ObjectFn → Calls
  metadata_die fn p = die_stamp (duck_type_dies meta state metas) p (metadata_fn fn)

  -- The last argument is the dies of the spec, of which `blank` is the blank one.
  unfoldable pub spec_die :
      ℕ → (ℕ → SpecDies → SpecDies) → ℕ → DuckTypeDies → SpecDies → (ℕ × DuckTypeDies) × SpecDies
  spec_die blank fn p =
      stamp_through (duck_type_dies meta state metas) duck_type_spec_dies (λ r. r.spec)
        (λ v r. record r { spec = v }) blank p fn

  unfoldable pub status_die :
      ℕ
      → (ℕ → StatusDies → StatusDies)
      → ℕ
      → DuckTypeDies
      → StatusDies
      → (ℕ × DuckTypeDies) × StatusDies
  status_die blank fn p =
      stamp_through (duck_type_dies meta state metas) (status_dies meta state metas) (λ r. r.status)
        (λ v r. record r { status = v }) blank p fn

  unfoldable pub spec : DuckTypeSpec → Calls
  spec v = set λ r. record r { spec = v }

  unfoldable pub status : state.Value → Calls
  status v = set λ r. record r { status = v }
