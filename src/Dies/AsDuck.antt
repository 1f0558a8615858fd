-- ===== src/Dies/AsDuck.antt =====
-- `AsDuck` of `ducktype_dies.go`: the duck that stands for a resource of a duck type.
pub mod Reads
use ducks.Prelude.{ℕ, String}
use ducks.Schema.{Schema}
use ducks.Api.{DuckTypeSpec}
use ducks.Copies.{Resource}
use ducks.Dies.Types.{MetaDies, duck_type_dies}
use ducks.Dies.Duck.{DuckDies, api_version, kind, metadata_die}
use ducks.Dies.DuckType.{DuckTypeDies}
use ducks.Dies.{die_release}

module _ {C : Type 0} (meta state : Resource C) (metas : MetaDies meta) (s : Schema) where
  abbrev pub Ducks : Type 0
  Ducks = DuckDies meta state metas

  abbrev pub and_kind : String → ℕ × Ducks → ℕ × Ducks
  and_kind v (p, st) = kind meta state metas v p st

  abbrev pub and_metadata : metas.ObjectFn → ℕ × Ducks → ℕ × Ducks
  and_metadata fn (p, st) = metadata_die meta state metas fn p st

  -- The duck that is built of the spec of a duck type, from the blank duck at `blank`.
  abbrev pub duck_of : ℕ → String → DuckTypeSpec → Ducks → ℕ × Ducks
  duck_of blank name spec st = and_metadata (metas.name name) (
      and_kind spec.kind (
        api_version meta state metas
          (s.group_version_string (record { group = spec.group; version = "v1" })) blank st))

  -- The ducks and the duck types share the memory.
  unfoldable pub as_duck :
      ℕ
      → ℕ
      → String
      → DuckTypeDies meta state metas
      → Ducks
      → (ℕ × Ducks) × DuckTypeDies meta state metas
  as_duck blank p name st others =
      let (r, st₁) = die_release (duck_type_dies meta state metas) p st in
      (duck_of blank name r.spec (record others { memory = st₁.memory }), st₁)
