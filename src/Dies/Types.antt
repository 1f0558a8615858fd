-- ===== src/Dies/Types.antt =====
-- The dies of `DuckSpec`, `DuckTypeSpec`, `Duck` and `DuckType` in `api/v1/zz_generated.die.go`: their
-- kinds. A call of another die, as `SpecDie`, hands its callback a mutable die in the state of the
-- dies of that type, which shares the memory.
use ducks.Prelude.{ℕ, String, false}
use ducks.Schema.{TypeMeta}
use ducks.Copies.{Memory, Resource}
use ducks.Copies.Parts.{plain}
use ducks.Copies.Ducks.{
  duck_resource, duck_type_resource, condition_duck_resource, blank_spec, blank_type_spec,
}
use ducks.Dies.{DieKind, Dies, Fn, die_immutable, die_feed, die_release, die_stamp, feed_result}

-- A function that sets fields, as it is given to `DieStamp`.
abbrev pub edit : {C : Type 0} (k : DieKind C) → (k.resource.Value → k.resource.Value) → Fn k
edit k f r m = (f r, m)

module _ {C : Type 0} where
  abbrev pub duck_spec_dies : DieKind C
  duck_spec_dies = record { resource = plain blank_spec; Frozen = Unit; freeze = λ r. record {} }

  abbrev pub duck_type_spec_dies : DieKind C
  duck_type_spec_dies = record {
    resource = plain blank_type_spec;
    Frozen = Unit;
    freeze = λ r. record {};
  }

  -- What a callback makes of a value through a mutable die that is fed with it:
  -- `d := blank.DieImmutable(false).DieFeed(r)`, `fn(d)`, `d.DieRelease()`.
  module _ (k : DieKind C) where
    abbrev called : (ℕ → Dies k → Dies k) → ℕ × Dies k → k.resource.Value × Dies k
    called fn (d, st) = die_release k d (fn d st)

    abbrev fed_after : k.resource.Value → ℕ × Dies k → ℕ × Dies k
    fed_after r (d, st) = die_feed k d r st

    unfoldable pub through_die :
        ℕ → (ℕ → Dies k → Dies k) → k.resource.Value → Dies k → k.resource.Value × Dies k
    through_die blank fn r st = called fn (fed_after r (die_immutable k blank false st))

  -- `DieStamp` with a function that goes through a die of the kind `inner`, whose dies it changes too.
  module _ (k inner : DieKind C) where
    abbrev fed_through :
        (put : inner.resource.Value → k.resource.Value → k.resource.Value)
        → ℕ
        → k.resource.Value
        → Dies k
        → inner.resource.Value × Dies inner
        → (ℕ × Dies k) × Dies inner
    fed_through put p r st (v, others) = (feed_result k p st (put v r, others.memory), others)

    unfoldable pub stamp_through :
        (get : k.resource.Value → inner.resource.Value)
        → (put : inner.resource.Value → k.resource.Value → k.resource.Value) → ℕ
        → ℕ
        → (ℕ → Dies inner → Dies inner)
        → Dies k
        → Dies inner
        → (ℕ × Dies k) × Dies inner
    stamp_through get put blank p fn st others =
        let (r, st₁) = die_release k p st in
        fed_through put p r st₁
          (through_die inner blank fn (get r) (record others { memory = st₁.memory }))

  -- The dies of `metav1.ObjectMeta` and `metav1.TypeMeta` are of another package: their callbacks, and
  -- what a callback makes of a value through a mutable die.
  pub record MetaDies (object_meta : Resource C) : Type 1 where
    pub ObjectFn : Type 0
    pub TypeFn : Type 0
    pub Frozen : Type 0
    pub freeze : object_meta.Value → Frozen
    pub object_meta_die : ObjectFn → object_meta.Value → Memory C → object_meta.Value × Memory C
    pub type_meta_die : TypeFn → TypeMeta → TypeMeta
    -- `func(d *ObjectMetaDie) { d.Name(name) }`
    pub name : String → ObjectFn

  module _ (object_meta status : Resource C) (metas : MetaDies object_meta) where
    abbrev pub duck_dies : DieKind C
    duck_dies = record {
      resource = duck_resource object_meta status;
      Frozen = metas.Frozen;
      freeze = λ r. metas.freeze r.object_meta;
    }

    abbrev pub duck_type_dies : DieKind C
    duck_type_dies = record {
      resource = duck_type_resource object_meta status;
      Frozen = metas.Frozen;
      freeze = λ r. metas.freeze r.object_meta;
    }

    abbrev pub condition_duck_dies : DieKind C
    condition_duck_dies = record {
      resource = condition_duck_resource object_meta status;
      Frozen = metas.Frozen;
      freeze = λ r. metas.freeze r.object_meta;
    }

    abbrev pub status_dies : DieKind C
    status_dies = record { resource = status; Frozen = Unit; freeze = λ r. record {} }

    -- `Status` of the dies of `DuckStatus` and `DuckTypeStatus`, which are an `apis.Status` each.
    unfoldable pub embedded_status : status.Value → ℕ → Dies status_dies → ℕ × Dies status_dies
    embedded_status v p = die_stamp status_dies p (edit status_dies λ r. v)
