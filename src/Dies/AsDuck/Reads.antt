-- ===== src/Dies/AsDuck/Reads.antt =====
-- What the ducks of `AsDuck` read.
use ducks.Prelude.{ℕ, String, ◌<◌, ◌≡◌, refl, ap, ◌∙◌, arith, false, inl, inr, Bool-cases}
use ducks.Schema.{Schema}
use ducks.Api.{DuckTypeSpec}
use ducks.Copies.{Memory, Resource, StoredDuck, StoredDuckType, duck_type_deep_copy}
use ducks.Copies.Laws.{Extends, Copies, Extends-refl, Extends-trans, Extends-view}
use ducks.Copies.Ducks.{duck_deep_copy-Copies}
use ducks.Dies.Stamps.{IsLocal}
use ducks.Dies.Keeps.{view_of, IsSound, IsKept, Grows, Grows-IsKept}
use ducks.Dies.Stamping.{release_immutable, release_mutable}
use ducks.Dies.Types.{MetaDies, duck_dies, duck_type_dies}
use ducks.Dies.Edits.{IsEdit, IsEdit-IsLocal, edit-IsLocal, IsBuilt, stamp-IsBuilt, Extends-IsSound}
use ducks.Dies.Duck.{api_version, kind, metadata_die, metadata_fn}
use ducks.Dies.DuckType.{DuckTypeDies}
use ducks.Dies.AsDuck.{Ducks, as_duck, duck_of}
use ducks.Dies.{DieKind, Dies, die_release}

module _ {C : Type 0} (meta state : Resource C) (metas : MetaDies meta) where
  abbrev types : DieKind C
  types = duck_type_dies meta state metas

  abbrev DuckKind : DieKind C
  DuckKind = duck_dies meta state metas

  -- `Name` sets the name of the metadata, and the blank metadata has no references.
  pub record Names : Type 0 where
    pub named : String → meta.Value → meta.Value
    pub seen : String → meta.View → meta.View
    pub sets :
        (n : String) (v : meta.Value) (m : Memory C)
        → metas.object_meta_die (metas.name n) v m ≡ (named n v, m)
    pub owns :
        (n : String) (v : meta.Value) (m : Memory C) (i : ℕ)
        → meta.Owns (named n v) m i
        → meta.Owns v m i
    pub reads :
        (n : String) (v : meta.Value) (m : Memory C)
        → meta.view (named n v) m ≡ seen n (meta.view v m)

  module _ (names : Names) (p : Copies meta) (q : Copies state) where
    ducks_copies : Copies DuckKind.resource
    ducks_copies = (duck_deep_copy-Copies meta state p q).0

    types_copies : Copies types.resource
    types_copies = (duck_deep_copy-Copies meta state p q).1

    abbrev named_duck :
        String → StoredDuck meta.Value state.Value → StoredDuck meta.Value state.Value
    named_duck n r = record r { object_meta = names.named n r.object_meta }

    abbrev seen_name : String → StoredDuck meta.View state.View → StoredDuck meta.View state.View
    seen_name n r = record r { object_meta = names.seen n r.object_meta }

    abbrev with_view : StoredDuck meta.View state.View → meta.View → StoredDuck meta.View state.View
    with_view r v = record r { object_meta = v }

    name-IsLocal :
        (n : String)
        → IsLocal DuckKind.resource (metadata_fn meta state metas (metas.name n)) (seen_name n)
    name-IsLocal n =
        IsEdit-IsLocal DuckKind {f = named_duck n} (metadata_fn meta state metas (metas.name n))
          (λ r m.
            ap (λ (x : meta.Value × Memory C). (record r { object_meta = x.0 }, x.1))
              (names.sets n r.object_meta m))
          edited
      where
        edited : IsEdit DuckKind (named_duck n) (seen_name n)
        edited = record {
          owns =
              λ r m i o. elim o [ inl a ↦ inl (names.owns n r.object_meta m i a) | inr b ↦ inr b ];
          acts = λ r m.
              ap (λ v. with_view (DuckKind.resource.view r m) v) (names.reads n r.object_meta m);
        }

    -- What a duck reads that is built of a spec.
    abbrev pub duck_seen :
        Schema
        → String
        → DuckTypeSpec
        → StoredDuck meta.View state.View
        → StoredDuck meta.View state.View
    duck_seen s name spec r = record r {
      type_meta = record {
        api_version = s.group_version_string (record { group = spec.group; version = "v1" });
        kind = spec.kind;
      };
      object_meta = names.seen name r.object_meta;
    }

    duck_of-IsBuilt :
        (s : Schema) (blank : ℕ) (name : String) (spec : DuckTypeSpec) (st : Dies DuckKind)
        → IsSound DuckKind st
        → blank < st.count
        → (st.die blank).mutable ≡ false
        → IsBuilt DuckKind st
            (duck_seen s name spec (view_of DuckKind blank st))
            (duck_of meta state metas s blank name spec st)
    unfolding api_version kind metadata_die
    duck_of-IsBuilt s blank name spec st sound made_blank frozen =
        stamp-IsBuilt DuckKind ducks_copies (metadata_fn meta state metas (metas.name name))
          (seen_name name) (name-IsLocal name)
          (stamp-IsBuilt DuckKind ducks_copies _
            (λ r. record r { type_meta = record r.type_meta { kind = spec.kind } })
            (edit-IsLocal DuckKind (record { owns = λ r m i o. o; acts = λ r m. refl }))
            (stamp-IsBuilt DuckKind ducks_copies _
              (λ r. record r {
                type_meta = record r.type_meta {
                  api_version =
                      s.group_version_string (record { group = spec.group; version = "v1" });
                };
              })
              (edit-IsLocal DuckKind (record { owns = λ r m i o. o; acts = λ r m. refl }))
              (record {
                sound = sound;
                made = made_blank;
                frozen = frozen;
                reads = refl;
                grows = record {
                  extends = Extends-refl st.memory;
                  count = omega arith;
                  die = λ i h. refl;
                };
              })))

    -- What a release of a duck type leaves.
    release-Extends :
        (i : ℕ) (st : DuckTypeDies meta state metas)
        → Extends st.memory (die_release types i st).1.memory
          × ((die_release types i st).0.spec ≡ (st.die i).r.spec)
    unfolding duck_type_deep_copy
    release-Extends i st = elim (Bool-cases (st.die i).mutable) [
      | inl inplace ↦
          rw (release_mutable types types_copies i st inplace) (Extends-refl st.memory, refl)
      | inr frozen ↦
          rw (release_immutable types types_copies i st frozen)
            (types_copies.extends (st.die i).r st.memory, spec_copy (st.die i).r st.memory)
    ]
      where
        spec_copy :
            (r : StoredDuckType meta.Value state.Value) (m : Memory C)
            → (types.resource.deep_copy r m).0.spec ≡ r.spec
        spec_copy r m = refl

    -- `AsDuck`, with deep copies of metadata and status and a `Name` that changes the metadata
    -- only, where both kinds of dies share the memory and refer to cells in use, and the blank duck
    -- is immutable: the duck reads as the blank one but for its API version, which is that of the
    -- type's group and of `v1`, its kind, which is that of the type, and its metadata, which are
    -- named. All ducks that were made are kept, and the duck type reads as before.
    pub as_duck_lem :
        (s : Schema) (blank i : ℕ) (name : String) (st : DuckTypeDies meta state metas)
        (others : Ducks meta state metas s)
        → IsSound types st
        → i < st.count
        → IsSound DuckKind others
        → others.memory ≡ st.memory
        → blank < others.count
        → (others.die blank).mutable ≡ false
        → let out = (as_duck meta state metas s blank i name st others).0 in
          (view_of DuckKind out.0 out.1
            ≡ duck_seen s name (view_of types i st).spec (view_of DuckKind blank others))
          × IsKept DuckKind others out.1
          × (types.resource.view (st.die i).r out.1.memory ≡ view_of types i st)
    unfolding as_duck
    as_duck_lem s blank i name st others sound made_i ducks_sound shared made_blank frozen =
        let st₁ = (die_release types i st).1 in
        let (extends, same_spec) = release-Extends i st in
        let extends' = subst_memory extends in
        let started = record others { memory = st₁.memory } in
        let b_out = duck_of meta state metas s blank name (die_release types i st).0.spec started in
        let b =
          duck_of-IsBuilt s blank name (die_release types i st).0.spec started
            (Extends-IsSound DuckKind ducks_copies extends' ducks_sound) made_blank frozen in
        let grows : Grows DuckKind others b_out.1 = record {
          extends = Extends-trans extends' b.grows.extends;
          count = b.grows.count;
          die = b.grows.die;
        } in
        (
          b.reads
              ∙ cc (
                same_spec,
                Extends-view DuckKind.resource ducks_copies (others.die blank).r
                    (ducks_sound.r blank made_blank) extends',
              ),
          Grows-IsKept DuckKind ducks_copies ducks_sound grows,
          Extends-view types.resource types_copies (st.die i).r (sound.r i made_i)
              (Extends-trans extends b.grows.extends),
        )
      where
        subst_memory : {m : Memory C} → Extends st.memory m → Extends others.memory m
        subst_memory e = rw shared e
