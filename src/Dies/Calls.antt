-- ===== src/Dies/Calls.antt =====
-- The calls that every die type of `zz_generated.die.go` has, one text for each type, in the groups in
-- which they stand there.
pub mod Api
pub mod Test
use ducks.Prelude.{ℕ, String, Bool, Option, some, List}
use ducks.Copies.{Memory, Resource, Arrays}
use ducks.Dies.Codec.{
  Encodings, die_feed_json, die_feed_yaml, die_feed_yaml_file, die_feed_duck,
  die_feed_raw_extension, die_release_json, die_release_yaml, die_release_raw_extension,
  die_release_duck, die_diff, die_patch, marshal_json, unmarshal_json,
}
use ducks.Dies.Paths.{Reflection, die_stamp_at}
use ducks.Dies.{
  DieKind, Dies, Fn, Callback, die_immutable, die_feed, die_feed_ptr, die_release, die_stamp,
  die_with, deep_copy_die, die_seal, die_seal_feed, die_seal_feed_ptr, die_seal_release,
}

module _ {C : Type 0} (k : DieKind C) where
  open k use {resource}
  open resource use {Value}

  -- A pointer to a new variable with the resource.
  abbrev to_ptr : Value × Dies k → Option Value × Dies k
  to_ptr (r, st) = (some r, st)

  unfoldable pub die_release_ptr : ℕ → Dies k → Option Value × Dies k
  die_release_ptr p st = to_ptr (die_release k p st)

  unfoldable pub die_seal_release_ptr : ℕ → Dies k → Option Value × Dies k
  die_seal_release_ptr p st = to_ptr (die_seal_release k p st)

  unfoldable pub deep_copy_object : ℕ → Dies k → Value × Dies k
  deep_copy_object p st =
      let (r, m) = resource.deep_copy (st.die p).r st.memory in (r, record st { memory = m })

  module _ (e : Encodings resource) where
    pub record Feeding : Type 0 where
      pub immutable : ℕ → Bool → Dies k → ℕ × Dies k
      pub feed : ℕ → Value → Dies k → ℕ × Dies k
      pub feed_ptr : ℕ → Option Value → Dies k → ℕ × Dies k
      pub feed_duck : ℕ → e.Any → Dies k → Option (ℕ × Dies k)
      pub feed_json : ℕ → e.Bytes → Dies k → Option (ℕ × Dies k)
      pub feed_yaml : ℕ → e.Bytes → Dies k → Option (ℕ × Dies k)
      pub feed_yaml_file : ℕ → String → Dies k → Option (ℕ × Dies k)
      pub feed_raw_extension : ℕ → e.Raw → Dies k → Option (ℕ × Dies k)

    pub record Releasing : Type 0 where
      pub release : ℕ → Dies k → Value × Dies k
      pub release_ptr : ℕ → Dies k → Option Value × Dies k

    pub record Encoding : Type 0 where
      pub release_duck : ℕ → e.Any → Dies k → Option (e.Any × Dies k)
      pub release_json : ℕ → Dies k → Option (e.Bytes × Dies k)
      pub release_yaml : ℕ → Dies k → Option (e.Bytes × Dies k)
      pub release_raw_extension : ℕ → Dies k → Option (e.Raw × Dies k)

    pub record Stamping (f : Reflection resource) : Type 0 where
      pub stamp : ℕ → Fn k → Dies k → ℕ × Dies k
      pub stamp_at : ℕ → String → f.Callback → Dies k → Option (ℕ × Dies k)
      pub with_fns : ℕ → ℕ → List (Callback k) → Dies k → ℕ × Dies k
      pub copied : ℕ → Dies k → ℕ × Dies k

    pub record Sealing : Type 0 where
      pub seal : ℕ → Dies k → ℕ × Dies k
      pub seal_feed : ℕ → Value → Dies k → ℕ × Dies k
      pub seal_feed_ptr : ℕ → Option Value → Dies k → ℕ × Dies k
      pub seal_release : ℕ → Dies k → Value × Dies k
      pub seal_release_ptr : ℕ → Dies k → Option Value × Dies k
      pub diff : ℕ → e.CmpOptions → Dies k → String
      pub patch : ℕ → e.PatchType → Dies k → Option e.Patch

    -- The calls of the dies of objects; `GetObjectKind` of the released object is given.
    pub record Objects (ObjectKind : Type 0) : Type 0 where
      pub object_copy : ℕ → Dies k → Value × Dies k
      pub object_kind : ℕ → Dies k → ObjectKind × Dies k
      pub to_json : ℕ → Dies k → Option e.Bytes
      pub of_json : ℕ → e.Bytes → Dies k → Bool × Dies k

    abbrev pub feeding : Feeding
    feeding = record {
      immutable = die_immutable k;
      feed = die_feed k;
      feed_ptr = die_feed_ptr k;
      feed_duck = die_feed_duck k e;
      feed_json = die_feed_json k e;
      feed_yaml = die_feed_yaml k e;
      feed_yaml_file = die_feed_yaml_file k e;
      feed_raw_extension = die_feed_raw_extension k e;
    }

    abbrev pub releasing : Releasing
    releasing = record { release = die_release k; release_ptr = die_release_ptr }

    abbrev pub encoding : Encoding
    encoding = record {
      release_duck = die_release_duck k e;
      release_json = die_release_json k e;
      release_yaml = die_release_yaml k e;
      release_raw_extension = die_release_raw_extension k e;
    }

    abbrev pub stamping : (f : Reflection resource) → Stamping f
    stamping f = record {
      stamp = die_stamp k;
      stamp_at = die_stamp_at k f;
      with_fns = die_with k;
      copied = deep_copy_die k;
    }

    abbrev pub sealing : Sealing
    sealing = record {
      seal = die_seal k;
      seal_feed = die_seal_feed k;
      seal_feed_ptr = die_seal_feed_ptr k;
      seal_release = die_seal_release k;
      seal_release_ptr = die_seal_release_ptr;
      diff = die_diff k e;
      patch = die_patch k e;
    }

    abbrev kind_of : {A : Type 0} → (Value → A) → Value × Dies k → A × Dies k
    kind_of f (r, st) = (f r, st)

    abbrev pub objects : {A : Type 0} → (Value → A) → Objects A
    objects get_object_kind = record {
      object_copy = deep_copy_object;
      object_kind = λ p st. kind_of get_object_kind (die_release k p st);
      to_json = marshal_json k e;
      of_json = unmarshal_json k e;
    }
