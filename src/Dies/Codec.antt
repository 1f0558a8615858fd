-- ===== src/Dies/Codec.antt =====
-- The calls of a die that encode and decode: JSON, YAML, raw extensions, unstructured objects, diffs
-- and patches. `none` is a panic.
use ducks.Prelude.{String, Bool, true, false, Option, none, some, if◌then◌else◌, ℕ}
use ducks.Copies.{Memory, Resource}
use ducks.Dies.{DieKind, Dies, die_feed, die_release, set_die}

-- The packages that encode and decode. An encoder fails with `none`. A decoder fills a value, and
-- says whether it failed.
pub record Encodings {C : Type 0} (x : Resource C) : Type 1 where
  pub Bytes : Type 0
  -- What `DieFeedDuck` and `DieReleaseDuck` are given.
  pub Any : Type 0
  pub Raw : Type 0
  pub Unstructured : Type 0
  pub Patch : Type 0
  pub PatchType : Type 0
  pub CmpOptions : Type 0
  pub marshal : x.Value → Memory C → Option Bytes
  pub unmarshal : Bytes → Memory C → Bool × x.Value × Memory C
  pub marshal_yaml : x.Value → Memory C → Option Bytes
  pub unmarshal_yaml : Bytes → Memory C → Bool × x.Value × Memory C
  pub marshal_any : Any → Memory C → Option Bytes
  pub unmarshal_any : Bytes → Any → Memory C → Option (Any × Memory C)
  pub marshal_raw : Raw → Option Bytes
  pub unmarshal_raw : Bytes → Option Raw
  pub read_file : String → Option Bytes
  pub to_unstructured : x.Value → Memory C → Option Unstructured
  -- `cmp.Diff` and `patch.Create` of the sealed and the current resource.
  pub diff : x.Value → x.Value → CmpOptions → Memory C → String
  pub create_patch : x.Value → x.Value → PatchType → Memory C → Option Patch

abbrev pub and_then : {A B : Type 0} → Option A → (A → Option B) → Option B
and_then none f = none
and_then (some a) f = f a

module _ {C : Type 0} (k : DieKind C) (e : Encodings k.resource) where
  open k use {resource, Frozen, freeze}
  open resource use {Value}
  open e use {Bytes, Any, Raw, Unstructured}

  abbrev pub fed_or_panic : ℕ → Dies k → Bool × Value × Memory C → Option (ℕ × Dies k)
  fed_or_panic p st (false, r, m) = none
  fed_or_panic p st (true, r, m) = some (die_feed k p r (record st { memory = m }))

  unfoldable pub die_feed_json : ℕ → Bytes → Dies k → Option (ℕ × Dies k)
  die_feed_json p j st = fed_or_panic p st (e.unmarshal j st.memory)

  unfoldable pub die_feed_yaml : ℕ → Bytes → Dies k → Option (ℕ × Dies k)
  die_feed_yaml p y st = fed_or_panic p st (e.unmarshal_yaml y st.memory)

  unfoldable pub die_feed_yaml_file : ℕ → String → Dies k → Option (ℕ × Dies k)
  unfolding die_feed_yaml
  die_feed_yaml_file p name st = and_then (e.read_file name) λ y. die_feed_yaml p y st

  unfoldable pub die_feed_duck : ℕ → Any → Dies k → Option (ℕ × Dies k)
  unfolding die_feed_json
  die_feed_duck p v st = and_then (e.marshal_any v st.memory) λ j. die_feed_json p j st

  unfoldable pub die_feed_raw_extension : ℕ → Raw → Dies k → Option (ℕ × Dies k)
  unfolding die_feed_json
  die_feed_raw_extension p raw st = and_then (e.marshal_raw raw) λ j. die_feed_json p j st

  -- What is encoded of a released resource, with the state that the release leaves.
  abbrev pub encoded :
      {A : Type 0} → (Value → Memory C → Option A) → Value × Dies k → Option (A × Dies k)
  encoded encode (r, st) = and_then (encode r st.memory) λ a. some (a, st)

  unfoldable pub die_release_json : ℕ → Dies k → Option (Bytes × Dies k)
  die_release_json p st = encoded e.marshal (die_release k p st)

  unfoldable pub die_release_yaml : ℕ → Dies k → Option (Bytes × Dies k)
  die_release_yaml p st = encoded e.marshal_yaml (die_release k p st)

  unfoldable pub die_release_unstructured : ℕ → Dies k → Option (Unstructured × Dies k)
  die_release_unstructured p st = encoded e.to_unstructured (die_release k p st)

  unfoldable pub die_release_raw_extension : ℕ → Dies k → Option (Raw × Dies k)
  unfolding die_release_json
  die_release_raw_extension p st =
      and_then (die_release_json p st)
        λ out. and_then (e.unmarshal_raw out.0) λ raw. some (raw, out.1)

  unfoldable pub die_release_duck : ℕ → Any → Dies k → Option (Any × Dies k)
  unfolding die_release_json
  die_release_duck p v st = and_then (die_release_json p st) λ out.
      and_then (e.unmarshal_any out.0 v out.1.memory)
        λ filled. some (filled.0, record out.1 { memory = filled.1 })

  unfoldable pub die_diff : ℕ → e.CmpOptions → Dies k → String
  die_diff p opts st = e.diff (st.die p).seal (st.die p).r opts st.memory

  unfoldable pub die_patch : ℕ → e.PatchType → Dies k → Option e.Patch
  die_patch p type st = e.create_patch (st.die p).seal (st.die p).r type st.memory

  -- `MarshalJSON` encodes the resource itself.
  unfoldable pub marshal_json : ℕ → Dies k → Option Bytes
  marshal_json p st = e.marshal (st.die p).r st.memory

  abbrev pub into_die : ℕ → Dies k → Bool × Value × Memory C → Bool × Dies k
  into_die p st (fine, r, m) =
      let (q, st₁) = die_feed k p r (record st { memory = m }) in
      (fine, set_die k p (st₁.die q) st₁)

  -- `UnmarshalJSON`, with whether it reports no error.
  unfoldable pub unmarshal_json : ℕ → Bytes → Dies k → Bool × Dies k
  unmarshal_json p b st =
      if (st.die p).mutable then into_die p st (e.unmarshal b st.memory) else (false, st)
