-- ===== src/Dies.antt =====
-- The dies of `zz_generated.die.go`: builders around a resource. A die is a struct behind a pointer:
-- a mutable die is changed in place, an immutable one answers every call with a new die.
pub mod Codec
pub mod Paths
pub mod RoundTrip
pub mod Stamps
pub mod Keeps
pub mod Stamping
pub mod With
pub mod Sealing
pub mod Chains
pub mod Blank
pub mod Types
pub mod DuckSpec
pub mod DuckTypeSpec
pub mod Duck
pub mod DuckType
pub mod ConditionDuck
pub mod AsDuck
pub mod Calls
pub mod Edits
pub mod Statuses
use ducks.Prelude.{
  ℕ, ◌+◌, Bool, true, false, not, List, [], ◌∷◌, Option, none, some, eqb, if◌then◌else◌, ◌≡◌,
}
use ducks.Copies.{Memory, Resource}

-- A kind of dies: its resource, and what `FreezeObjectMeta` keeps beside it; a die without metadata
-- keeps nothing.
pub record DieKind (C : Type 0) : Type 1 where
  pub resource : Resource C
  pub Frozen : Type 0
  pub freeze : resource.Value → Frozen

-- The struct of a die.
pub record Die (R F : Type 0) : Type 0 where
  pub frozen : F
  pub mutable : Bool
  pub r : R
  pub seal : R

-- The memory of the resources, and the dies by their pointers, of which those below `count` are made.
pub record State (C R F : Type 0) : Type 0 where
  pub memory : Memory C
  pub count : ℕ
  pub die : ℕ → Die R F

abbrev same : Bool → Bool → Bool
same true b = b
same false b = not b

module _ {C : Type 0} (k : DieKind C) where
  open k use {resource, Frozen, freeze}
  open resource use {Value, zero, deep_copy}

  abbrev pub Dies : Type 0
  Dies = State C Value Frozen

  abbrev pub set_die : ℕ → Die Value Frozen → Dies → Dies
  set_die p d st = record st { die = λ q. if eqb q p then d else st.die q }

  -- `&Die{…}`
  abbrev pub new_die : Die Value Frozen → Dies → ℕ × Dies
  new_die d st = (
    st.count,
    record st { count = st.count + 1; die = λ q. if eqb q st.count then d else st.die q },
  )

  -- A copy of a resource, in the memory of a state.
  abbrev pub copy : Value → Dies → Value × Dies
  copy r st = let (r', m) = deep_copy r st.memory in (r', record st { memory = m })

  unfoldable pub deep_copy_die : ℕ → Dies → ℕ × Dies
  deep_copy_die p st =
      let d = st.die p in
      let (r, st₁) = copy d.r st in
      new_die (record { frozen = freeze r; mutable = d.mutable; r = r; seal = d.seal }) st₁

  abbrev pub with_mutable : Bool → ℕ × Dies → ℕ × Dies
  with_mutable b (p, st) = (p, set_die p (record (st.die p) { mutable = b }) st)

  unfoldable pub die_immutable : ℕ → Bool → Dies → ℕ × Dies
  unfolding deep_copy_die
  die_immutable p immutable st =
      if same (st.die p).mutable (not immutable)
      then (p, st)
      else with_mutable (not immutable) (deep_copy_die p st)

  unfoldable pub die_feed : ℕ → Value → Dies → ℕ × Dies
  die_feed p r st =
      let d = st.die p in
      if d.mutable
      then (p, set_die p (record d { frozen = freeze r; r = r }) st)
      else new_die (record { frozen = freeze r; mutable = d.mutable; r = r; seal = d.seal }) st

  -- `(&Die{}).DieFeed(Resource{})`, the blank die of a package; `frozen` is the zero value of its
  -- frozen metadata.
  unfoldable pub die_blank : Frozen → Dies → ℕ × Dies
  unfolding die_feed
  die_blank frozen st =
      let (p, st₁) =
        new_die (record { frozen = frozen; mutable = false; r = zero; seal = zero }) st in
      die_feed p zero st₁

  abbrev pub or_zero : Option Value → Value
  or_zero none = zero
  or_zero (some r) = r

  unfoldable pub die_feed_ptr : ℕ → Option Value → Dies → ℕ × Dies
  unfolding die_feed
  die_feed_ptr p r st = die_feed p (or_zero r) st

  unfoldable pub die_release : ℕ → Dies → Value × Dies
  die_release p st = let d = st.die p in if d.mutable then (d.r, st) else copy d.r st

  -- A function that is given a pointer to a resource: what it makes of the resource and the memory.
  abbrev pub Fn : Type 0
  Fn = Value → Memory C → Value × Memory C

  abbrev pub feed_result : ℕ → Dies → Value × Memory C → ℕ × Dies
  feed_result p st (r, m) = die_feed p r (record st { memory = m })

  unfoldable pub die_stamp : ℕ → Fn → Dies → ℕ × Dies
  unfolding die_release die_feed
  die_stamp p fn st = let (r, st₁) = die_release p st in feed_result p st₁ (fn r st₁.memory)

  -- The callbacks of `DieWith`, of which some are nil.
  abbrev pub Callback : Type 0
  Callback = Option (ℕ → Dies → Dies)

  pub call_each : List Callback → ℕ → Dies → Dies
  call_each [] p st = st
  call_each (none ∷ fns) p st = call_each fns p st
  call_each (some fn ∷ fns) p st = call_each fns p (fn p st)

  -- The steps of `DieWith`: the last feed, the callbacks on the mutable die, and how it is made.
  abbrev pub with_result : ℕ → Value × Dies → ℕ × Dies
  with_result p (r, st) = die_feed p r st

  abbrev pub with_callbacks : ℕ → List Callback → ℕ × Dies → ℕ × Dies
  with_callbacks p fns (nd, st) = with_result p (die_release nd (call_each fns nd st))

  abbrev pub mutable_of : ℕ × Dies → ℕ × Dies
  mutable_of (fed, st) = die_immutable fed false st

  abbrev pub with_released : ℕ → ℕ → List Callback → Value × Dies → ℕ × Dies
  with_released blank p fns (r, st) = with_callbacks p fns (mutable_of (die_feed blank r st))

  -- `DieWith`; the blank die of the package is at the pointer `blank`.
  unfoldable pub die_with : ℕ → ℕ → List Callback → Dies → ℕ × Dies
  unfolding die_release die_feed die_immutable call_each
  die_with blank p fns st = with_released blank p fns (die_release p st)

  abbrev pub sealed_copy : Value → ℕ × Dies → ℕ × Dies
  sealed_copy r (p, st) =
      let (r', st₁) = copy r st in (p, set_die p (record (st₁.die p) { seal = r' }) st₁)

  unfoldable pub die_seal_feed : ℕ → Value → Dies → ℕ × Dies
  unfolding deep_copy_die
  die_seal_feed p r st = sealed_copy r (if (st.die p).mutable then (p, st) else deep_copy_die p st)

  unfoldable pub die_seal_feed_ptr : ℕ → Option Value → Dies → ℕ × Dies
  unfolding die_seal_feed
  die_seal_feed_ptr p r st = die_seal_feed p (or_zero r) st

  unfoldable pub die_seal : ℕ → Dies → ℕ × Dies
  unfolding die_seal_feed
  die_seal p st = die_seal_feed p (st.die p).r st

  unfoldable pub die_seal_release : ℕ → Dies → Value × Dies
  die_seal_release p st = copy (st.die p).seal st
