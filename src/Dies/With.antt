-- ===== src/Dies/With.antt =====
-- `DieWith` with callbacks that stamp the die that they are given.
pub mod Building
pub mod Sound
use ducks.Prelude.{
  ℕ, ◌+◌, ◌≤◌, ◌<◌, ◌≡◌, refl, sym, ap, subst, ◌∙◌, arith, true, false, List, [], ◌∷◌, some, inl,
  ◌⊎◌, inr, if-false, Bool-cases,
}
use ducks.Copies.{Memory}
use ducks.Copies.Laws.{Held, Extends, Copies, Extends-refl, Extends-trans, copy-Held}
use ducks.Dies.Stamps.{IsNew, IsNew-Held, copy-again, local-IsNew, LocalFn, act_each}
use ducks.Dies.Keeps.{
  view_of, IsSound, IsKept, Grows, Grows-trans, Grows-IsKept, made, made-Grows, made_die, struct_of,
}
use ducks.Dies.Stamping.{
  release_immutable, release_mutable, feed_immutable, feed_mutable, stamp_mutable, set_here,
  fed_struct,
}
use ducks.Dies.{
  DieKind, Die, Dies, Callback, same, set_die, deep_copy_die, with_mutable, die_immutable, die_feed,
  die_release, die_stamp, die_with, with_result, with_callbacks, with_released, call_each,
}
use ducks.Dies.With.Building.{
  stamps, IsBuilding, IsBuilding-each, mutable_copy, fed, begin_eq, begin-IsBuilding,
}

module _ {C : Type 0} (k : DieKind C) (p : Copies k.resource) where
  open k use {resource, Frozen, freeze}
  open resource use {Value, View, view, deep_copy}

  -- What the die at `q` gets at the end, when it is immutable and when it is mutable.
  end_immutable :
      {st : Dies k} {nd : ℕ} {v : View} (q : ℕ) (st' : Dies k)
      → IsSound k st
      → q < st.count
      → (st.die q).mutable ≡ false
      → IsBuilding k p st nd st' v
      → IsKept k st (die_feed k q (st'.die nd).r st').1
        × (view_of k (die_feed k q (st'.die nd).r st').0 (die_feed k q (st'.die nd).r st').1 ≡ v)
  end_immutable {st} {nd} q st' sound made_q frozen b =
      let still : (st'.die q).mutable ≡ false =
        ap (λ (d : Die Value Frozen). d.mutable) (b.grows.die q made_q) ∙ frozen in
      rw (feed_immutable k p q (st'.die nd).r st' st'.memory still) (
        Grows-IsKept k p sound
            (Grows-trans k b.grows (made-Grows k p _ st' st'.memory (Extends-refl st'.memory))),
        ap (λ (d : Die Value Frozen). view d.r st'.memory) (made_die k p _ st' st'.memory)
            ∙ b.reads,
      )

  end_mutable :
      {st : Dies k} {nd : ℕ} {v : View} (q : ℕ) (st' : Dies k)
      → q < st.count
      → (st.die q).mutable ≡ true
      → IsBuilding k p st nd st' v
      → ((die_feed k q (st'.die nd).r st').0 ≡ q)
        × (view_of k q (die_feed k q (st'.die nd).r st').1 ≡ v)
  end_mutable {st} {nd} q st' made_q inplace b =
      let still : (st'.die q).mutable ≡ true =
        ap (λ (d : Die Value Frozen). d.mutable) (b.grows.die q made_q) ∙ inplace in
      rw (feed_mutable k p q (st'.die nd).r st' st'.memory still) (
        refl,
        ap (λ (d : Die Value Frozen). view d.r st'.memory)
              (set_here k p q (fed_struct k p (st'.die nd).r (st'.die q)) st')
            ∙ b.reads,
      )

  module _ (blank q : ℕ) (fs : List (LocalFn resource)) (st : Dies k) (r : Value) (m : Memory C)
      (extends : Extends st.memory m) (held : Held resource r m) (reads : view r m ≡ view_of k q st)
      (frozen : (st.die blank).mutable ≡ false) where
    abbrev pub nd : ℕ
    nd = st.count + 1

    abbrev pub started : Dies k
    started =
        (mutable_copy k p st.count
          (fed k p st blank r m (view_of k q st) extends held reads frozen)).1

    abbrev pub built : Dies k
    built = call_each k (stamps k p fs) nd started

    pub built-IsBuilding : IsBuilding k p st nd built (act_each resource fs (view_of k q st))
    built-IsBuilding =
        IsBuilding-each k p fs started
          (begin-IsBuilding k p st blank r m (view_of k q st) extends held reads frozen)

    pub with-eq :
        die_release k q st ≡ (r, record st { memory = m })
        → die_with k blank q (stamps k p fs) st ≡ die_feed k q (built.die nd).r built
    unfolding die_with
    with-eq e =
        ap (with_released k blank q (stamps k p fs)) e
        ∙ (ap (with_callbacks k q (stamps k p fs))
              (begin_eq k p st blank r m (view_of k q st) extends held reads frozen)
            ∙ ap (with_result k q) (release_mutable k p nd built built-IsBuilding.mutable))

  -- `DieWith`, where resources are copied deeply and the dies refer to cells in use, with callbacks
  -- that stamp their die by local functions, and with an immutable blank die: what can be read of the
  -- die that the call returns is what the functions, one after the other, make of what could be read
  -- before. If the die is immutable, then no die that was made changes, neither as a struct nor in
  -- what can be read of its resource and of its seal.
  pub die_with_lem :
      (blank q : ℕ) (fs : List (LocalFn resource)) (st : Dies k)
      → IsSound k st
      → q < st.count
      → (st.die blank).mutable ≡ false
      → let out = die_with k blank q (stamps k p fs) st in
        (view_of k out.0 out.1 ≡ act_each resource fs (view_of k q st))
        × (((st.die q).mutable ≡ true) ⊎ IsKept k st out.1)
  die_with_lem blank q fs st sound made_q blank_frozen = elim (Bool-cases (st.die q).mutable) [
    | inl inplace ↦
        let from =
          built-IsBuilding blank q fs st (st.die q).r st.memory (Extends-refl st.memory)
            (sound.r q made_q) refl blank_frozen in
        let out = end_mutable q _ made_q inplace from in
        rw
          (with-eq blank q fs st (st.die q).r st.memory (Extends-refl st.memory) (sound.r q made_q)
            refl blank_frozen (release_mutable k p q st inplace))
          (rw out.0 out.1, inl inplace)
    | inr frozen ↦
        let r = (deep_copy (st.die q).r st.memory).0 in
        let m = (deep_copy (st.die q).r st.memory).1 in
        let held = copy-Held resource p (st.die q).r st.memory in
        let reads = p.view-copy (st.die q).r st.memory (sound.r q made_q) in
        let extends = p.extends (st.die q).r st.memory in
        let (kept, same) =
          end_immutable q _ sound made_q frozen
            (built-IsBuilding blank q fs st r m extends held reads blank_frozen) in
        rw
          (with-eq blank q fs st r m extends held reads blank_frozen
            (release_immutable k p q st frozen))
          (same, inr kept)
  ]
