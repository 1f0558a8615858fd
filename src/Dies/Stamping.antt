-- ===== src/Dies/Stamping.antt =====
-- `DieStamp`: what it makes of the resource, and what it leaves of all other dies.
use ducks.Prelude.{
  ℕ, ◌<◌, ◌≡◌, inl, inr, sym, ap, ◌∙◌, arith, true, false, if◌then◌else◌, if-true, if-false,
  Bool-cases,
}
use ducks.Copies.{Memory}
use ducks.Copies.Laws.{Copies, copy-Held}
use ducks.Dies.Stamps.{IsLocal, IsNew, copy-IsNew, local-IsNew}
use ducks.Dies.Keeps.{
  view_of, IsSound, IsKept, Grows-IsKept, made, made-Grows, made_die, struct_of, made_new-IsSound,
}
use ducks.Dies.{
  DieKind, Die, Dies, Fn, set_die, die_feed, die_release, die_stamp, feed_result, copy,
}

module _ {C : Type 0} (k : DieKind C) (p : Copies k.resource) where
  open k use {resource, Frozen, freeze}
  open resource use {Value, View, view, deep_copy}

  -- The resource that an immutable die is stamped to, and the memory.
  abbrev pub stamped : Value → Fn k → Memory C → Value × Memory C
  stamped r fn m = fn (deep_copy r m).0 (deep_copy r m).1

  pub release_immutable :
      (q : ℕ) (st : Dies k)
      → (st.die q).mutable ≡ false
      → die_release k q st ≡ copy k (st.die q).r st
  unfolding die_release
  release_immutable q st e = if-false _ _ e

  pub release_mutable :
      (q : ℕ) (st : Dies k) → (st.die q).mutable ≡ true → die_release k q st ≡ ((st.die q).r, st)
  unfolding die_release
  release_mutable q st e = if-true _ _ e

  pub feed_immutable :
      (q : ℕ) (r : Value) (st : Dies k) (m : Memory C)
      → (st.die q).mutable ≡ false
      → die_feed k q r (record st { memory = m })
        ≡ (st.count, made k p (struct_of k p r (st.die q).mutable (st.die q).seal) st m)
  unfolding die_feed
  feed_immutable q r st m e = if-false _ _ e

  -- The struct of a mutable die that is fed.
  abbrev pub fed_struct : Value → Die Value Frozen → Die Value Frozen
  fed_struct r d = record d { frozen = freeze r; r = r }

  pub feed_mutable :
      (q : ℕ) (r : Value) (st : Dies k) (m : Memory C)
      → (st.die q).mutable ≡ true
      → die_feed k q r (record st { memory = m })
        ≡ (q, set_die k q (fed_struct r (st.die q)) (record st { memory = m }))
  unfolding die_feed
  feed_mutable q r st m e = if-true _ _ e

  pub stamp_immutable :
      (q : ℕ) (fn : Fn k) (st : Dies k)
      → (st.die q).mutable ≡ false
      → die_stamp k q fn st ≡ (
        st.count,
        made k p
            (struct_of k p (stamped (st.die q).r fn st.memory).0 (st.die q).mutable (st.die q).seal)
            st
            (stamped (st.die q).r fn st.memory).1,
      )
  unfolding die_stamp
  stamp_immutable q fn st e =
      ap (λ (r : Value × Dies k). feed_result k q r.1 (fn r.0 r.1.memory))
        (release_immutable q st e)
      ∙ feed_immutable q _ st _ e

  pub stamp_mutable :
      (q : ℕ) (fn : Fn k) (st : Dies k)
      → (st.die q).mutable ≡ true
      → die_stamp k q fn st ≡ (
        q,
        set_die k q
            (fed_struct (fn (st.die q).r st.memory).0 (st.die q))
            (record st { memory = (fn (st.die q).r st.memory).1 }),
      )
  unfolding die_stamp
  stamp_mutable q fn st e =
      ap (λ (r : Value × Dies k). feed_result k q r.1 (fn r.0 r.1.memory)) (release_mutable q st e)
      ∙ feed_mutable q _ st _ e

  pub set_here : (q : ℕ) (d : Die Value Frozen) (st : Dies k) → (set_die k q d st).die q ≡ d
  set_here q d st = ground arith

  pub stamped-IsNew :
      (r : Value) (fn : Fn k) {act : View → View} (m : Memory C)
      → IsLocal resource fn act
      → IsNew resource m (stamped r fn m).0 (stamped r fn m).1
  stamped-IsNew r fn m l = local-IsNew resource l (copy-IsNew resource p r m)

  -- A stamp by a local function acts on what is read of the die's resource, whether the die is
  -- mutable or not: what can be read of the die that the call returns is what the function makes of
  -- what could be read before. A mutable die returns itself, and an immutable one a new die.
  pub die_stamp-view :
      (q : ℕ) (fn : Fn k) (act : View → View) (st : Dies k)
      → IsSound k st
      → q < st.count
      → IsLocal resource fn act
      → (view_of k (die_stamp k q fn st).0 (die_stamp k q fn st).1 ≡ act (view_of k q st))
        × ((die_stamp k q fn st).0 ≡ (if (st.die q).mutable then q else st.count))
  die_stamp-view q fn act st sound made_q l = elim (Bool-cases (st.die q).mutable) [
    | inl inplace ↦ rw (stamp_mutable q fn st inplace) (
      ap (λ (d : Die Value Frozen). view d.r (fn (st.die q).r st.memory).1)
            (set_here q (fed_struct (fn (st.die q).r st.memory).0 (st.die q)) st)
          ∙ l.acts (st.die q).r st.memory (sound.r q made_q),
      sym (if-true _ _ inplace),
    )
    | inr frozen ↦ rw (stamp_immutable q fn st frozen) (
      ap (λ (d : Die Value Frozen). view d.r (stamped (st.die q).r fn st.memory).1)
            (made_die k p _ st st.memory)
          ∙ (l.acts _ _ (copy-Held resource p (st.die q).r st.memory)
              ∙ ap act (p.view-copy (st.die q).r st.memory (sound.r q made_q))),
      sym (if-false _ _ frozen),
    )
  ]

  -- A stamp of an immutable die by a local function, where resources are copied deeply and the dies
  -- refer to cells in use, changes no die that was made, neither as a struct nor in what can be
  -- read of its resource and of its seal. All dies refer to cells in use afterwards, and the die
  -- that the call returns is immutable.
  pub die_stamp-IsKept :
      (q : ℕ) (fn : Fn k) (act : View → View) (st : Dies k)
      → IsSound k st
      → q < st.count
      → (st.die q).mutable ≡ false
      → IsLocal resource fn act
      → IsKept k st (die_stamp k q fn st).1
        × IsSound k (die_stamp k q fn st).1
        × (((die_stamp k q fn st).1.die (die_stamp k q fn st).0).mutable ≡ false)
  die_stamp-IsKept q fn act st sound made_q frozen l = rw (stamp_immutable q fn st frozen) (
    Grows-IsKept k p sound
        (made-Grows k p _ st _ (stamped-IsNew (st.die q).r fn st.memory l).extends),
    made_new-IsSound k p q (st.die q).mutable _ _ sound made_q
        (stamped-IsNew (st.die q).r fn st.memory l),
    ap (λ (d : Die Value Frozen). d.mutable) (made_die k p _ st st.memory) ∙ frozen,
  )
