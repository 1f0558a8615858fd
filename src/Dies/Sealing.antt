-- ===== src/Dies/Sealing.antt =====
-- `DieSeal`: the sealed resource that later diffs and patches compare with.
use ducks.Prelude.{
  ℕ, ◌<◌, ◌≡◌, refl, sym, ap, subst, ◌∙◌, arith, Bool, inl, inr, if-true, if-false, Bool-cases,
}
use ducks.Copies.{Memory}
use ducks.Copies.Laws.{Held, Extends, Copies, Extends-Held, Extends-view, copy-Held}
use ducks.Dies.Stamps.{IsLocal}
use ducks.Dies.Keeps.{view_of, IsSound, made, made_die, struct_of}
use ducks.Dies.Stamping.{
  stamp_immutable, stamp_mutable, stamped, stamped-IsNew, set_here, fed_struct,
}
use ducks.Dies.{
  DieKind, Die, Dies, Fn, deep_copy_die, die_stamp, die_seal, die_seal_feed, sealed_copy,
}

module _ {C : Type 0} (k : DieKind C) (p : Copies k.resource) where
  open k use {resource, Frozen, freeze}
  open resource use {Value, View, Owns, view, deep_copy}

  -- What can be read of a die's seal.
  abbrev pub seal_of : ℕ → Dies k → View
  seal_of q st = view (st.die q).seal st.memory

  -- A die that reads `v` and is sealed with `v`, and whose seal shares nothing with its resource.
  record IsSealed (v : View) (d : Die Value Frozen) (m : Memory C) : Type 0 where
    reads : view d.r m ≡ v
    sealed : view d.seal m ≡ v
    r_held : Held resource d.r m
    seal_held : Held resource d.seal m
    apart : (i : ℕ) → Owns d.seal m i → ¬ Owns d.r m i

  -- The seal is a copy of `r`, made over the memory that holds the resource of the die.
  copy-IsSealed :
      (d : Die Value Frozen) (r : Value) (m : Memory C) (v : View)
      → Held resource d.r m
      → view d.r m ≡ v
      → Held resource r m
      → view r m ≡ v
      → IsSealed v (record d { seal = (deep_copy r m).0 }) (deep_copy r m).1
  copy-IsSealed d r m v held reads r_held r_reads =
      let e = p.extends r m in
      record {
        reads = Extends-view resource p d.r held e ∙ reads;
        sealed = p.view-copy r m r_held ∙ r_reads;
        r_held = Extends-Held resource p d.r held e;
        seal_held = copy-Held resource p r m;
        apart = λ i o o'.
            let (low, high) = p.fresh r m i o in
            let old =
              held i (p.owns-frame d.r m (deep_copy r m).1 (λ j h. e.kept j (held j h)) i o') in
            omega (arith, low, old);
      }

  -- The state in which the die at `q` gets its seal.
  abbrev seal_with : ℕ → Value → Dies k → Dies k
  seal_with q r st = (sealed_copy k r (q, st)).1

  seal_with-IsSealed :
      (q : ℕ) (r : Value) (st : Dies k) (v : View)
      → Held resource (st.die q).r st.memory
      → view_of k q st ≡ v
      → Held resource r st.memory
      → view r st.memory ≡ v
      → IsSealed v ((seal_with q r st).die q) (seal_with q r st).memory
        × (((seal_with q r st).die q).mutable ≡ (st.die q).mutable)
  seal_with-IsSealed q r st v held reads r_held r_reads =
      let here =
        set_here k p q (record (st.die q) { seal = (deep_copy r st.memory).0 })
          (record st { memory = (deep_copy r st.memory).1 }) in
      (
        subst (λ (d : Die Value Frozen). IsSealed v d (deep_copy r st.memory).1) (sym here)
            (copy-IsSealed (st.die q) r st.memory v held reads r_held r_reads),
        ap (λ (d : Die Value Frozen). d.mutable) here,
      )

  -- A result at a die that is sealed with `v` and mutable or not as said.
  abbrev SealedOut : View → Bool → ℕ × Dies k → Type 0
  SealedOut v b out = IsSealed v (out.1.die out.0) out.1.memory × ((out.1.die out.0).mutable ≡ b)

  die_seal-IsSealed :
      (q : ℕ) (st : Dies k)
      → IsSound k st
      → q < st.count
      → SealedOut (view_of k q st) (st.die q).mutable (die_seal k q st)
  unfolding die_seal die_seal_feed deep_copy_die
  die_seal-IsSealed q st sound made_q = elim (Bool-cases (st.die q).mutable) [
    | inl inplace ↦
        subst (SealedOut (view_of k q st) (st.die q).mutable)
          (sym (ap (sealed_copy k (st.die q).r) (if-true (q, st) (deep_copy_die k q st) inplace)))
          (seal_with-IsSealed q (st.die q).r st (view_of k q st) (sound.r q made_q) refl
            (sound.r q made_q) refl)
    | inr frozen ↦
        subst (SealedOut (view_of k q st) (st.die q).mutable)
          (sym (ap (sealed_copy k (st.die q).r) (if-false (q, st) (deep_copy_die k q st) frozen)))
          (let (sealed, b) =
              seal_with-IsSealed st.count (st.die q).r copied (view_of k q st) copied_held
                copied_reads (Extends-Held resource p (st.die q).r (sound.r q made_q) extends)
                (Extends-view resource p (st.die q).r (sound.r q made_q) extends) in
            (sealed, b ∙ ap (λ (d : Die Value Frozen). d.mutable) here))
  ]
    where
      m : Memory C
      m = (deep_copy (st.die q).r st.memory).1

      extends : Extends st.memory m
      extends = p.extends (st.die q).r st.memory

      struct : Die Value Frozen
      struct = struct_of k p (deep_copy (st.die q).r st.memory).0 (st.die q).mutable (st.die q).seal

      copied : Dies k
      copied = made k p struct st m

      here : copied.die st.count ≡ struct
      here = made_die k p struct st m

      copied_held : Held resource (copied.die st.count).r m
      copied_held =
          subst (λ (d : Die Value Frozen). Held resource d.r m) (sym here)
            (copy-Held resource p (st.die q).r st.memory)

      copied_reads : view (copied.die st.count).r m ≡ view_of k q st
      copied_reads =
          ap (λ (d : Die Value Frozen). view d.r m) here
          ∙ p.view-copy (st.die q).r st.memory (sound.r q made_q)

  -- What a stamp leaves of a sealed die.
  stamp-IsSealed :
      (q : ℕ) (st : Dies k) (v : View) (fn : Fn k) (act : View → View)
      → IsSealed v (st.die q) st.memory
      → IsLocal resource fn act
      → (view_of k (die_stamp k q fn st).0 (die_stamp k q fn st).1 ≡ act v)
        × (seal_of (die_stamp k q fn st).0 (die_stamp k q fn st).1 ≡ v)
  stamp-IsSealed q st v fn act s l = elim (Bool-cases (st.die q).mutable) [
    | inl inplace ↦
        let m = (fn (st.die q).r st.memory).1 in
        let here = set_here k p q (fed_struct k p (fn (st.die q).r st.memory).0 (st.die q)) st in
        rw (stamp_mutable k p q fn st inplace) (
          ap (λ (d : Die Value Frozen). view d.r m) here
              ∙ (l.acts (st.die q).r st.memory s.r_held ∙ ap act s.reads),
          ap (λ (d : Die Value Frozen). view d.seal m) here
              ∙ (p.view-frame (st.die q).seal st.memory m
                    (λ i o. l.kept (st.die q).r st.memory i (s.seal_held i o) (s.apart i o))
                  ∙ s.sealed),
        )
    | inr frozen ↦
        let m = (stamped k p (st.die q).r fn st.memory).1 in
        let here =
          made_die k p
            (struct_of k p (stamped k p (st.die q).r fn st.memory).0 (st.die q).mutable
              (st.die q).seal)
            st m in
        rw (stamp_immutable k p q fn st frozen) (
          ap (λ (d : Die Value Frozen). view d.r m) here
              ∙ (l.acts _ _ (copy-Held resource p (st.die q).r st.memory)
                  ∙ ap act (p.view-copy (st.die q).r st.memory s.r_held ∙ s.reads)),
          ap (λ (d : Die Value Frozen). view d.seal m) here
              ∙ (Extends-view resource p (st.die q).seal s.seal_held
                    (stamped-IsNew k p (st.die q).r fn st.memory l).extends
                  ∙ s.sealed),
        )
  ]

  -- A die that is sealed and then stamped by a local function, where resources are copied deeply
  -- and the dies refer to cells in use: what a diff or a patch compares is what the die read when
  -- it was sealed, and what the function makes of it. This holds of mutable dies, which are changed
  -- in place, as well.
  pub die_stamp-die_seal :
      (q : ℕ) (st : Dies k) (fn : Fn k) (act : View → View)
      → IsSound k st
      → q < st.count
      → IsLocal resource fn act
      → let sealed = die_seal k q st in
        let out = die_stamp k sealed.0 fn sealed.1 in
        (view_of k out.0 out.1 ≡ act (view_of k q st)) × (seal_of out.0 out.1 ≡ view_of k q st)
  die_stamp-die_seal q st fn act sound made_q l =
      stamp-IsSealed (die_seal k q st).0 (die_seal k q st).1 (view_of k q st) fn act
        (die_seal-IsSealed q st sound made_q).0 l
