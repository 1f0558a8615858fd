-- ===== src/Dies/Edits.antt =====
-- Stamps that set fields, one after the other, from an immutable die on.
use ducks.Prelude.{ℕ, ◌<◌, ◌≡◌, refl, ap, ◌∙◌, arith, false, inl}
use ducks.Copies.{Memory}
use ducks.Copies.Laws.{Extends, Copies, Extends-Held}
use ducks.Dies.Stamps.{IsLocal}
use ducks.Dies.Keeps.{view_of, IsSound, Grows, Grows-trans, made-Grows}
use ducks.Dies.Stamping.{stamp_immutable, die_stamp-view, die_stamp-IsKept, stamped-IsNew}
use ducks.Dies.Types.{edit}
use ducks.Dies.{DieKind, Dies, Fn, die_stamp}

module _ {C : Type 0} (k : DieKind C) where
  open k use {resource, Frozen, freeze}
  open resource use {Value, View, Owns, view}

  -- A function on values that keeps or drops references, and acts on what can be read.
  pub record IsEdit (f : Value → Value) (act : View → View) : Type 0 where
    pub owns : (r : Value) (m : Memory C) (i : ℕ) → Owns (f r) m i → Owns r m i
    pub acts : (r : Value) (m : Memory C) → view (f r) m ≡ act (view r m)

  pub IsEdit-IsLocal :
      {f : Value → Value} {act : View → View} (fn : Fn k)
      → ((r : Value) (m : Memory C) → fn r m ≡ (f r, m))
      → IsEdit f act
      → IsLocal resource fn act
  IsEdit-IsLocal {f} {act} fn same e = record {
    grows = λ r m. rw (same r m) (omega arith);
    kept = λ r m i h n. rw (same r m) refl;
    owns = λ r m i. rw (same r m) (λ o. inl (e.owns r m i o));
    acts = λ r m held. rw (same r m) (e.acts r m);
  }

  pub edit-IsLocal :
      {f : Value → Value} {act : View → View} → IsEdit f act → IsLocal resource (edit k f) act
  edit-IsLocal {f} e = IsEdit-IsLocal (edit k f) (λ r m. refl) e

  -- An immutable die that reads `v`, in a sound state that grew from `st₀`.
  pub record IsBuilt (st₀ : Dies k) (v : View) (out : ℕ × Dies k) : Type 0 where
    pub sound : IsSound k out.1
    pub made : out.0 < out.1.count
    pub frozen : (out.1.die out.0).mutable ≡ false
    pub reads : view_of k out.0 out.1 ≡ v
    pub grows : Grows k st₀ out.1

  module _ (p : Copies resource) where
    pub stamp-IsBuilt :
        {st₀ : Dies k} {v : View} {out : ℕ × Dies k} (fn : Fn k) (act : View → View)
        → IsLocal resource fn act
        → IsBuilt st₀ v out
        → IsBuilt st₀ (act v) (die_stamp k out.0 fn out.1)
    stamp-IsBuilt {st₀} {v} {out} fn act l b =
        let (kept, sound, frozen) =
          die_stamp-IsKept k p out.0 fn act out.1 b.sound b.made b.frozen l in
        let (reads, _) = die_stamp-view k p out.0 fn act out.1 b.sound b.made l in
        let new = stamped-IsNew k p (out.1.die out.0).r fn out.1.memory l in
        record {
          sound = sound;
          made = rw (stamp_immutable k p out.0 fn out.1 b.frozen) (omega arith);
          frozen = frozen;
          reads = reads ∙ ap act b.reads;
          grows = Grows-trans k b.grows (
              rw (stamp_immutable k p out.0 fn out.1 b.frozen)
                (made-Grows k p _ out.1 _ new.extends));
        }

    -- The dies stay sound in a memory that came from theirs.
    pub Extends-IsSound :
        {st : Dies k} {m : Memory C}
        → Extends st.memory m
        → IsSound k st
        → IsSound k (record st { memory = m })
    Extends-IsSound {st} {m} e s = record {
      r = λ q h. Extends-Held resource p (st.die q).r (s.r q h) e;
      seal = λ q h. Extends-Held resource p (st.die q).seal (s.seal q h) e;
    }
