-- ===== src/Dies/Blank.antt =====
-- The blank dies of a package, and what chains of calls that begin with them leave of the dies.
use ducks.Prelude.{ℕ, ◌+◌, ◌<◌, ◌≡◌, sym, ap, subst, ◌∙◌, arith, false}
use ducks.Copies.Laws.{Held, Copies, Extends-refl}
use ducks.Dies.Keeps.{view_of, IsSound, IsKept, Grows-IsKept, made, made_die, struct_of}
use ducks.Dies.Stamping.{feed_immutable}
use ducks.Dies.Chains.{Chain, IsNext, made-IsNext, IsNext-trans, Chain-IsNext}
use ducks.Dies.{DieKind, Die, Dies, die_blank}

module _ {C : Type 0} (k : DieKind C) (p : Copies k.resource) where
  open k use {resource, Frozen, freeze}
  open resource use {Value, View, view, zero}

  module _ (frozen : Frozen) (st : Dies k) where
    -- `&Die{}`
    abbrev empty : Die Value Frozen
    empty = record { frozen = frozen; mutable = false; r = zero; seal = zero }

    abbrev with_empty : Dies k
    with_empty = made k p empty st st.memory

    here : with_empty.die st.count ≡ empty
    here = made_die k p empty st st.memory

    blank_struct : Die Value Frozen
    blank_struct =
        struct_of k p zero (with_empty.die st.count).mutable (with_empty.die st.count).seal

    die_blank_eq :
        die_blank k frozen st ≡ (st.count + 1, made k p blank_struct with_empty st.memory)
    unfolding die_blank blank_struct
    die_blank_eq =
        feed_immutable k p st.count zero with_empty st.memory
          (ap (λ (d : Die Value Frozen). d.mutable) here)

    -- The blank die at `b`: immutable, and with the zero value.
    pub record IsBlank (b : ℕ) (st' : Dies k) : Type 0 where
      pub is_made : b < st'.count
      pub immutable : (st'.die b).mutable ≡ false
      pub reads : view_of k b st' ≡ view zero st.memory

    IsDeclared : ℕ × Dies k → Type 0
    IsDeclared (b, st') = IsNext k p st st' × IsBlank b st'

    module _ (s : IsSound k st) (held : Held resource zero st.memory) where
      die_blank-IsDeclared : IsDeclared (die_blank k frozen st)
      unfolding IsDeclared blank_struct
      die_blank-IsDeclared =
          let one = made-IsNext k p empty st.memory s (Extends-refl st.memory) held held in
          subst IsDeclared (sym die_blank_eq) (
            IsNext-trans k p one (
                made-IsNext k p blank_struct st.memory one.sound (Extends-refl st.memory) held
                  (one.sound.seal st.count (omega arith))),
            record {
              is_made = omega arith;
              immutable =
                  ap (λ (d : Die Value Frozen). d.mutable)
                    (made_die k p blank_struct with_empty st.memory)
                  ∙ ap (λ (d : Die Value Frozen). d.mutable) here;
              reads =
                  ap (λ (d : Die Value Frozen). view d.r st.memory)
                    (made_die k p blank_struct with_empty st.memory);
            },
          )

      next-IsBlank :
          {b : ℕ} {st₁ st₂ : Dies k}
          → IsSound k st₁
          → IsNext k p st₁ st₂
          → IsBlank b st₁
          → IsBlank b st₂
      next-IsBlank {b} s₁ n blank =
          let kept = Grows-IsKept k p s₁ n.grows in
          record {
            is_made = omega (arith, blank.is_made, n.grows.count);
            immutable =
                ap (λ (d : Die Value Frozen). d.mutable) (kept.same_die b blank.is_made)
                ∙ blank.immutable;
            reads = kept.same_view b blank.is_made ∙ blank.reads;
          }

      -- A blank die that is declared where the dies refer to cells in use, as the zero value does,
      -- and then any two chains of calls on immutable dies, one after the other, where resources are
      -- copied deeply: stamps by local functions, `DieWith` of callbacks that stamp by such
      -- functions, feeds with resources whose cells are in use, releases, copies and seals. The second chain keeps all dies that were made before it, as
      -- structs and in what can be read of their resources and seals. After it all dies refer to
      -- cells in use, and the blank die is immutable and reads as the zero value.
      pub die_blank-IsKept :
          {st₁ st₂ : Dies k}
          → Chain k p (die_blank k frozen st).1 st₁
          → Chain k p st₁ st₂
          → IsKept k st₁ st₂ × IsSound k st₂ × IsBlank (die_blank k frozen st).0 st₂
      unfolding IsDeclared
      die_blank-IsKept c d =
          let (declared, blank) = die_blank-IsDeclared in
          let first = Chain-IsNext k p declared.sound c in
          let second = Chain-IsNext k p first.sound d in
          (
            Grows-IsKept k p first.sound second.grows,
            second.sound,
            next-IsBlank first.sound second (next-IsBlank declared.sound first blank),
          )
