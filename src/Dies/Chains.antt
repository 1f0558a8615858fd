-- ===== src/Dies/Chains.antt =====
-- Chains of calls on immutable dies, which begin with the blank dies of a package.
use ducks.Prelude.{
  ℕ, List, ◌+◌, ◌<◌, ◌≡◌, ◌∙◌, refl, sym, ap, subst, arith, false, eqb, if◌then◌else◌, if-false,
}
use ducks.Copies.{Memory}
use ducks.Copies.Laws.{Held, Extends, Copies, Extends-refl, Extends-trans, Extends-Held, copy-Held}
use ducks.Dies.With.{built, built-IsBuilding, with-eq}
use ducks.Dies.With.Building.{stamps, IsBuilding, fed}
use ducks.Dies.With.Sound.{copied_each-IsSound}
use ducks.Dies.Stamps.{LocalFn, act_each, IsLocal, IsNew-Held}
use ducks.Dies.Keeps.{
  view_of, IsSound, Grows, Grows-trans, made, made-Grows, made_die, struct_of, made-IsSound,
}
use ducks.Dies.Stamping.{release_immutable, feed_immutable, stamp_immutable, stamped-IsNew}
use ducks.Dies.{
  DieKind, Die, Dies, Fn, die_with, set_die, die_feed, die_stamp, die_release, die_seal,
  die_seal_feed, deep_copy_die, sealed_copy,
}

module _ {C : Type 0} (k : DieKind C) (p : Copies k.resource) where
  open k use {resource, Frozen, freeze}
  open resource use {Value, View, view, zero, deep_copy}

  -- One call on an immutable die that is made; `DieFeed` is given a resource whose cells are in use.
  pub data Call (st : Dies k) : Dies k → Type 0 where
    stamping :
        (q : ℕ) (fn : Fn k) (act : View → View)
        → q < st.count
        → (st.die q).mutable ≡ false
        → IsLocal resource fn act
        → Call st (die_stamp k q fn st).1
    feeding :
        (q : ℕ) (r : Value)
        → q < st.count
        → (st.die q).mutable ≡ false
        → Held resource r st.memory
        → Call st (die_feed k q r st).1
    building :
        (blank q : ℕ) (fs : List (LocalFn resource))
        → blank < st.count
        → (st.die blank).mutable ≡ false
        → q < st.count
        → (st.die q).mutable ≡ false
        → Call st (die_with k blank q (stamps k p fs) st).1
    releasing : (q : ℕ) → q < st.count → (st.die q).mutable ≡ false → Call st (die_release k q st).1
    copying : (q : ℕ) → q < st.count → (st.die q).mutable ≡ false → Call st (deep_copy_die k q st).1
    sealing : (q : ℕ) → q < st.count → (st.die q).mutable ≡ false → Call st (die_seal k q st).1

  pub data Chain (st : Dies k) : Dies k → Type 0 where
    nothing : Chain st st
    next : {st₁ st₂ : Dies k} → Chain st st₁ → Call st₁ st₂ → Chain st st₂

  -- What a call comes to.
  pub record IsNext (st st' : Dies k) : Type 0 where
    pub grows : Grows k st st'
    pub sound : IsSound k st'

  pub made-IsNext :
      {st : Dies k} (d : Die Value Frozen) (m : Memory C)
      → IsSound k st
      → Extends st.memory m
      → Held resource d.r m
      → Held resource d.seal m
      → IsNext st (made k p d st m)
  made-IsNext {st} d m s e r seal = record {
    grows = made-Grows k p d st m e;
    sound = made-IsSound k p d m s e r seal;
  }

  pub IsNext-trans : {st st₁ st₂ : Dies k} → IsNext st st₁ → IsNext st₁ st₂ → IsNext st st₂
  IsNext-trans a b = record { grows = Grows-trans k a.grows b.grows; sound = b.sound }

  -- The seal of a die that is made at once gets its place.
  reseal-made :
      (d d' : Die Value Frozen) (st : Dies k) (m m' : Memory C)
      → set_die k st.count d' (record (made k p d st m) { memory = m' }) ≡ made k p d' st m'
  reseal-made d d' st m m' =
      ap (λ f. record { memory = m'; count = st.count + 1; die = f }) (λ i j. same j i)
    where
      same :
          (j : ℕ)
          → (if eqb j st.count then d' else (if eqb j st.count then d else st.die j))
            ≡ (if eqb j st.count then d' else st.die j)
      same j = ground arith

  seal_immutable :
      (q : ℕ) (st : Dies k)
      → (st.die q).mutable ≡ false
      → die_seal k q st ≡ sealed_copy k (st.die q).r (deep_copy_die k q st)
  unfolding die_seal die_seal_feed
  seal_immutable q st e =
      ap (sealed_copy k (st.die q).r) (if-false (q, st) (deep_copy_die k q st) e)

  sealing-IsNext :
      (q : ℕ) (st : Dies k)
      → IsSound k st
      → q < st.count
      → (st.die q).mutable ≡ false
      → IsNext st (die_seal k q st).1
  unfolding deep_copy_die
  sealing-IsNext q st s h frozen =
      subst (λ (o : ℕ × Dies k). IsNext st o.1) (sym (seal_immutable q st frozen))
        (subst (IsNext st) (sym (reseal-made struct sealed st m (deep_copy r m).1)) (
          made-IsNext sealed (deep_copy r m).1 s
            (Extends-trans (p.extends r st.memory) (p.extends r m))
            (Extends-Held resource p sealed.r held (p.extends r m)) (copy-Held resource p r m)))
    where
      r : Value
      r = (st.die q).r

      m : Memory C
      m = (deep_copy r st.memory).1

      struct : Die Value Frozen
      struct = struct_of k p (deep_copy r st.memory).0 (st.die q).mutable (st.die q).seal

      sealed : Die Value Frozen
      sealed = record ((made k p struct st m).die st.count) { seal = (deep_copy r m).0 }

      held : Held resource sealed.r m
      held =
          subst (λ (d : Die Value Frozen). Held resource d.r m) (sym (made_die k p struct st m))
            (copy-Held resource p r st.memory)

  feeding-IsNext :
      (q : ℕ) (r : Value) (st : Dies k)
      → IsSound k st
      → q < st.count
      → (st.die q).mutable ≡ false
      → Held resource r st.memory
      → IsNext st (die_feed k q r st).1
  feeding-IsNext q r st s h frozen held =
      rw (feed_immutable k p q r st st.memory frozen)
        (made-IsNext _ _ s (Extends-refl st.memory) held (s.seal q h))

  building-IsNext :
      (blank q : ℕ) (fs : List (LocalFn resource)) (st : Dies k)
      → IsSound k st
      → blank < st.count
      → (st.die blank).mutable ≡ false
      → q < st.count
      → (st.die q).mutable ≡ false
      → IsNext st (die_with k blank q (stamps k p fs) st).1
  building-IsNext blank q fs st s made_blank blank_frozen h frozen =
      subst (λ (o : ℕ × Dies k). IsNext st o.1)
        (sym (
          with-eq k p blank q fs st r m extends held reads blank_frozen
            (release_immutable k p q st frozen)))
        (IsNext-trans (record { grows = b.grows; sound = sound })
          (feeding-IsNext q _ _ sound (omega (arith, h, b.grows.count))
            (ap (λ (d : Die Value Frozen). d.mutable) (b.grows.die q h) ∙ frozen)
            (IsNew-Held resource b.new)))
    where
      r : Value
      r = (deep_copy (st.die q).r st.memory).0

      m : Memory C
      m = (deep_copy (st.die q).r st.memory).1

      extends : Extends st.memory m
      extends = p.extends (st.die q).r st.memory

      held : Held resource r m
      held = copy-Held resource p (st.die q).r st.memory

      reads : view r m ≡ view_of k q st
      reads = p.view-copy (st.die q).r st.memory (s.r q h)

      after : Dies k
      after = built k p blank q fs st r m extends held reads blank_frozen

      b : IsBuilding k p st (st.count + 1) after (act_each resource fs (view_of k q st))
      b = built-IsBuilding k p blank q fs st r m extends held reads blank_frozen

      sound : IsSound k after
      sound =
          copied_each-IsSound k p fs st.count
            (fed k p st blank r m (view_of k q st) extends held reads blank_frozen)
            (made-IsSound k p (struct_of k p r (st.die blank).mutable (st.die blank).seal) m s
              extends held
              (Extends-Held resource p (st.die blank).seal (s.seal blank made_blank) extends))
            (omega arith)

  Call-IsNext : {st st' : Dies k} → IsSound k st → Call st st' → IsNext st st'
  unfolding deep_copy_die
  Call-IsNext {st} s (stamping q fn act h frozen l) =
      let new = stamped-IsNew k p (st.die q).r fn st.memory l in
      rw (stamp_immutable k p q fn st frozen) (
        made-IsNext _ _ s new.extends (IsNew-Held resource new)
          (Extends-Held resource p (st.die q).seal (s.seal q h) new.extends))
  Call-IsNext {st} s (feeding q r h frozen held) = feeding-IsNext q r st s h frozen held
  Call-IsNext {st} s (building blank q fs made_blank blank_frozen h frozen) =
      building-IsNext blank q fs st s made_blank blank_frozen h frozen
  Call-IsNext {st} s (releasing q h frozen) = rw (release_immutable k p q st frozen) (record {
    grows = record {
      extends = p.extends (st.die q).r st.memory;
      count = omega arith;
      die = λ j i. refl;
    };
    sound = record {
      r = λ j i. Extends-Held resource p (st.die j).r (s.r j i) (p.extends (st.die q).r st.memory);
      seal = λ j i.
          Extends-Held resource p (st.die j).seal (s.seal j i) (p.extends (st.die q).r st.memory);
    };
  })
  Call-IsNext {st} s (copying q h frozen) =
      let extends = p.extends (st.die q).r st.memory in
      made-IsNext _ _ s extends (copy-Held resource p (st.die q).r st.memory)
        (Extends-Held resource p (st.die q).seal (s.seal q h) extends)
  Call-IsNext {st} s (sealing q h frozen) = sealing-IsNext q st s h frozen

  pub Chain-IsNext : {st st' : Dies k} → IsSound k st → Chain st st' → IsNext st st'
  Chain-IsNext {st} s nothing = record {
    grows = record { extends = Extends-refl st.memory; count = omega arith; die = λ q h. refl };
    sound = s;
  }
  Chain-IsNext s (next c call) =
      let so_far = Chain-IsNext s c in IsNext-trans so_far (Call-IsNext so_far.sound call)
