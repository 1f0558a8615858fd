-- ===== src/Dies/With/Building.antt =====
-- The mutable die that `DieWith` hands to its callbacks, while they stamp it.
use ducks.Prelude.{
  ℕ, ◌+◌, ◌≤◌, ◌<◌, ◌≡◌, sym, ap, subst, ◌∙◌, arith, true, false, List, [], ◌∷◌, some, if-false,
}
use ducks.Copies.{Memory}
use ducks.Copies.Laws.{Held, Extends, Copies, Extends-trans}
use ducks.Dies.Stamps.{IsNew, IsNew-Held, copy-again, local-IsNew, LocalFn, act_each}
use ducks.Dies.Keeps.{view_of, Grows, made, made-Grows, made_die, struct_of}
use ducks.Dies.Stamping.{feed_immutable, stamp_mutable, set_here, fed_struct}
use ducks.Dies.{
  DieKind, Die, Dies, Callback, same, set_die, deep_copy_die, with_mutable, die_immutable, die_feed,
  die_stamp, call_each,
}

module _ {C : Type 0} (k : DieKind C) (p : Copies k.resource) where
  open k use {resource, Frozen, freeze}
  open resource use {Value, View, view, deep_copy}

  -- The callbacks that stamp by each function.
  abbrev pub stamps : List (LocalFn resource) → List (Callback k)
  stamps [] = []
  stamps (f ∷ fs) = some (λ q st. (die_stamp k q f.fn st).1) ∷ stamps fs

  -- A mutable die that is built beside the dies of `st₀`, reading `v`.
  pub record IsBuilding (st₀ : Dies k) (nd : ℕ) (st : Dies k) (v : View) : Type 0 where
    pub mutable : (st.die nd).mutable ≡ true
    pub late : st₀.count ≤ nd
    pub grows : Grows k st₀ st
    pub new : IsNew resource st₀.memory (st.die nd).r st.memory
    pub reads : view_of k nd st ≡ v

  pub IsBuilding-stamp :
      {st₀ : Dies k} {nd : ℕ} {st : Dies k} {v : View} (f : LocalFn resource)
      → IsBuilding st₀ nd st v
      → IsBuilding st₀ nd (die_stamp k nd f.fn st).1 (f.act v)
  IsBuilding-stamp {st₀} {nd} {st} {v} f b = rw (stamp_mutable k p nd f.fn st b.mutable) (record {
    mutable = ap (λ (d : Die Value Frozen). d.mutable) here ∙ b.mutable;
    late = b.late;
    grows = record {
      extends = new.extends;
      count = b.grows.count;
      die = λ q h. ground (arith, b.late, b.grows.die q h);
    };
    new = subst (λ (d : Die Value Frozen). IsNew resource st₀.memory d.r after.1) (sym here) new;
    reads =
        ap (λ (d : Die Value Frozen). view d.r after.1) here
        ∙ (f.local.acts (st.die nd).r st.memory (IsNew-Held resource b.new) ∙ ap f.act b.reads);
  })
    where
      after : Value × Memory C
      after = f.fn (st.die nd).r st.memory

      here :
          (set_die k nd (fed_struct k p after.0 (st.die nd)) (record st { memory = after.1 })).die
            nd
          ≡ fed_struct k p after.0 (st.die nd)
      here = set_here k p nd (fed_struct k p after.0 (st.die nd)) st

      new : IsNew resource st₀.memory after.0 after.1
      new = local-IsNew resource f.local b.new

  pub IsBuilding-each :
      {st₀ : Dies k} {nd : ℕ} (fs : List (LocalFn resource)) (st : Dies k) {v : View}
      → IsBuilding st₀ nd st v
      → IsBuilding st₀ nd (call_each k (stamps fs) nd st) (act_each resource fs v)
  unfolding call_each
  IsBuilding-each [] st b = b
  IsBuilding-each {nd = nd} (f ∷ fs) st b =
      IsBuilding-each fs (die_stamp k nd f.fn st).1 (IsBuilding-stamp f b)

  -- A mutable copy of the die at `q`.
  abbrev pub mutable_copy : ℕ → Dies k → ℕ × Dies k
  mutable_copy q st = with_mutable k true (deep_copy_die k q st)

  mutable_copy-eq :
      (q : ℕ) (st : Dies k)
      → (st.die q).mutable ≡ false
      → die_immutable k q false st ≡ mutable_copy q st
  unfolding die_immutable
  mutable_copy-eq q st e = if-false _ _ (ap (λ b. same b true) e)

  pub copied_die :
      (q : ℕ) (st : Dies k)
      → ((mutable_copy q st).1.die st.count).mutable ≡ true
        × (((mutable_copy q st).1.die st.count).r ≡ (deep_copy (st.die q).r st.memory).0)
  unfolding deep_copy_die
  copied_die q st =
      let made_here = made_die k p copy_of st (deep_copy (st.die q).r st.memory).1 in
      let here = set_here k p st.count (record copied { mutable = true }) in_memory in
      (
        ap (λ (d : Die Value Frozen). d.mutable) here,
        ap (λ (d : Die Value Frozen). d.r) here ∙ ap (λ (d : Die Value Frozen). d.r) made_here,
      )
    where
      copy_of : Die Value Frozen
      copy_of =
          struct_of k p (deep_copy (st.die q).r st.memory).0 (st.die q).mutable (st.die q).seal

      in_memory : Dies k
      in_memory = made k p copy_of st (deep_copy (st.die q).r st.memory).1

      copied : Die Value Frozen
      copied = in_memory.die st.count

  pub copied_others :
      (q : ℕ) (st : Dies k) (j : ℕ) → j < st.count → (mutable_copy q st).1.die j ≡ st.die j
  unfolding deep_copy_die
  copied_others q st j h = ground arith

  -- Building starts with a mutable copy of a die that shares the resource of another one.
  module _ (st : Dies k) (blank : ℕ) (r : Value) (m : Memory C) (v : View)
      (extends : Extends st.memory m) (held : Held resource r m) (reads : view r m ≡ v)
      (frozen : (st.die blank).mutable ≡ false) where
    abbrev pub fed : Dies k
    fed = made k p (struct_of k p r (st.die blank).mutable (st.die blank).seal) st m

    fed_here : fed.die st.count ≡ struct_of k p r (st.die blank).mutable (st.die blank).seal
    fed_here = made_die k p _ st m

    pub begin_eq :
        die_immutable k
          (die_feed k blank r (record st { memory = m })).0
          false
          (die_feed k blank r (record st { memory = m })).1
        ≡ mutable_copy st.count fed
    begin_eq =
        rw (feed_immutable k p blank r st m frozen) (
          mutable_copy-eq st.count fed (ap (λ (d : Die Value Frozen). d.mutable) fed_here ∙ frozen))

    pub begin-IsBuilding : IsBuilding st (st.count + 1) (mutable_copy st.count fed).1 v
    unfolding deep_copy_die
    begin-IsBuilding = record {
      mutable = (copied_die st.count fed).0;
      late = omega arith;
      grows = record {
        extends = Extends-trans extends (p.extends source m);
        count = omega arith;
        die = λ q h.
            copied_others st.count fed q (omega arith) ∙ (made-Grows k p _ st m extends).die q h;
      };
      new =
          subst (λ x. IsNew resource st.memory x (deep_copy source m).1) (sym at_nd)
            (copy-again resource p source extends);
      reads =
          ap (λ x. view x (deep_copy source m).1) at_nd
          ∙ (p.view-copy source m (subst (λ x. Held resource x m) (sym at_fed) held)
              ∙ (ap (λ x. view x m) at_fed ∙ reads));
    }
      where
        source : Value
        source = (fed.die st.count).r

        at_fed : (fed.die st.count).r ≡ r
        at_fed = ap (λ (d : Die Value Frozen). d.r) fed_here

        at_nd : ((mutable_copy st.count fed).1.die (st.count + 1)).r ≡ (deep_copy source m).0
        at_nd = (copied_die st.count fed).1
