-- ===== src/Dies/Statuses/Lookup.antt =====
-- The conditions by their types, before and after `ConditionDie`.
use ducks.Prelude.{
  ℕ, String, ◌<◌, ◌≡◌, ◌≢◌, inl, inr, refl, sym, ap, ◌∙◌, false, Option, none, some, List, [], ◌∷◌,
  if◌then◌else◌, if-true, if-false, Bool-cases, Option-cases, ◌==◌, eq_iff,
}
use ducks.Copies.{Memory, Arrays, StoredStatus}
use ducks.Copies.Laws.{Copies}
use ducks.Dies.Keeps.{view_of, IsSound, IsKept}
use ducks.Dies.Stamping.{die_stamp-view, die_stamp-IsKept}
use ducks.Dies.Statuses.{ConditionDies, replace_first, condition_fn, condition_die, status_kind}
use ducks.Dies.Statuses.Local.{set_condition, act_condition, condition_fn-IsLocal}
use ducks.Dies.{Dies}

module _ (d : ConditionDies) where
  -- The first condition of a type.
  unfoldable pub condition_of : String → List d.Condition → Option d.Condition
  condition_of w [] = none
  condition_of w (c ∷ cs) = if w == d.type_of c then some c else condition_of w cs

  abbrev pub or_of_type : String → Option d.Condition → d.Condition
  or_of_type v none = d.of_type v
  or_of_type v (some c) = c

  set_step :
      (v : String) (fn : d.Callback) (c : d.Condition) (cs : List d.Condition)
      → set_condition d v fn (c ∷ cs)
        ≡ (if v == d.type_of c then d.die fn c ∷ cs else c ∷ set_condition d v fn cs)
  unfolding set_condition replace_first
  set_step v fn c cs = elim (Bool-cases (v == d.type_of c)) [
    | inl hit ↦ rw hit refl
    | inr miss ↦ elim (Option-cases (replace_first (λ c. v == d.type_of c) (d.die fn) cs)) [
      | inl missing ↦ rw (miss, missing) refl
      | inr (cs', found) ↦ rw (miss, found) refl
    ]
  ]

  -- A callback that keeps the type, and `metav1.Condition{Type: v}`, which has it.
  pub record Keeps (fn : d.Callback) : Type 0 where
    pub type_of-die : (c : d.Condition) → d.type_of (d.die fn c) ≡ d.type_of c
    pub type_of-of_type : (v : String) → d.type_of (d.of_type v) ≡ v

  module _ (v : String) (fn : d.Callback) (keeps : Keeps fn) where
    die_hit :
        (w : String) (c : d.Condition) (cs : List d.Condition)
        → condition_of w (d.die fn c ∷ cs)
          ≡ (if w == d.type_of c then some (d.die fn c) else condition_of w cs)
    unfolding condition_of
    die_hit w c cs =
        ap (λ t. if w == t then some (d.die fn c) else condition_of w cs) (keeps.type_of-die c)

    blank_type : d.type_of (d.die fn (d.of_type v)) ≡ v
    blank_type = keeps.type_of-die (d.of_type v) ∙ keeps.type_of-of_type v

    set_condition_blank :
        condition_of v (set_condition d v fn [])
        ≡ some (d.die fn (or_of_type v (condition_of v [])))
    unfolding condition_of set_condition replace_first
    set_condition_blank = if-true _ _ ((eq_iff v _).1 (sym blank_type))

    set_condition_here :
        (cs : List d.Condition)
        → condition_of v (set_condition d v fn cs)
          ≡ some (d.die fn (or_of_type v (condition_of v cs)))
    unfolding condition_of
    set_condition_here [] = set_condition_blank
    set_condition_here (c ∷ cs) = elim (Bool-cases (v == d.type_of c)) [
      | inl hit ↦ rw (set_step v fn c cs, hit) (die_hit v c cs ∙ if-true _ _ hit)
      | inr miss ↦ rw (set_step v fn c cs, miss, miss) (set_condition_here cs)
    ]

    other_blank : (w : String) → w ≢ v → condition_of w (set_condition d v fn []) ≡ none
    unfolding condition_of set_condition replace_first
    other_blank w apart = elim (Bool-cases (w == d.type_of (d.die fn (d.of_type v)))) [
      | inl hit ↦ absurd (apart ((eq_iff w _).0 hit ∙ blank_type))
      | inr miss ↦ if-false _ _ miss
    ]

    set_condition_other :
        (w : String) (cs : List d.Condition)
        → w ≢ v
        → condition_of w (set_condition d v fn cs) ≡ condition_of w cs
    unfolding condition_of
    set_condition_other w [] apart = other_blank w apart
    set_condition_other w (c ∷ cs) apart = elim (Bool-cases (v == d.type_of c)) [
      | inl hit ↦
          let same = (eq_iff v _).0 hit in
          let miss : (w == d.type_of c) ≡ false = elim (Bool-cases (w == d.type_of c)) [
            | inl also ↦ absurd (apart ((eq_iff w _).0 also ∙ sym same))
            | inr miss ↦ miss
          ] in
          rw (set_step v fn c cs, hit)
            (die_hit w c cs ∙ (if-false _ _ miss ∙ sym (if-false _ _ miss)))
      | inr miss ↦
          rw (set_step v fn c cs, miss)
            (ap (λ r. if w == d.type_of c then some c else r) (set_condition_other w cs apart))
    ]

  module _ {C : Type 0} (arrays : Arrays C d.Condition)
      (deep_copy : StoredStatus → Memory C → StoredStatus × Memory C) where
    abbrev pub or_empty : Option (List d.Condition) → List d.Condition
    or_empty none = []
    or_empty (some cs) = cs

    -- The conditions that can be read of a die.
    abbrev pub conditions_of : ℕ → Dies (status_kind d arrays deep_copy) → List d.Condition
    conditions_of q st = or_empty (view_of (status_kind d arrays deep_copy) q st).1

    acted :
        (v : String) (fn : d.Callback) (r : ℕ × Option (List d.Condition))
        → or_empty (act_condition d arrays deep_copy v fn r).1 ≡ set_condition d v fn (or_empty r.1)
    acted v fn (g, none) = refl
    acted v fn (g, some cs) = refl

    -- `ConditionDie` on an immutable die, where the dies refer to cells in use, with deep copies of
    -- the status and a callback that keeps the type of the condition: the first condition of the
    -- type reads as what the callback makes of it, or of a blank condition of the type where there
    -- was none; the first condition of any other type is the same. All dies that were made are
    -- kept, and what can be read of them.
    pub condition_die_lem :
        (q : ℕ) (v w : String) (fn : d.Callback) (st : Dies (status_kind d arrays deep_copy))
        → Copies (status_kind d arrays deep_copy).resource
        → Keeps fn
        → IsSound (status_kind d arrays deep_copy) st
        → q < st.count
        → (st.die q).mutable ≡ false
        → w ≢ v
        → let out = condition_die d arrays deep_copy v fn q st in
          (condition_of v (conditions_of out.0 out.1)
            ≡ some (d.die fn (or_of_type v (condition_of v (conditions_of q st)))))
          × (condition_of w (conditions_of out.0 out.1) ≡ condition_of w (conditions_of q st))
          × IsKept (status_kind d arrays deep_copy) st out.1
    unfolding condition_die
    condition_die_lem q v w fn st p keeps sound made frozen apart =
        let k = status_kind d arrays deep_copy in
        let l = condition_fn-IsLocal d arrays deep_copy v fn in
        let (reads, _) =
          die_stamp-view k p q (condition_fn d arrays v fn) (act_condition d arrays deep_copy v fn)
            st sound made l in
        let (kept, _, _) =
          die_stamp-IsKept k p q (condition_fn d arrays v fn)
            (act_condition d arrays deep_copy v fn) st sound made frozen l in
        let same =
          ap (λ (r : ℕ × Option (List d.Condition)). or_empty r.1) reads
          ∙ acted v fn (view_of k q st) in
        (
          ap (condition_of v) same ∙ set_condition_here v fn keeps (conditions_of q st),
          ap (condition_of w) same ∙ set_condition_other v fn keeps w (conditions_of q st) apart,
          kept,
        )
