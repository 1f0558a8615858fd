-- ===== src/Dies/Statuses.antt =====
-- The calls of the dies of the three statuses that set conditions: `duck_dies.go`,
-- `ducktype_dies.go` and `internal/testresources/zz_generated.die.go`. A status holds its conditions
-- in a slice; what is appended gets an array of its own.
pub mod Local
pub mod Lookup
use ducks.Prelude.{
  ℕ, String, Bool, Option, none, some, List, [], ◌∷◌, ◌++◌, eqb, if◌then◌else◌, ◌==◌,
}
use ducks.Copies.{Memory, Resource, Arrays, StoredStatus, status_deep_copy, alloc}
use ducks.Copies.Parts.{plain}
use ducks.Copies.Statuses.{status_resource}
use ducks.Dies.Types.{edit}
use ducks.Dies.{DieKind, Dies, Fn, die_stamp}

-- `metav1.Condition` and its die, of another package: `of_type` is `metav1.Condition{Type: v}`, and
-- `die` what a callback makes of a condition through a mutable die.
pub record ConditionDies : Type 1 where
  pub Condition : Type 0
  pub Callback : Type 0
  pub type_of : Condition → String
  pub of_type : String → Condition
  pub die : Callback → Condition → Condition

-- The loop: the first condition of the type is replaced, where there is one.
pub replace_first : {K : Type 0} → (K → Bool) → (K → K) → List K → Option (List K)
replace_first hit f [] = none
replace_first hit f (c ∷ cs) =
    let rest = replace_first hit f cs in
    if hit c then some (f c ∷ cs) else elim rest [ none ↦ none | some cs' ↦ some (c ∷ cs') ]

module _ {C : Type 0} (d : ConditionDies) (arrays : Arrays C d.Condition) where
  abbrev pub blank_condition : Resource C
  blank_condition = plain (d.of_type "")

  -- The dies of a status whose deep copy is `deep_copy`.
  abbrev pub status_kind : (StoredStatus → Memory C → StoredStatus × Memory C) → DieKind C
  status_kind deep_copy = record {
    resource = record (status_resource blank_condition arrays) { deep_copy = deep_copy };
    Frozen = Unit;
    freeze = λ r. record {};
  }

  abbrev pub condition_duck_status_kind : DieKind C
  condition_duck_status_kind = status_kind (status_deep_copy blank_condition arrays)

  abbrev pub write : ℕ → List d.Condition → Memory C → Memory C
  write a cs m = record m { cell = λ i. if eqb i a then arrays.array cs else m.cell i }

  abbrev pub stored_in : StoredStatus → ℕ × Memory C → StoredStatus × Memory C
  stored_in r (a, m) = (record r { conditions = some a }, m)

  -- A status whose array at `a` is overwritten, or that gets the longer one.
  abbrev pub replaced_or_appended :
      StoredStatus
      → ℕ
      → List d.Condition
      → Memory C
      → Option (List d.Condition)
      → StoredStatus × Memory C
  replaced_or_appended r a longer m none = stored_in r (alloc (arrays.array longer) m)
  replaced_or_appended r a longer m (some cs) = (r, write a cs m)

  -- The function that `ConditionDie` stamps with.
  abbrev pub condition_in :
      String → d.Callback → StoredStatus → Memory C → Option ℕ → StoredStatus × Memory C
  condition_in v fn r m none = stored_in r (alloc (arrays.array (d.die fn (d.of_type v) ∷ [])) m)
  condition_in v fn r m (some a) =
      let cs = arrays.elements (m.cell a) in
      replaced_or_appended r a (cs ++ (d.die fn (d.of_type v) ∷ [])) m
        (replace_first (λ c. v == d.type_of c) (d.die fn) cs)

  unfoldable pub condition_fn :
      String → d.Callback → StoredStatus → Memory C → StoredStatus × Memory C
  unfolding replace_first
  condition_fn v fn r m = condition_in v fn r m r.conditions

  module _ (deep_copy : StoredStatus → Memory C → StoredStatus × Memory C) where
    abbrev pub Calls : Type 0
    Calls = ℕ → Dies (status_kind deep_copy) → ℕ × Dies (status_kind deep_copy)

    unfoldable pub condition_die : String → d.Callback → Calls
    unfolding condition_fn
    condition_die v fn p = die_stamp (status_kind deep_copy) p (condition_fn v fn)

    unfoldable pub observed_generation : ℕ → Calls
    observed_generation v p =
        die_stamp (status_kind deep_copy) p
          (edit (status_kind deep_copy) λ r. record r { observed_generation = v })

    -- The caller's slice is stored as it is.
    unfoldable pub conditions : Option ℕ → Calls
    conditions v p =
        die_stamp (status_kind deep_copy) p
          (edit (status_kind deep_copy) λ r. record r { conditions = v })

    -- `InitializeConditions` of the status is given as what it makes of the status at a time.
    unfoldable pub initialize_conditions :
        {Time : Type 0} → (Time → StoredStatus → Memory C → StoredStatus × Memory C) → Time → Calls
    initialize_conditions initialize now p = die_stamp (status_kind deep_copy) p (initialize now)

  -- The calls of one die type.
  pub record StatusCalls (deep_copy : StoredStatus → Memory C → StoredStatus × Memory C)
      (Time : Type 0) : Type 0 where
    pub initialized : Time → Calls deep_copy
    pub with_generation : ℕ → Calls deep_copy
    pub with_conditions : Option ℕ → Calls deep_copy
    pub with_condition : String → d.Callback → Calls deep_copy

  -- The dies of `DuckStatus` and `DuckTypeStatus` have the same text; both copy an `apis.Status`.
  module _ (deep_copy : StoredStatus → Memory C → StoredStatus × Memory C) {Time : Type 0}
      (initialize : Time → StoredStatus → Memory C → StoredStatus × Memory C) where
    abbrev pub duck_status_calls : StatusCalls deep_copy Time
    duck_status_calls = record {
      initialized = initialize_conditions deep_copy initialize;
      with_generation = observed_generation deep_copy;
      with_conditions = conditions deep_copy;
      with_condition = condition_die deep_copy;
    }

    abbrev pub duck_type_status_calls : StatusCalls deep_copy Time
    duck_type_status_calls = record {
      initialized = initialize_conditions deep_copy initialize;
      with_generation = observed_generation deep_copy;
      with_conditions = conditions deep_copy;
      with_condition = condition_die deep_copy;
    }

  -- `ConditionDuckStatusDie` has no `InitializeConditions`.
  abbrev OwnCalls : Type 0
  OwnCalls = Calls (status_deep_copy blank_condition arrays)

  unfoldable pub condition_duck_condition_die : String → d.Callback → OwnCalls
  condition_duck_condition_die = condition_die (status_deep_copy blank_condition arrays)

  unfoldable pub condition_duck_observed_generation : ℕ → OwnCalls
  condition_duck_observed_generation = observed_generation (status_deep_copy blank_condition arrays)

  unfoldable pub condition_duck_conditions : Option ℕ → OwnCalls
  condition_duck_conditions = conditions (status_deep_copy blank_condition arrays)
