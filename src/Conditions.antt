-- ===== src/Conditions.antt =====
-- The package `reconciler.io/runtime/apis`: the conditions of a status and their managers. The
-- program builds a condition set with `NewLivingConditionSetWithHappyReason`, and reads and marks
-- conditions through it. The package is not part of the repository: it is the parameter
-- `Conditions`, with what its documentation says of a living set with distinct dependents.
use ducks.Prelude.{String, ◌≡◌, ◌≢◌, Bool, true, false, ◌&&◌, List, [], ◌∷◌, In, Option}

pub record Conditions : Type 1 where
  pub Status : Type 0
  pub ConditionSet : Type 0
  pub Condition : Type 0
  -- `apis.Status{}`, the status of an object that no reconciler has seen.
  pub blank : Status
  -- `NewLivingConditionSetWithHappyReason happy dependents...`
  pub living_set : String → List String → ConditionSet
  pub initialize : ConditionSet → Status → Status
  pub get_condition : ConditionSet → String → Status → Option Condition
  -- `apis.ConditionIsTrue`, false for a condition that is not there.
  pub condition_is_true : Option Condition → Bool
  -- The marks take the condition's type, a reason and a message.
  pub mark_true : ConditionSet → String → String → String → Status → Status
  pub mark_false : ConditionSet → String → String → String → Status → Status
  pub mark_unknown : ConditionSet → String → String → String → Status → Status

pub data Verdict : Type 0 where
  marked_true marked_false marked_unknown : Verdict

abbrev pub holds : Verdict → Bool
holds marked_true = true
holds marked_false = false
holds marked_unknown = false

module _ (c : Conditions) where
  abbrev pub mark : Verdict → c.ConditionSet → String → String → String → c.Status → c.Status
  mark marked_true = c.mark_true
  mark marked_false = c.mark_false
  mark marked_unknown = c.mark_unknown

  abbrev pub is_true : c.ConditionSet → String → c.Status → Bool
  is_true set type s = c.condition_is_true (c.get_condition set type s)

  abbrev pub all_true : c.ConditionSet → List String → c.Status → Bool
  all_true set [] s = true
  all_true set (type ∷ types) s = is_true set type s && all_true set types s

-- A mark sets the condition that it names and no other dependent. It makes the happy condition
-- true exactly when it leaves every dependent true. A blank status has no true condition.
pub record LivingSets (c : Conditions) : Type 0 where
  pub mark_self :
      (happy : String) (types : List String) (v : Verdict) (type reason message : String)
      (s : c.Status)
      → ¬ In happy types
      → In type types
      → is_true c
          (c.living_set happy types)
          type
          (mark c v (c.living_set happy types) type reason message s)
        ≡ holds v
  pub mark_other :
      (happy : String) (types : List String) (v : Verdict) (type other reason message : String)
      (s : c.Status)
      → ¬ In happy types
      → In type types
      → In other types
      → other ≢ type
      → is_true c
          (c.living_set happy types)
          other
          (mark c v (c.living_set happy types) type reason message s)
        ≡ is_true c (c.living_set happy types) other s
  pub mark_happy :
      (happy : String) (types : List String) (v : Verdict) (type reason message : String)
      (s : c.Status)
      → ¬ In happy types
      → In type types
      → is_true c
          (c.living_set happy types)
          happy
          (mark c v (c.living_set happy types) type reason message s)
        ≡ (holds v
            && all_true c
                (c.living_set happy types)
                types
                (mark c v (c.living_set happy types) type reason message s))
  pub blank_false : (set : c.ConditionSet) (type : String) → is_true c set type c.blank ≡ false
