-- ===== src/Dies/Paths.antt =====
-- `DieStampAt`: a callback on the parts of a resource that a JSON path finds. `none` is a panic.
pub mod Loop
pub mod Outcome
use ducks.Prelude.{
  ℕ, String, Bool, true, false, eqb, if◌then◌else◌, List, [], ◌∷◌, Option, none, some,
}
use ducks.Prelude.Text.{◌<>◌}
use ducks.Copies.{Memory, Resource}
use ducks.Dies.Codec.{and_then}
use ducks.Dies.{DieKind, Dies, die_release, feed_result}

-- The packages `reflect` and `jsonpath`. `Match` is a part of a resource that a path finds.
pub record Reflection {C : Type 0} (x : Resource C) : Type 1 where
  pub Callback : Type 0
  pub JsonPath : Type 0
  pub Match : Type 0
  -- The numbers of parameters; `none` is for a value that is no function.
  pub num_in : Callback → Option ℕ
  pub num_out : Callback → ℕ
  pub parse : String → Option JsonPath
  pub find_results : JsonPath → x.Value → Memory C → Option (List (List Match))
  -- Whether the callback takes the part, or its address, which it can only if there is one.
  pub takes_value : Callback → Match → Bool
  pub takes_address : Callback → Match → Bool
  pub call_value : Callback → Match → x.Value → Memory C → x.Value × Memory C
  pub call_address : Callback → Match → x.Value → Memory C → x.Value × Memory C

module _ {C : Type 0} {x : Resource C} (e : Reflection x) where
  open x use {Value}
  open e use {Callback, JsonPath, Match}

  -- One call, by value or else by address, and what goes on after it.
  abbrev pub call_fitting :
      (Value × Memory C → Option (Value × Memory C))
      → Callback
      → Match
      → Value
      → Memory C
      → Bool
      → Bool
      → Option (Value × Memory C)
  call_fitting go fn cv r m true _ = go (e.call_value fn cv r m)
  call_fitting go fn cv r m false true = go (e.call_address fn cv r m)
  call_fitting go fn cv r m false false = none

  -- The loop over the parts that are found.
  pub call_matches : Callback → List Match → Value × Memory C → Option (Value × Memory C)
  call_matches fn [] (r, m) = some (r, m)
  call_matches fn (cv ∷ cvs) (r, m) =
      call_fitting (call_matches fn cvs) fn cv r m (e.takes_value fn cv) (e.takes_address fn cv)

  -- An error of `FindResults` is a path that is not found; otherwise the first results are used.
  unfoldable pub call_results :
      Callback → Option (List (List Match)) → Value → Memory C → Option (Value × Memory C)
  unfolding call_matches
  call_results fn none r m = some (r, m)
  call_results fn (some []) r m = none
  call_results fn (some (cvs ∷ _)) r m = call_matches fn cvs (r, m)

  unfoldable pub call_parsed :
      Callback → Option JsonPath → Value → Memory C → Option (Value × Memory C)
  unfolding call_results
  call_parsed fn none r m = none
  call_parsed fn (some path) r m = call_results fn (e.find_results path r m) r m

  -- The function that `DieStampAt` stamps with.
  unfoldable pub stamp_fn : String → Callback → Value → Memory C → Option (Value × Memory C)
  unfolding call_parsed
  stamp_fn jp fn r m = and_then (e.num_in fn) λ n.
      if eqb n 1
      then if eqb (e.num_out fn) 0 then call_parsed fn (e.parse ("{" <> jp <> "}")) r m else none
      else none

module _ {C : Type 0} (k : DieKind C) (e : Reflection k.resource) where
  open k use {resource}
  open resource use {Value}

  abbrev pub stamped_at : ℕ → String → e.Callback → Value × Dies k → Option (ℕ × Dies k)
  stamped_at p jp fn (r, st) =
      and_then (stamp_fn e jp fn r st.memory) λ out. some (feed_result k p st out)

  unfoldable pub die_stamp_at : ℕ → String → e.Callback → Dies k → Option (ℕ × Dies k)
  unfolding stamp_fn
  die_stamp_at p jp fn st = stamped_at p jp fn (die_release k p st)
