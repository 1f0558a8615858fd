-- ===== src/Dies/Paths/Loop.antt =====
-- The loop of `DieStampAt`: the calls with the parts that are found.
use ducks.Prelude.{
  ◌≡◌, ◌⊎◌, inl, inr, refl, true, false, if◌then◌else◌, Bool-cases, List, [], ◌∷◌, none, some,
}
use ducks.Copies.{Memory}
use ducks.Copies.Laws.{Copies}
use ducks.Dies.Stamps.{IsLocal, IsLocal-id, IsLocal-then}
use ducks.Dies.Paths.{Reflection, call_matches}
use ducks.Dies.{DieKind, Fn}

module _ {C : Type 0} (k : DieKind C) (p : Copies k.resource) (e : Reflection k.resource) where
  open k use {resource}
  open resource use {Value, View, deep_copy}
  open e use {Callback, JsonPath, Match}

  -- What a call with a part does to what can be read; it writes to the resource only.
  pub record ActsAt : Type 0 where
    pub act : Callback → Match → View → View
    pub value-IsLocal :
        (fn : Callback) (cv : Match) → IsLocal resource (e.call_value fn cv) (act fn cv)
    pub address-IsLocal :
        (fn : Callback) (cv : Match) → IsLocal resource (e.call_address fn cv) (act fn cv)

  -- A procedure of one argument.
  abbrev pub IsUnary : Callback → Type 0
  IsUnary fn = (e.num_in fn ≡ some 1) × (e.num_out fn ≡ 0)

  abbrev pub Fits : Callback → Match → Type 0
  Fits fn cv = (e.takes_value fn cv ≡ true) ⊎ (e.takes_address fn cv ≡ true)

  abbrev pub AllFit : Callback → List Match → Type 0
  AllFit fn [] = Unit
  AllFit fn (cv ∷ cvs) = Fits fn cv × AllFit fn cvs

  module _ (laws : ActsAt) where
    abbrev pub act_all : Callback → List Match → View → View
    act_all fn [] v = v
    act_all fn (cv ∷ cvs) v = act_all fn cvs (laws.act fn cv v)

    call_one : Callback → Match → Fn k
    call_one fn cv = if e.takes_value fn cv then e.call_value fn cv else e.call_address fn cv

    call_one-IsLocal :
        (fn : Callback) (cv : Match) → IsLocal resource (call_one fn cv) (laws.act fn cv)
    unfolding call_one
    call_one-IsLocal fn cv = elim (Bool-cases (e.takes_value fn cv)) [
      | inl yes_value ↦ rw yes_value (laws.value-IsLocal fn cv)
      | inr no_value ↦ rw no_value (laws.address-IsLocal fn cv)
    ]

    pub call_all : Callback → List Match → Fn k
    call_all fn [] r m = (r, m)
    call_all fn (cv ∷ cvs) r m = call_all fn cvs (call_one fn cv r m).0 (call_one fn cv r m).1

    pub call_all-IsLocal :
        (fn : Callback) (cvs : List Match) → IsLocal resource (call_all fn cvs) (act_all fn cvs)
    unfolding call_all
    call_all-IsLocal fn [] = IsLocal-id resource
    call_all-IsLocal fn (cv ∷ cvs) =
        IsLocal-then resource (call_one-IsLocal fn cv) (call_all-IsLocal fn cvs)

    -- The loop calls with every part, if they all fit, and panics otherwise.
    pub call_matches-cases :
        (fn : Callback) (cvs : List Match) (r : Value) (m : Memory C)
        → (AllFit fn cvs × (call_matches e fn cvs (r, m) ≡ some (call_all fn cvs r m)))
          ⊎ ((¬ AllFit fn cvs) × (call_matches e fn cvs (r, m) ≡ none))
    unfolding call_matches call_all call_one
    call_matches-cases fn [] r m = inl (tt, refl)
    call_matches-cases fn (cv ∷ cvs) r m = elim (Bool-cases (e.takes_value fn cv)) [
      | inl value ↦
          rw value
            (elim (call_matches-cases fn cvs (e.call_value fn cv r m).0
              (e.call_value fn cv r m).1) [
                | inl (fits, same) ↦ inl ((inl refl, fits), same)
                | inr (misfits, same) ↦ inr ((λ f. misfits f.1), same)
              ])
      | inr other ↦ elim (Bool-cases (e.takes_address fn cv)) [
        | inl address ↦
            rw (other, address)
              (elim (call_matches-cases fn cvs (e.call_address fn cv r m).0
                (e.call_address fn cv r m).1) [
                  | inl (fits, same) ↦ inl ((inr refl, fits), same)
                  | inr (misfits, same) ↦ inr ((λ f. misfits f.1), same)
                ])
        | inr neither ↦ inr (misfit other neither, rw (other, neither) refl)
      ]
    ]
      where
        misfit :
            e.takes_value fn cv ≡ false → e.takes_address fn cv ≡ false → ¬ AllFit fn (cv ∷ cvs)
        misfit a b (inl v, f) = cc (a, v)
        misfit a b (inr v, f) = cc (b, v)
