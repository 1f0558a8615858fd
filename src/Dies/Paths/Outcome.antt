-- ===== src/Dies/Paths/Outcome.antt =====
-- What `DieStampAt` returns and what it leaves of all dies.
use ducks.Prelude.{
  ℕ, String, ◌<◌, ◌≡◌, ◌⊎◌, inl, inr, refl, sym, ap, subst, ◌∙◌, arith, false, eqb, eqb→eq,
  Bool-cases, List, [], ◌∷◌, Option, none, some, Option-cases,
}
use ducks.Prelude.Text.{◌<>◌}
use ducks.Copies.{Memory}
use ducks.Copies.Laws.{Copies}
use ducks.Dies.Stamps.{IsLocal, IsLocal-id}
use ducks.Dies.Keeps.{view_of, IsSound, IsKept}
use ducks.Dies.Stamping.{release_immutable, die_stamp-view, die_stamp-IsKept}
use ducks.Dies.Paths.{Reflection, call_matches, call_results, call_parsed, stamp_fn, die_stamp_at}
use ducks.Dies.{DieKind, Dies, Fn, die_stamp}
use ducks.Dies.Paths.Loop.{
  ActsAt, IsUnary, AllFit, act_all, call_all, call_all-IsLocal, call_matches-cases,
}

module _ {C : Type 0} (k : DieKind C) (p : Copies k.resource) (e : Reflection k.resource) where
  open k use {resource}
  open resource use {Value, View, deep_copy}
  open e use {Callback, JsonPath, Match}

  module _ (laws : ActsAt k p e) where
    module _ (q : ℕ) (jp : String) (fn : Callback) (st : Dies k) where
      -- The resource that the callback is called for, and its memory.
      abbrev given : Value × Memory C
      given = deep_copy (st.die q).r st.memory

      -- A die that reads as `act` makes of the die at `q`, with all other dies kept.
      pub record IsStamped (act : View → View) (out : ℕ × Dies k) : Type 0 where
        pub reads : view_of k out.0 out.1 ≡ act (view_of k q st)
        pub kept : IsKept k st out.1

      -- The outcomes of `DieStampAt`, where `none` is a panic.
      pub data StampsAt : Option (ℕ × Dies k) → Type 0 where
        not_unary : ¬ IsUnary k p e fn → StampsAt none
        unparsed : IsUnary k p e fn → e.parse ("{" <> jp <> "}") ≡ none → StampsAt none
        not_found :
            {path : JsonPath} {out : ℕ × Dies k}
            → IsUnary k p e fn
            → e.parse ("{" <> jp <> "}") ≡ some path
            → e.find_results path given.0 given.1 ≡ none
            → IsStamped (λ v. v) out
            → StampsAt (some out)
        no_results :
            {path : JsonPath}
            → IsUnary k p e fn
            → e.parse ("{" <> jp <> "}") ≡ some path
            → e.find_results path given.0 given.1 ≡ some []
            → StampsAt none
        misfit :
            {path : JsonPath} {cvs : List Match} {more : List (List Match)}
            → IsUnary k p e fn
            → e.parse ("{" <> jp <> "}") ≡ some path
            → e.find_results path given.0 given.1 ≡ some (cvs ∷ more)
            → ¬ AllFit k p e fn cvs
            → StampsAt none
        stamped_at_all :
            {path : JsonPath} {cvs : List Match} {more : List (List Match)} {out : ℕ × Dies k}
            → IsUnary k p e fn
            → e.parse ("{" <> jp <> "}") ≡ some path
            → e.find_results path given.0 given.1 ≡ some (cvs ∷ more)
            → AllFit k p e fn cvs
            → IsStamped (act_all k p e laws fn cvs) out
            → StampsAt (some out)

      module _ (sound : IsSound k st) (made_q : q < st.count)
          (frozen : (st.die q).mutable ≡ false) where
        -- Where the function for the stamp is that of a local one, the stamp is that of `DieStamp`.
        stamp_eq :
            (g : Fn k)
            → stamp_fn e jp fn given.0 given.1 ≡ some (g given.0 given.1)
            → die_stamp_at k e q jp fn st ≡ some (die_stamp k q g st)
        unfolding die_stamp_at die_stamp
        stamp_eq g h = rw (release_immutable k p q st frozen, h) refl

        panic_eq : stamp_fn e jp fn given.0 given.1 ≡ none → die_stamp_at k e q jp fn st ≡ none
        unfolding die_stamp_at
        panic_eq h = rw (release_immutable k p q st frozen, h) refl

        local-IsStamped :
            (g : Fn k) (act : View → View)
            → IsLocal resource g act
            → IsStamped act (die_stamp k q g st)
        local-IsStamped g act l = record {
          reads = (die_stamp-view k p q g act st sound made_q l).0;
          kept = (die_stamp-IsKept k p q g act st sound made_q frozen l).0;
        }

        fn_unary :
            IsUnary k p e fn
            → stamp_fn e jp fn given.0 given.1
              ≡ call_parsed e fn (e.parse ("{" <> jp <> "}")) given.0 given.1
        unfolding stamp_fn
        fn_unary (one, none_out) = rw (one, none_out) refl

        IsUnary-cases :
            IsUnary k p e fn ⊎ ((¬ IsUnary k p e fn) × (stamp_fn e jp fn given.0 given.1 ≡ none))
        unfolding stamp_fn
        IsUnary-cases = elim (Option-cases (e.num_in fn)) [
          | inl no_function ↦ inr ((λ u. cc (u.0, no_function)), rw no_function refl)
          | inr (n, takes) ↦ elim (Bool-cases (eqb n 1)) [
            | inl one ↦ elim (Bool-cases (eqb (e.num_out fn) 0)) [
              | inl none_out ↦ inl (takes ∙ ap some (eqb→eq n 1 one), eqb→eq _ _ none_out)
              | inr returns ↦ inr ((λ u. ground (arith, u.1)), rw (takes, one, returns) refl)
            ]
            | inr other ↦ inr ((λ u. ground (arith, u.0, takes)), rw (takes, other) refl)
          ]
        ]

        stamp-StampsAt :
            (g : Fn k) (act : View → View)
            → IsLocal resource g act
            → stamp_fn e jp fn given.0 given.1 ≡ some (g given.0 given.1)
            → ((out : ℕ × Dies k) → IsStamped act out → StampsAt (some out))
            → StampsAt (die_stamp_at k e q jp fn st)
        stamp-StampsAt g act l h as_outcome =
            subst StampsAt (sym (stamp_eq g h)) (as_outcome _ (local-IsStamped g act l))

        panic-StampsAt :
            stamp_fn e jp fn given.0 given.1 ≡ none
            → StampsAt none
            → StampsAt (die_stamp_at k e q jp fn st)
        panic-StampsAt h outcome = subst StampsAt (sym (panic_eq h)) outcome

        found-StampsAt :
            (path : JsonPath) (results : List (List Match))
            → IsUnary k p e fn
            → e.parse ("{" <> jp <> "}") ≡ some path
            → e.find_results path given.0 given.1 ≡ some results
            → StampsAt (die_stamp_at k e q jp fn st)
        unfolding call_parsed call_results
        found-StampsAt path [] u parses finds =
            panic-StampsAt (fn_unary u ∙ rw (parses, finds) refl) (no_results u parses finds)
        found-StampsAt path (cvs ∷ more) u parses finds =
            let called : stamp_fn e jp fn given.0 given.1 ≡ call_matches e fn cvs given =
              fn_unary u ∙ rw (parses, finds) refl in
            elim (call_matches-cases k p e laws fn cvs given.0 given.1) [
              | inl (fits, same) ↦
                  stamp-StampsAt (call_all k p e laws fn cvs) (act_all k p e laws fn cvs)
                    (call_all-IsLocal k p e laws fn cvs) (called ∙ same)
                    (λ out s. stamped_at_all u parses finds fits s)
              | inr (misfits, same) ↦ panic-StampsAt (called ∙ same) (misfit u parses finds misfits)
            ]

        -- `DieStampAt` on an immutable die, where resources are copied deeply and the dies refer to
        -- cells in use, with a callback whose calls write to the resource only: it panics exactly
        -- if the callback is not a procedure of one argument, the path does not parse, there are no
        -- first results, or the callback takes one of them neither by value nor by address.
        -- Otherwise it returns a die, which reads as before if the path is not found, and else as
        -- the calls with the first results, in their order, make of it. It keeps all dies that were
        -- made.
        pub die_stamp_at-StampsAt : StampsAt (die_stamp_at k e q jp fn st)
        unfolding call_parsed call_results
        die_stamp_at-StampsAt = elim IsUnary-cases [
          | inr (not_one, panics) ↦ panic-StampsAt panics (not_unary not_one)
          | inl u ↦ elim (Option-cases (e.parse ("{" <> jp <> "}"))) [
            | inl fails ↦ panic-StampsAt (fn_unary u ∙ rw fails refl) (unparsed u fails)
            | inr (path, parses) ↦ elim (Option-cases (e.find_results path given.0 given.1)) [
              | inl missing ↦
                  stamp-StampsAt (λ r m. (r, m)) (λ v. v) (IsLocal-id resource)
                    (fn_unary u ∙ rw (parses, missing) refl) (λ out s. not_found u parses missing s)
              | inr (results, finds) ↦ found-StampsAt path results u parses finds
            ]
          ]
        ]
