-- ===== src/SubManager/Accepted.antt =====
-- What `SetupWithManager` accepts, and what it leaves for the reconciles.
use ducks.Prelude.{
  ◌≡◌, ◌≢◌, refl, subst, true, Option, none, some, inl, inr, sym, ◌∙◌, ap, ◌==◌, if-true, if-false,
  Bool-cases, Option-cases, arith, eq_iff, ◌⊎◌,
}
use ducks.Prelude.Exec.{Result, ok}
use ducks.SubManager.Platform.{Host}
use ducks.SubManager.{
  SubManagerReconciler, init, validate, is_nil, run_setup, Reconciled, setup_with_manager,
  with_manager,
}
use ducks.SubManager.Outcomes.{IsReady}

module _ (h : Host) where
  open h use {World, Error, Manager}

  is_nil-cases : {A : Type 0} (o : Option A) → (is_nil o ≡ true) ⊎ (o ≢ none)
  is_nil-cases none = inl refl
  is_nil-cases (some a) = inr λ e. cc

  validate-none :
      (r : SubManagerReconciler h)
      → validate h r ≡ none
      → (r.assert_finalizer ≢ "") × (r.local_types ≢ none) × (r.setup_with_sub_manager ≢ none)
  unfolding validate
  validate-none r e = elim (Bool-cases (r.assert_finalizer == "")) [
    | inl empty ↦ cc (sym (if-true _ _ empty) ∙ e)
    | inr given ↦ elim (is_nil-cases r.local_types) [
      | inl missing ↦ cc (sym (if-false _ _ given ∙ if-true _ _ missing) ∙ e)
      | inr types ↦ elim (is_nil-cases r.setup_with_sub_manager) [
        | inl missing ↦ ground (arith)
        | inr setup ↦ ((λ empty. ground (arith, eq_iff r.assert_finalizer "")), types, setup)
      ]
    ]
  ]

  init-initialized : (r r' : SubManagerReconciler h) → init h r ≡ some r' → r'.initialized ≡ true
  unfolding init
  init-initialized r r' e = elim (Bool-cases r.initialized) [
    | inl on ↦
        ap (λ o. elim o [ none ↦ true | some x ↦ x.initialized ]) (sym e ∙ if-true _ _ on) ∙ on
    | inr off ↦ elim (Option-cases r.mgr) [
      | inl missing ↦ ground arith
      | inr (m, given) ↦ ground arith
    ]
  ]

  kept :
      (r : SubManagerReconciler h) (mgr : Manager) (w : World)
      (o : Option (Manager → World → Result Error Unit × World)) {r' : SubManagerReconciler h}
      {w' : World}
      → ◌≡◌ {A = Reconciled h}
          (elim o [
            | none ↦ some (ok tt, r, w)
            | some setup ↦ some ((setup mgr w).0, r, (setup mgr w).1)
          ])
          (some (ok tt, r', w'))
      → r ≡ r'
  kept r mgr w none e = ap (λ o. elim o [ none ↦ r | some x ↦ x.1 ]) e
  kept r mgr w (some setup) e = ap (λ o. elim o [ none ↦ r | some x ↦ x.1 ]) e

  run_setup-IsReady :
      (r : SubManagerReconciler h) (mgr : Manager) (w : World) {r' : SubManagerReconciler h}
      {w' : World}
      → r.initialized ≡ true
      → run_setup h r mgr w ≡ some (ok tt, r', w')
      → IsReady h r' × (r'.assert_finalizer ≢ "")
  run_setup-IsReady r mgr w {r'} on e = elim (Option-cases (validate h r)) [
    | inr (message, bad) ↦ cc (rw (bad, run_setup) at e)
    | inl good ↦
        let same : r ≡ r' = kept r mgr w r.setup (rw (good, run_setup) at e) in
        let (finalizer, types, setup) = validate-none r good in
        subst (λ x. IsReady h x × (x.assert_finalizer ≢ "")) same
          (
            record { initialized = on; local_types = types; setup_with_sub_manager = setup },
            finalizer,
          )
  ]

  -- A reconciler that `SetupWithManager` accepts is initialized, has a finalizer and both of its
  -- functions, so that its reconciles do not panic.
  pub setup_with_manager-IsReady :
      (r : SubManagerReconciler h) (mgr : Manager) (w : World) {r' : SubManagerReconciler h}
      {w' : World}
      → setup_with_manager h r mgr w ≡ some (ok tt, r', w')
      → IsReady h r' × (r'.assert_finalizer ≢ "")
  unfolding setup_with_manager
  setup_with_manager-IsReady r mgr w e = elim (Option-cases (init h (with_manager h r mgr))) [
    | inl panics ↦ cc (rw (panics, setup_with_manager) at e)
    | inr (r₁, started) ↦
        run_setup-IsReady r₁ mgr w (init-initialized _ r₁ started)
          (rw (started, setup_with_manager) at e)
  ]
