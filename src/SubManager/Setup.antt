-- ===== src/SubManager/Setup.antt =====
-- Which of the outcomes of `SubManager/Outcomes.antt` a reconcile has: `Reconcile`, `start` and
-- `shutdown` in `reconcilers/submanager.go`.
use ducks.Prelude.{
  ◌≡◌, refl, Bool, true, false, not, List, Option, none, some, inl, inr, Bool-cases, if-true,
  if-false, Option-cases, ap, ◌∙◌,
}
use ducks.Prelude.Exec.{Result, ok, err, outcome_cases}
use ducks.Prelude.Assoc.{lookup}
use ducks.Schema.{GroupKind}
use ducks.SubManager.Platform.{Host}
use ducks.SubManager.{
  SubManagerEntry, SubManagerReconciler, contains, init, shutdown, launch, after_setup, set_up_with,
  start_with, after_new, after_local_types, start, is_deleted, reconcile_ready, reconcile_with,
  reconcile,
}
use ducks.SubManager.Outcomes.{
  IsReady, nothing_to_stop, stopped, no_finalizer, already_running, no_types, no_manager,
  not_set_up, launched, Returns,
}

module _ (h : Host) where
  open h use {World, Error, Manager, Context, Resource, meta}

  module _ (r : SubManagerReconciler h) (resource : Resource) (w : World)
      (ready : IsReady h r) where
    shutdown-Returns :
        is_deleted h resource ≡ true → Returns h r resource w (shutdown h r resource w)
    unfolding shutdown
    shutdown-Returns gone = elim (Option-cases (lookup (meta resource).uid r.managers)) [
      | inl absent ↦ rw (absent, shutdown) (_, refl, nothing_to_stop gone absent)
      | inr (entry, there) ↦ rw (there, shutdown) (_, refl, stopped gone there)
    ]

    -- How far `start` gets, one successful call after the other.
    start-eq :
        {types_of : Resource → World → Result Error (List GroupKind) × World}
        → r.local_types ≡ some types_of
        → start h r resource w ≡ after_local_types h r resource (types_of resource w)
    unfolding start
    start-eq t = ap (λ o. start_with h o r resource w) t

    new-eq :
        {types_of : Resource → World → Result Error (List GroupKind) × World}
        {types : List GroupKind} {w₁ : World}
        → r.local_types ≡ some types_of
        → types_of resource w ≡ (ok types, w₁)
        → start h r resource w
          ≡ after_new h r resource (h.new_sub_manager r.mgr r.sync_period types w₁)
    new-eq t typed = start-eq t ∙ ap (after_local_types h r resource) typed

    set_up-eq :
        {types_of : Resource → World → Result Error (List GroupKind) × World}
        {setup : Context → Manager → Resource → World → Result Error Unit × World}
        {types : List GroupKind} {mgr : Manager} {w₁ w₂ : World}
        → r.local_types ≡ some types_of
        → types_of resource w ≡ (ok types, w₁)
        → h.new_sub_manager r.mgr r.sync_period types w₁ ≡ (ok mgr, w₂)
        → r.setup_with_sub_manager ≡ some setup
        → start h r resource w
          ≡ after_setup h r resource mgr
              (h.with_cancel w₂).0
              (setup (h.with_cancel w₂).0 mgr resource (h.with_cancel w₂).1)
    set_up-eq {mgr = mgr} {w₂ = w₂} t typed made s =
        new-eq t typed
        ∙ (ap (after_new h r resource) made
            ∙ ap (λ o. set_up_with h o r resource mgr (h.with_cancel w₂)) s)

    abbrev is_there : Option (SubManagerEntry h) → Bool
    is_there none = false
    is_there (some entry) = true

    start-Returns :
        is_deleted h resource ≡ false
        → contains (meta resource).finalizers r.assert_finalizer ≡ true
        → lookup (meta resource).uid r.managers ≡ none
        → Returns h r resource w (start h r resource w)
    unfolding launch
    start-Returns live held new = elim (Option-cases r.local_types) [
      | inl missing ↦ absurd (ready.local_types missing)
      | inr (types_of, t) ↦ elim (outcome_cases (types_of resource w)) [
        | inr (e, w₁, failed) ↦ (
          (ok tt, r, w₁),
          start-eq t ∙ ap (after_local_types h r resource) failed,
          no_types live held new t failed,
        )
        | inl (types, w₁, typed) ↦
            elim (outcome_cases (h.new_sub_manager r.mgr r.sync_period types w₁)) [
              | inr (e, w₂, failed) ↦ (
                (err e, r, w₂),
                new-eq t typed ∙ ap (after_new h r resource) failed,
                no_manager live held new t typed failed,
              )
              | inl (mgr, w₂, made) ↦ elim (Option-cases r.setup_with_sub_manager) [
                | inl missing ↦ absurd (ready.setup_with_sub_manager missing)
                | inr (setup, s) ↦
                    elim (outcome_cases
                      (setup (h.with_cancel w₂).0 mgr resource (h.with_cancel w₂).1)) [
                        | inr (e, w₃, failed) ↦ (
                          (err e, r, h.cancel (h.with_cancel w₂).0 w₃),
                          set_up-eq t typed made s ∙ ap (after_setup h r resource mgr _) failed,
                          not_set_up live held new t typed made s failed,
                        )
                        | inl (tt, w₃, done) ↦ (
                          _,
                          set_up-eq t typed made s ∙ ap (after_setup h r resource mgr _) done,
                          launched live held new t typed made s done,
                        )
                      ]
              ]
            ]
      ]
    ]

    reconcile-ready-eq : reconcile h r resource w ≡ reconcile_ready h r resource w
    unfolding reconcile init
    reconcile-ready-eq =
        ap (λ o. reconcile_with h o resource w) (if-true (some r) _ ready.initialized)

    -- A reconcile of a live resource, by its finalizer and its entry.
    live-Returns :
        is_deleted h resource ≡ false → Returns h r resource w (reconcile_ready h r resource w)
    unfolding reconcile_ready
    live-Returns live = elim (Bool-cases (contains (meta resource).finalizers r.assert_finalizer)) [
      | inr bare ↦ (_, if-false _ _ live ∙ if-true _ _ (ap not bare), no_finalizer live bare)
      | inl held ↦ elim (Option-cases (lookup (meta resource).uid r.managers)) [
        | inr (entry, there) ↦ (
          _,
          if-false _ _ live ∙ (if-false _ _ (ap not held) ∙ if-true _ _ (ap is_there there)),
          already_running live held there,
        )
        | inl new ↦
            let (out, e, outcome) = start-Returns live held new in
            (
              out,
              if-false _ _ live
                  ∙ (if-false _ _ (ap not held) ∙ (if-false _ _ (ap is_there new) ∙ e)),
              outcome,
            )
      ]
    ]

    -- A reconcile of a reconciler that is set up returns, as `Reconciles` says: with
    -- the result, the entries and the world of one of its eight outcomes, under the conditions of
    -- that outcome.
    pub reconcile-Reconciles : Returns h r resource w (reconcile h r resource w)
    unfolding reconcile_ready
    reconcile-Reconciles =
        let (out, e, outcome) = by_deletion in (out, reconcile-ready-eq ∙ e, outcome)
      where
        by_deletion : Returns h r resource w (reconcile_ready h r resource w)
        by_deletion = elim (Bool-cases (is_deleted h resource)) [
          | inr live ↦ live-Returns live
          | inl gone ↦
              let (out, e, outcome) = shutdown-Returns gone in (out, if-true _ _ gone ∙ e, outcome)
        ]
