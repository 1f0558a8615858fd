-- ===== src/SubManager/Settled.antt =====
-- A resource from its first reconcile to its deletion.
use ducks.Prelude.{
  String, ◌≡◌, ◌≢◌, ◌⊎◌, refl, sym, ap, ◌∙◌, true, false, none, some, some_inj, inl, inr,
}
use ducks.Prelude.Exec.{Result, ok}
use ducks.Prelude.Assoc.{lookup, remove, lookup-insert_self, lookup-remove_self, lookup-remove_ne}
use ducks.SubManager.Platform.{Host}
use ducks.SubManager.{SubManagerEntry, SubManagerReconciler, contains, is_deleted, reconcile}
use ducks.SubManager.Outcomes.{
  IsReady, Reconciles, nothing_to_stop, stopped, no_finalizer, already_running, no_types,
  no_manager, not_set_up, launched,
}
use ducks.SubManager.Setup.{reconcile-Reconciles}
use ducks.SubManager.Entries.{TypesFail, Reconciles-IsReady, Reconciles-other, outcome_of}

module _ (h : Host) where
  open h use {World, Error, Resource, meta}

  -- The reconciler and the world after the sub-manager of `entry` is stopped.
  abbrev pub stop :
      SubManagerReconciler h
      → Resource
      → SubManagerEntry h
      → World
      → Result Error Unit × SubManagerReconciler h × World
  stop r resource entry w = (
    ok tt,
    record r { managers = remove (meta resource).uid r.managers },
    h.wait entry.done (h.cancel entry.cancel w),
  )

  -- A reconcile that ends without an error finds or makes an entry, or changes nothing.
  Reconciles-Entry :
      {r : SubManagerReconciler h} {resource : Resource} {w : World}
      {out : Result Error Unit × SubManagerReconciler h × World}
      → Reconciles h r resource w out
      → is_deleted h resource ≡ false
      → out.0 ≡ ok tt
      → ((contains (meta resource).finalizers out.1.assert_finalizer ≡ true)
          × (entry : SubManagerEntry h) × (lookup (meta resource).uid out.1.managers ≡ some entry))
        ⊎ (TypesFail h r resource w × (out.1 ≡ r))
  Reconciles-Entry (nothing_to_stop gone _) live fine = cc (gone, live)
  Reconciles-Entry (stopped gone _) live fine = cc (gone, live)
  Reconciles-Entry (no_finalizer _ _) live fine = cc
  Reconciles-Entry (already_running _ held there) live fine = inl (held, _, there)
  Reconciles-Entry (no_types _ _ _ t failed) live fine = inr ((_, _, _, t, failed), refl)
  Reconciles-Entry (no_manager _ _ _ _ _ _) live fine = cc
  Reconciles-Entry (not_set_up _ _ _ _ _ _ _ _) live fine = cc
  Reconciles-Entry {r} {resource} (launched _ held _ _ _ _ _ _) live fine =
      inl (held, _, lookup-insert_self (meta resource).uid _ r.managers)

  -- A reconcile of a live resource that reports no error has an entry for it, or `LocalTypes`
  -- failed.
  reconcile_live :
      {r : SubManagerReconciler h} {resource : Resource} (w : World)
      {out : Result Error Unit × SubManagerReconciler h × World}
      → IsReady h r
      → is_deleted h resource ≡ false
      → reconcile h r resource w ≡ some out
      → out.0 ≡ ok tt
      → ((entry : SubManagerEntry h) × (lookup (meta resource).uid out.1.managers ≡ some entry))
        ⊎ TypesFail h r resource w
  reconcile_live w i live did fine = elim (Reconciles-Entry (outcome_of h w i did) live fine) [
    | inl (held, entry, there) ↦ inl (entry, there)
    | inr (failed, same) ↦ inr failed
  ]

  module _ {r : SubManagerReconciler h} (resource : Resource) {entry : SubManagerEntry h}
      (there : lookup (meta resource).uid r.managers ≡ some entry) where
    Reconciles-running :
        {w : World} {out : Result Error Unit × SubManagerReconciler h × World}
        → Reconciles h r resource w out
        → is_deleted h resource ≡ false
        → contains (meta resource).finalizers r.assert_finalizer ≡ true
        → out ≡ (ok tt, r, w)
    Reconciles-running (nothing_to_stop _ _) live held = cc
    Reconciles-running (stopped gone _) live held = cc (gone, live)
    Reconciles-running (no_finalizer _ bare) live held = cc (bare, held)
    Reconciles-running (already_running _ _ _) live held = refl
    Reconciles-running (no_types _ _ absent _ _) live held = cc (absent, there)
    Reconciles-running (no_manager _ _ absent _ _ _) live held = cc (absent, there)
    Reconciles-running (not_set_up _ _ absent _ _ _ _ _) live held = cc (absent, there)
    Reconciles-running (launched _ _ absent _ _ _ _ _) live held = cc (absent, there)

    Reconciles-stopped :
        {w : World} {out : Result Error Unit × SubManagerReconciler h × World}
        → Reconciles h r resource w out
        → is_deleted h resource ≡ true
        → out ≡ stop r resource entry w
    Reconciles-stopped (nothing_to_stop _ absent) gone = cc (absent, there)
    Reconciles-stopped {w} (stopped _ found) gone =
        ap (λ e. stop r resource e w) (some_inj.0 (sym found ∙ there))
    Reconciles-stopped (no_finalizer live _) gone = cc (live, gone)
    Reconciles-stopped (already_running live _ _) gone = cc (live, gone)
    Reconciles-stopped (no_types live _ _ _ _) gone = cc (live, gone)
    Reconciles-stopped (no_manager live _ _ _ _ _) gone = cc (live, gone)
    Reconciles-stopped (not_set_up live _ _ _ _ _ _ _) gone = cc (live, gone)
    Reconciles-stopped (launched live _ _ _ _ _ _ _) gone = cc (live, gone)

    module _ (i : IsReady h r) (w : World) where
      reconcile_running :
          is_deleted h resource ≡ false
          → contains (meta resource).finalizers r.assert_finalizer ≡ true
          → reconcile h r resource w ≡ some (ok tt, r, w)
      reconcile_running live held =
          let (out, returns, outcome) = reconcile-Reconciles h r resource w i in
          returns ∙ ap some (Reconciles-running outcome live held)

      reconcile_stopped :
          is_deleted h resource ≡ true → reconcile h r resource w ≡ some (stop r resource entry w)
      reconcile_stopped gone =
          let (out, returns, outcome) = reconcile-Reconciles h r resource w i in
          returns ∙ ap some (Reconciles-stopped outcome gone)

  -- A resource with a sub-manager, and the same resource when it is deleted.
  pub record Settles (r r₁ : SubManagerReconciler h) (live gone : Resource) : Type 0 where
    pub entry : SubManagerEntry h
    pub there : lookup (meta gone).uid r₁.managers ≡ some entry
    pub again : (w : World) → reconcile h r₁ live w ≡ some (ok tt, r₁, w)
    pub ended : (w : World) → reconcile h r₁ gone w ≡ some (stop r₁ gone entry w)
    pub cleared : lookup (meta gone).uid (remove (meta gone).uid r₁.managers) ≡ none
    pub others :
        (uid : String)
        → uid ≢ (meta gone).uid
        → lookup uid (remove (meta gone).uid r₁.managers) ≡ lookup uid r.managers

  -- A reconcile of a live resource that ends without an error either leaves the reconciler as it was,
  -- because `LocalTypes` failed, or the resource has an entry after it. In the second case another
  -- reconcile of the resource changes nothing, and a reconcile of the resource when it is deleted
  -- cancels the context of the entry, waits for its goroutine, and removes the entry; then the other
  -- entries are those from before the first reconcile.
  pub reconcile-Settles :
      {r : SubManagerReconciler h} (live gone : Resource) (w : World)
      {out : Result Error Unit × SubManagerReconciler h × World}
      → IsReady h r
      → is_deleted h live ≡ false
      → is_deleted h gone ≡ true
      → (meta gone).uid ≡ (meta live).uid
      → reconcile h r live w ≡ some out
      → out.0 ≡ ok tt
      → Settles r out.1 live gone ⊎ (TypesFail h r live w × (out.1 ≡ r))
  reconcile-Settles {r} live gone w {out} i is_live is_gone same did fine =
      let outcome = outcome_of h w i did in
      let i₁ = Reconciles-IsReady h outcome i in
      elim (Reconciles-Entry outcome is_live fine) [
        | inr unchanged ↦ inr unchanged
        | inl (held, entry, there) ↦
            let found = ap (λ uid. lookup uid out.1.managers) same ∙ there in
            inl (record {
              entry = entry;
              there = found;
              again = λ w'. reconcile_running live there i₁ w' is_live held;
              ended = λ w'. reconcile_stopped gone found i₁ w' is_gone;
              cleared = lookup-remove_self (meta gone).uid out.1.managers;
              others = λ uid ne.
                  lookup-remove_ne (meta gone).uid uid out.1.managers ne
                  ∙ Reconciles-other h outcome uid λ e. ne (e ∙ sym same);
            })
      ]
