-- ===== src/SubManager/Entries.antt =====
-- What reconciles do to the entries of the reconciler.
use ducks.Prelude.{String, ◌≡◌, ◌≢◌, refl, sym, ap, subst, ◌∙◌, true, List, [], ◌∷◌, none, some}
use ducks.Prelude.Exec.{Result, ok, err}
use ducks.Prelude.Assoc.{lookup, lookup-insert_ne, lookup-remove_self, lookup-remove_ne}
use ducks.Schema.{GroupKind}
use ducks.SubManager.Platform.{Host}
use ducks.SubManager.{SubManagerReconciler, is_deleted, reconcile, reconcile_all, and_then}
use ducks.SubManager.Outcomes.{
  IsReady, Reconciles, nothing_to_stop, stopped, no_finalizer, already_running, no_types,
  no_manager, not_set_up, launched,
}
use ducks.SubManager.Setup.{reconcile-Reconciles}

module _ (h : Host) where
  open h use {World, Error, Resource, meta}

  pub Reconciles-IsReady :
      {r : SubManagerReconciler h} {resource : Resource} {w : World}
      {out : Result Error Unit × SubManagerReconciler h × World}
      → Reconciles h r resource w out
      → IsReady h r
      → IsReady h out.1
  Reconciles-IsReady (nothing_to_stop _ _) i = i
  Reconciles-IsReady (stopped _ _) i = record {
    initialized = i.initialized;
    local_types = i.local_types;
    setup_with_sub_manager = i.setup_with_sub_manager;
  }
  Reconciles-IsReady (no_finalizer _ _) i = i
  Reconciles-IsReady (already_running _ _ _) i = i
  Reconciles-IsReady (no_types _ _ _ _ _) i = i
  Reconciles-IsReady (no_manager _ _ _ _ _ _) i = i
  Reconciles-IsReady (not_set_up _ _ _ _ _ _ _ _) i = i
  Reconciles-IsReady (launched _ _ _ _ _ _ _ _) i = record {
    initialized = i.initialized;
    local_types = i.local_types;
    setup_with_sub_manager = i.setup_with_sub_manager;
  }

  pub outcome_of :
      {r : SubManagerReconciler h} {resource : Resource} (w : World)
      {out : Result Error Unit × SubManagerReconciler h × World}
      → IsReady h r
      → reconcile h r resource w ≡ some out
      → Reconciles h r resource w out
  outcome_of {r} {resource} w {out} i e =
      let (out', e', outcome) = reconcile-Reconciles h r resource w i in
      let same : out' ≡ out = cc (e', e) in rw same at outcome

  pub Reconciles-other :
      {r : SubManagerReconciler h} {resource : Resource} {w : World}
      {out : Result Error Unit × SubManagerReconciler h × World}
      → Reconciles h r resource w out
      → (uid : String) → uid ≢ (meta resource).uid
      → lookup uid out.1.managers ≡ lookup uid r.managers
  Reconciles-other {r} {resource} (stopped _ _) uid ne =
      lookup-remove_ne (meta resource).uid uid r.managers ne
  Reconciles-other {r} {resource} (launched _ _ _ _ _ _ _ _) uid ne =
      lookup-insert_ne (meta resource).uid uid _ r.managers ne
  Reconciles-other _ uid ne = refl

  Reconciles-deleted :
      {r : SubManagerReconciler h} {resource : Resource} {w : World}
      {out : Result Error Unit × SubManagerReconciler h × World}
      → Reconciles h r resource w out
      → is_deleted h resource ≡ true
      → (out.0 ≡ ok tt) × (lookup (meta resource).uid out.1.managers ≡ none)
  Reconciles-deleted (nothing_to_stop gone absent) d = (refl, absent)
  Reconciles-deleted {r} {resource} (stopped gone there) d =
      (refl, lookup-remove_self (meta resource).uid r.managers)
  Reconciles-deleted (no_finalizer live _) d = cc (live, d)
  Reconciles-deleted (already_running live _ _) d = cc (live, d)
  Reconciles-deleted (no_types live _ _ _ _) d = cc (live, d)
  Reconciles-deleted (no_manager live _ _ _ _ _) d = cc (live, d)
  Reconciles-deleted (not_set_up live _ _ _ _ _ _ _) d = cc (live, d)
  Reconciles-deleted (launched live _ _ _ _ _ _ _) d = cc (live, d)

  -- A reconcile of a deleted resource ends without an error and without an entry for the resource,
  -- and leaves the entries of all other resources as they were.
  reconcile_deleted :
      {r : SubManagerReconciler h} {resource : Resource} (w : World)
      {out : Result Error Unit × SubManagerReconciler h × World} (uid : String)
      → IsReady h r
      → is_deleted h resource ≡ true
      → reconcile h r resource w ≡ some out
      → uid ≢ (meta resource).uid
      → (out.0 ≡ ok tt)
        × (lookup (meta resource).uid out.1.managers ≡ none)
        × (lookup uid out.1.managers ≡ lookup uid r.managers)
  reconcile_deleted w uid i d e ne =
      let outcome = outcome_of w i e in
      let (fine, absent) = Reconciles-deleted outcome d in
      (fine, absent, Reconciles-other outcome uid ne)

  -- What a call of `LocalTypes` that fails looks like.
  abbrev pub TypesFail : SubManagerReconciler h → Resource → World → Type 0
  TypesFail r resource w =
      (f : Resource → World → Result Error (List GroupKind) × World) × (e : Error) × (w' : World)
      × (r.local_types ≡ some f)
      × (f resource w ≡ (err e, w'))

  -- What holds of a reconciler after each of its outcomes holds after any reconciles.
  pub reconcile_all-keeps :
      (P : SubManagerReconciler h → Type 0)
      → ((r : SubManagerReconciler h) → P r → IsReady h r)
      → ((r : SubManagerReconciler h) (resource : Resource) (w : World)
            (out : Result Error Unit × SubManagerReconciler h × World)
          → Reconciles h r resource w out
          → P r
          → P out.1)
      → (r : SubManagerReconciler h) (resources : List Resource) (w : World)
        {r' : SubManagerReconciler h} {w' : World}
      → P r
      → reconcile_all h r resources w ≡ some (r', w')
      → P r'
  unfolding reconcile_all
  reconcile_all-keeps P ready step r [] w p e =
      subst P (ap (λ o. elim o [ none ↦ r | some x ↦ x.0 ]) e) p
  reconcile_all-keeps P ready step r (resource ∷ resources) w p e =
      let (out, reconciled, outcome) = reconcile-Reconciles h r resource w (ready r p) in
      reconcile_all-keeps P ready step out.1 resources out.2 (step r resource w out outcome p)
        (sym (ap (λ o. and_then h o (λ r' w'. reconcile_all h r' resources w')) reconciled) ∙ e)
