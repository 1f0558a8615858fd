-- ===== src/SubManager/Outcomes.antt =====
-- The outcomes of a reconcile by a reconciler that `SetupWithManager` has accepted, for
-- reconcilers/submanager.go.
use ducks.Prelude.{◌≡◌, ◌≢◌, true, false, List, none, some}
use ducks.Prelude.Text.{◌<>◌}
use ducks.Prelude.Exec.{Result, ok, err}
use ducks.Prelude.Assoc.{lookup, insert, remove}
use ducks.Schema.{GroupKind}
use ducks.SubManager.Platform.{Host}
use ducks.SubManager.{SubManagerEntry, SubManagerReconciler, contains, is_deleted, Reconciled}

module _ (h : Host) where
  open h use {World, Error, Manager, Context, Resource, meta}

  -- A reconciler that `SetupWithManager` has accepted.
  pub record IsReady (r : SubManagerReconciler h) : Type 0 where
    pub initialized : r.initialized ≡ true
    pub local_types : r.local_types ≢ none
    pub setup_with_sub_manager : r.setup_with_sub_manager ≢ none

  -- The outcomes of a reconcile of `resource` by `r` in the world `w`.
  pub data Reconciles (r : SubManagerReconciler h) (resource : Resource) (w : World)
      : Result Error Unit × SubManagerReconciler h × World → Type 0 where
    nothing_to_stop :
        is_deleted h resource ≡ true
        → lookup (meta resource).uid r.managers ≡ none
        → Reconciles r resource w (ok tt, r, w)
    stopped :
        {entry : SubManagerEntry h}
        → is_deleted h resource ≡ true
        → lookup (meta resource).uid r.managers ≡ some entry
        → Reconciles r resource w (
          ok tt,
          record r { managers = remove (meta resource).uid r.managers },
          h.wait entry.done (h.cancel entry.cancel w),
        )
    no_finalizer :
        is_deleted h resource ≡ false
        → contains (meta resource).finalizers r.assert_finalizer ≡ false
        → Reconciles r resource w (
          err (h.error ("resource must contain finalizer \"" <> r.assert_finalizer <> "\"")),
          r,
          w,
        )
    already_running :
        {entry : SubManagerEntry h}
        → is_deleted h resource ≡ false
        → contains (meta resource).finalizers r.assert_finalizer ≡ true
        → lookup (meta resource).uid r.managers ≡ some entry
        → Reconciles r resource w (ok tt, r, w)
    no_types :
        {local_types : Resource → World → Result Error (List GroupKind) × World} {e : Error}
        {w₁ : World}
        → is_deleted h resource ≡ false
        → contains (meta resource).finalizers r.assert_finalizer ≡ true
        → lookup (meta resource).uid r.managers ≡ none
        → r.local_types ≡ some local_types
        → local_types resource w ≡ (err e, w₁)
        → Reconciles r resource w (ok tt, r, w₁)
    no_manager :
        {local_types : Resource → World → Result Error (List GroupKind) × World} {e : Error}
        {types : List GroupKind} {w₁ w₂ : World}
        → is_deleted h resource ≡ false
        → contains (meta resource).finalizers r.assert_finalizer ≡ true
        → lookup (meta resource).uid r.managers ≡ none
        → r.local_types ≡ some local_types
        → local_types resource w ≡ (ok types, w₁)
        → h.new_sub_manager r.mgr r.sync_period types w₁ ≡ (err e, w₂)
        → Reconciles r resource w (err e, r, w₂)
    not_set_up :
        {local_types : Resource → World → Result Error (List GroupKind) × World} {e : Error}
        {setup : Context → Manager → Resource → World → Result Error Unit × World}
        {types : List GroupKind} {mgr : Manager} {w₁ w₂ w₃ : World}
        → is_deleted h resource ≡ false
        → contains (meta resource).finalizers r.assert_finalizer ≡ true
        → lookup (meta resource).uid r.managers ≡ none
        → r.local_types ≡ some local_types
        → local_types resource w ≡ (ok types, w₁)
        → h.new_sub_manager r.mgr r.sync_period types w₁ ≡ (ok mgr, w₂)
        → r.setup_with_sub_manager ≡ some setup
        → setup (h.with_cancel w₂).0 mgr resource (h.with_cancel w₂).1 ≡ (err e, w₃)
        → Reconciles r resource w (err e, r, h.cancel (h.with_cancel w₂).0 w₃)
    launched :
        {local_types : Resource → World → Result Error (List GroupKind) × World}
        {setup : Context → Manager → Resource → World → Result Error Unit × World}
        {types : List GroupKind} {mgr : Manager} {w₁ w₂ w₃ : World}
        → is_deleted h resource ≡ false
        → contains (meta resource).finalizers r.assert_finalizer ≡ true
        → lookup (meta resource).uid r.managers ≡ none
        → r.local_types ≡ some local_types
        → local_types resource w ≡ (ok types, w₁)
        → h.new_sub_manager r.mgr r.sync_period types w₁ ≡ (ok mgr, w₂)
        → r.setup_with_sub_manager ≡ some setup
        → setup (h.with_cancel w₂).0 mgr resource (h.with_cancel w₂).1 ≡ (ok tt, w₃)
        → Reconciles r resource w (
          ok tt,
          record r {
            managers =
                insert
                  (meta resource).uid
                  (record {
                    done = (h.go_start mgr (h.with_cancel w₂).0 w₃).0;
                    cancel = (h.with_cancel w₂).0;
                  })
                  r.managers;
          },
          (h.go_start mgr (h.with_cancel w₂).0 w₃).1,
        )

  -- A call that returns with an outcome of its reconcile.
  abbrev pub Returns : SubManagerReconciler h → Resource → World → Reconciled h → Type 0
  Returns r resource w o =
      (out : Result Error Unit × SubManagerReconciler h × World) × (o ≡ some out)
      × Reconciles r resource w out
