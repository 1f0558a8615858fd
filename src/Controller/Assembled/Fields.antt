-- ===== src/Controller/Assembled/Fields.antt =====
-- The fields that `SetupWithManager` gives to `DuckSubReconciler` of
-- `internal/controller/ducktype_controller.go`, before and after reconciles.
use Prim.Native.Char.{Char}
use ducks.Prelude.{◌≡◌, refl, ap, subst, true, List, none, some}
use ducks.Prelude.Exec.{Result, ok}
use ducks.Schema.{Schema, GroupKind}
use ducks.Routing.{local_types}
use ducks.SubManager.Platform.{Host}
use ducks.SubManager.{SubManagerReconciler, init, validate, setup_with_manager}
use ducks.SubManager.Outcomes.{
  IsReady, Reconciles, nothing_to_stop, stopped, no_finalizer, already_running, no_types,
  no_manager, not_set_up, launched,
}
use ducks.Controller.Assembled.{
  Kit, reconciler_finalizer, sync_period, setup_ducks, duck_sub_reconciler,
}

module _ (s : Schema) (lower : Char → Char) (h : Host) {S : Type 0} (k : Kit h S) where
  open h use {World, Error, Manager, Resource}

  abbrev pub types_of : Resource → World → Result Error (List GroupKind) × World
  types_of resource w = (ok (local_types (k.duck_type resource)), w)

  -- The fields that no reconcile changes.
  pub record IsAssembled (mgr : Manager) (r : SubManagerReconciler h) : Type 0 where
    pub initialized : r.initialized ≡ true
    pub finalizer : r.assert_finalizer ≡ reconciler_finalizer
    pub period : r.sync_period ≡ some sync_period
    pub manager : r.mgr ≡ some mgr
    pub types : r.local_types ≡ some types_of
    pub setup : r.setup_with_sub_manager ≡ some (setup_ducks s lower h k)

  pub IsAssembled-IsReady :
      {mgr : Manager} {r : SubManagerReconciler h} → IsAssembled mgr r → IsReady h r
  IsAssembled-IsReady a = record {
    initialized = a.initialized;
    local_types = λ e. cc (e, a.types);
    setup_with_sub_manager = λ e. cc (e, a.setup);
  }

  same_fields :
      {mgr : Manager} {r : SubManagerReconciler h} (r' : SubManagerReconciler h)
      → IsAssembled mgr r
      → record r { managers = r'.managers } ≡ r'
      → IsAssembled mgr r'
  same_fields {mgr} {r} r' a e = subst (IsAssembled mgr) e (record {
    initialized = a.initialized;
    finalizer = a.finalizer;
    period = a.period;
    manager = a.manager;
    types = a.types;
    setup = a.setup;
  })

  pub Reconciles-IsAssembled :
      {mgr : Manager} {r : SubManagerReconciler h} {resource : Resource} {w : World}
      {out : Result Error Unit × SubManagerReconciler h × World}
      → Reconciles h r resource w out
      → IsAssembled mgr r
      → IsAssembled mgr out.1
  Reconciles-IsAssembled (nothing_to_stop _ _) a = a
  Reconciles-IsAssembled (stopped _ _) a = same_fields _ a refl
  Reconciles-IsAssembled (no_finalizer _ _) a = a
  Reconciles-IsAssembled (already_running _ _ _) a = a
  Reconciles-IsAssembled (no_types _ _ _ _ _) a = a
  Reconciles-IsAssembled (no_manager _ _ _ _ _ _) a = a
  Reconciles-IsAssembled (not_set_up _ _ _ _ _ _ _ _) a = a
  Reconciles-IsAssembled (launched _ _ _ _ _ _ _ _) a = same_fields _ a refl

  -- The reconciler after `SetupWithManager`, which accepts it.
  accepted : Manager → SubManagerReconciler h
  accepted mgr = record (duck_sub_reconciler s lower h k) {
    name = "SubManagerReconciler";
    initialized = true;
    mgr = some mgr;
  }

  pub setup_with_manager-IsAssembled :
      (mgr : Manager) (w : World) {r : SubManagerReconciler h} {w' : World}
      → setup_with_manager h (duck_sub_reconciler s lower h k) mgr w ≡ some (ok tt, r, w')
      → IsAssembled mgr r
  unfolding setup_with_manager init validate duck_sub_reconciler accepted
  setup_with_manager-IsAssembled mgr w e =
      subst (IsAssembled mgr) (ap (λ o. elim o [ none ↦ accepted mgr | some x ↦ x.1 ]) e) (record {
        initialized = refl;
        finalizer = refl;
        period = refl;
        manager = refl;
        types = refl;
        setup = refl;
      })
