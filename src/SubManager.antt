-- ===== src/SubManager.antt =====
-- The reconciler of `reconcilers/submanager.go`: it keeps one manager running for each resource,
-- from the first reconcile of the resource to the reconcile of its deletion.
pub mod Platform
pub mod Outcomes
pub mod Setup
pub mod Entries
pub mod Settled
pub mod Goroutines
pub mod Accepted
use ducks.Prelude.{
  String, Bool, true, false, not, ◌||◌, List, [], ◌∷◌, Option, none, some, ◌==◌, if◌then◌else◌, ℕ,
  ◌≡◌,
}
use ducks.Prelude.Text.{◌<>◌}
use ducks.Prelude.Exec.{Exec, Result, ok, err}
use ducks.Prelude.Assoc.{Assoc, lookup, insert, remove}
use ducks.Schema.{GroupKind}
use ducks.Api.{ObjectMeta}
use Platform.{Host}

-- `slices.Contains`
unfoldable pub contains : List String → String → Bool
contains [] s = false
contains (x ∷ xs) s = x == s || contains xs s

abbrev pub is_nil {ℓ} : {A : Type ℓ} → Option A → Bool
is_nil none = true
is_nil (some a) = false

module _ (h : Host) where
  open h use {World, Error, Manager, Context, Goroutine, Resource, meta}

  -- `subManagerEntry`
  pub record SubManagerEntry : Type 0 where
    pub done : Goroutine
    pub cancel : Context

  -- `SubManagerReconciler`; an optional function is there or is nil. `initialized` is `initOnce`,
  -- and `managers` is the map that `init` makes.
  pub record SubManagerReconciler : Type 0 where
    pub name : String
    pub setup : Option (Manager → World → Result Error Unit × World)
    pub sync_period : Option ℕ
    pub assert_finalizer : String
    pub local_types : Option (Resource → World → Result Error (List GroupKind) × World)
    pub setup_with_sub_manager :
        Option (Context → Manager → Resource → World → Result Error Unit × World)
    pub initialized : Bool
    pub mgr : Option Manager
    pub managers : Assoc SubManagerEntry

  -- Ten hours, in seconds.
  abbrev pub default_sync_period : ℕ
  default_sync_period = 36000

  abbrev or_default : Option ℕ → ℕ
  or_default none = default_sync_period
  or_default (some n) = n

  -- `init`; `none` is its panic. `initOnce` is done after a panic too: what a later call does, with the
  -- nil map, if a caller recovers from it, is not modelled.
  unfoldable pub init : SubManagerReconciler → Option SubManagerReconciler
  init r = if r.initialized then some r else elim r.mgr [
    | none ↦ none
    | some m ↦ some (record r {
      initialized = true;
      name = if r.name == "" then "SubManagerReconciler" else r.name;
      sync_period = some (or_default r.sync_period);
      managers = [];
    })
  ]

  -- What `Reconcile` and its helpers leave: the result, the reconciler and the world; `none` is a
  -- panic, of `init` or of a call of a nil function.
  abbrev pub Reconciled : Type 0
  Reconciled = Option (Result Error Unit × SubManagerReconciler × World)

  -- `shutdown`. The error that the manager ended with is logged and dropped.
  unfoldable pub shutdown : SubManagerReconciler → Resource → World → Reconciled
  shutdown r resource w = elim (lookup (meta resource).uid r.managers) [
    | none ↦ some (ok tt, r, w)
    | some entry ↦ some (
      ok tt,
      record r { managers = remove (meta resource).uid r.managers },
      h.wait entry.done (h.cancel entry.cancel w),
    )
  ]

  -- The end of `start`, once the manager is set up.
  unfoldable pub launch : SubManagerReconciler → Resource → Manager → Context → World → Reconciled
  launch r resource mgr ctx w =
      let (goroutine, w') = h.go_start mgr ctx w in
      some (
        ok tt,
        record r {
          managers =
              insert (meta resource).uid (record { done = goroutine; cancel = ctx }) r.managers;
        },
        w',
      )

  abbrev pub after_setup :
      SubManagerReconciler → Resource → Manager → Context → Result Error Unit × World → Reconciled
  after_setup r resource mgr ctx (err e, w) = some (err e, r, h.cancel ctx w)
  after_setup r resource mgr ctx (ok u, w) = launch r resource mgr ctx w

  abbrev pub set_up_with :
      Option (Context → Manager → Resource → World → Result Error Unit × World)
      → SubManagerReconciler
      → Resource
      → Manager
      → Context × World
      → Reconciled
  set_up_with none r resource mgr (ctx, w) = none
  set_up_with (some setup) r resource mgr (ctx, w) =
      after_setup r resource mgr ctx (setup ctx mgr resource w)

  abbrev pub after_new : SubManagerReconciler → Resource → Result Error Manager × World → Reconciled
  after_new r resource (err e, w) = some (err e, r, w)
  after_new r resource (ok mgr, w) =
      set_up_with r.setup_with_sub_manager r resource mgr (h.with_cancel w)

  abbrev pub after_local_types :
      SubManagerReconciler → Resource → Result Error (List GroupKind) × World → Reconciled
  after_local_types r resource (err e, w) = some (ok tt, r, w)
  after_local_types r resource (ok types, w) =
      after_new r resource (h.new_sub_manager r.mgr r.sync_period types w)

  abbrev pub start_with :
      Option (Resource → World → Result Error (List GroupKind) × World)
      → SubManagerReconciler
      → Resource
      → World
      → Reconciled
  start_with none r resource w = none
  start_with (some local_types) r resource w = after_local_types r resource (local_types resource w)

  -- `start`
  unfoldable pub start : SubManagerReconciler → Resource → World → Reconciled
  start r resource w = start_with r.local_types r resource w

  abbrev pub is_deleted : Resource → Bool
  is_deleted resource = elim (meta resource).deletion_timestamp [ none ↦ false | some t ↦ true ]

  abbrev pub is_running : SubManagerReconciler → Resource → Bool
  is_running r resource = elim (lookup (meta resource).uid r.managers) [
    | none ↦ false
    | some e ↦ true
  ]

  -- `Reconcile` after `init`.
  unfoldable pub reconcile_ready : SubManagerReconciler → Resource → World → Reconciled
  reconcile_ready r resource w =
      if is_deleted resource
      then shutdown r resource w
      else if not (contains (meta resource).finalizers r.assert_finalizer)
      then some
          (err (h.error ("resource must contain finalizer \"" <> r.assert_finalizer <> "\"")), r, w)
      else if is_running r resource
      then some (ok tt, r, w)
      else start r resource w

  abbrev pub reconcile_with : Option SubManagerReconciler → Resource → World → Reconciled
  reconcile_with none resource w = none
  reconcile_with (some r) resource w = reconcile_ready r resource w

  -- `Reconcile`
  unfoldable pub reconcile : SubManagerReconciler → Resource → World → Reconciled
  reconcile r resource w = reconcile_with (init r) resource w

  abbrev pub and_then :
      Reconciled
      → (SubManagerReconciler → World → Option (SubManagerReconciler × World))
      → Option (SubManagerReconciler × World)
  and_then none f = none
  and_then (some (result, r, w)) f = f r w

  -- One reconcile after the other, failed ones included: their errors go to the work queue.
  unfoldable pub reconcile_all :
      SubManagerReconciler → List Resource → World → Option (SubManagerReconciler × World)
  reconcile_all r [] w = some (r, w)
  reconcile_all r (resource ∷ resources) w =
      and_then (reconcile r resource w) λ r' w'. reconcile_all r' resources w'

  -- `Validate` after `init`; `none` is no error. Names have no character that `%q` escapes.
  unfoldable pub validate : SubManagerReconciler → Option String
  validate r =
      if r.assert_finalizer == ""
      then some ("SubManagerReconciler \"" <> r.name <> "\" must provide AssertFinalizer")
      else if is_nil r.local_types
      then some ("SubManagerReconciler \"" <> r.name <> "\" must implement LocalTypes")
      else if is_nil r.setup_with_sub_manager
      then some ("SubManagerReconciler \"" <> r.name <> "\" must implement SetupWithSubManager")
      else none

  abbrev pub with_manager : SubManagerReconciler → Manager → SubManagerReconciler
  with_manager r mgr = elim r.mgr [ none ↦ record r { mgr = some mgr } | some m ↦ r ]

  abbrev pub run_setup : SubManagerReconciler → Manager → World → Reconciled
  run_setup r mgr w = elim (validate r) [
    | some message ↦ some (err (h.error message), r, w)
    | none ↦ elim r.setup [
      | none ↦ some (ok tt, r, w)
      | some setup ↦ let (result, w') = setup mgr w in some (result, r, w')
    ]
  ]

  -- `SetupWithManager`
  unfoldable pub setup_with_manager : SubManagerReconciler → Manager → World → Reconciled
  unfolding validate
  setup_with_manager r mgr w = elim (init (with_manager r mgr)) [
    | none ↦ none
    | some r' ↦ run_setup r' mgr w
  ]
