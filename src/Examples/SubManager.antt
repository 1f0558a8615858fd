-- ===== src/Examples/SubManager.antt =====
-- The sub-manager theorems over a host that counts its goroutines.
use mathlib.Core.List.{erase, perm_cons_erase}
use mathlib.Core.List.Perm
use native.Mathlib.Decide.{ℕ_discrete}
use ducks.Prelude.{
  ℕ, ◌+◌, String, ◌≡◌, ◌≢◌, ◌⊎◌, refl, sym, ap, true, false, List, [], ◌∷◌, none, some,
}
use ducks.Prelude.Exec.{ok}
use ducks.Prelude.Assoc.{lookup, insert, remove}
use ducks.Api.{ObjectMeta}
use ducks.SubManager.Platform.{Host}
use ducks.SubManager.{
  SubManagerReconciler, contains, init, launch, start, setup_with_manager, validate, reconcile,
  reconcile_ready, reconcile_all,
}
use ducks.SubManager.Outcomes.{IsReady, Returns}
use ducks.SubManager.Setup.{reconcile-Reconciles}
use ducks.SubManager.Accepted.{setup_with_manager-IsReady}
use ducks.SubManager.Entries.{TypesFail}
use ducks.SubManager.Settled.{Settles, reconcile-Settles}
use ducks.SubManager.Goroutines.{Scheduler, IsQuiet, IsTracked, reconcile_all-IsTracked}

-- The name of the next goroutine, and those that are alive.
abbrev Goroutines : Type 0
Goroutines = ℕ × List ℕ

abbrev host : Host
host = record {
  World = Goroutines;
  Error = String;
  Manager = String;
  Context = ℕ;
  Goroutine = ℕ;
  Resource = ObjectMeta;
  meta = λ r. r;
  error = λ message. message;
  new_sub_manager = λ m p types w. (ok "sub", w);
  with_cancel = λ w. (w.0, w);
  cancel = λ c w. w;
  go_start = λ m c w. (w.0, (w.0 + 1, w.0 ∷ w.1));
  wait = λ g w. (w.0, erase ℕ_discrete w.1 g);
}

abbrev scheduler : Scheduler host
scheduler = record {
  alive = λ w. w.1;
  alive-new = λ m p types w. refl;
  alive-with_cancel = λ w. refl;
  alive-cancel = λ c w. refl;
  alive-go_start = λ m c w. refl;
  alive-wait = λ g w i. perm_cons_erase ℕ_discrete i;
}

abbrev finalizer : String
finalizer = "duck.reconciler.io/reconciler"

abbrev reconciler : SubManagerReconciler host
reconciler = record {
  name = "SubManagerReconciler";
  setup = none;
  sync_period = some 36000;
  assert_finalizer = finalizer;
  local_types = some (λ r w. (ok [], w));
  setup_with_sub_manager = some (λ c m r w. (ok tt, w));
  initialized = true;
  mgr = some "main";
  managers = [];
}

abbrev live : ObjectMeta
live = record { name = "a"; uid = "u"; deletion_timestamp = none; finalizers = finalizer ∷ [] }

abbrev gone : ObjectMeta
gone = record live { deletion_timestamp = some 5 }

reconciler-IsReady : IsReady host reconciler
reconciler-IsReady = record {
  initialized = refl;
  local_types = λ e. cc;
  setup_with_sub_manager = λ e. cc;
}

-- A reconciler before its setup.
abbrev unset : SubManagerReconciler host
unset = record reconciler { name = ""; sync_period = none; initialized = false; mgr = none }

setup_with_manager-IsReady_example :
    IsReady host (record unset {
      name = "SubManagerReconciler";
      sync_period = some 36000;
      initialized = true;
      mgr = some "main";
      managers = [];
    })
    × (finalizer ≢ "")
unfolding setup_with_manager init validate
setup_with_manager-IsReady_example = setup_with_manager-IsReady host unset "main" (0, []) refl

reconcile-Reconciles_example :
    Returns host reconciler live (0, []) (reconcile host reconciler live (0, []))
reconcile-Reconciles_example = reconcile-Reconciles host reconciler live (0, []) reconciler-IsReady

-- The reconciler with an entry for the resource.
abbrev running : SubManagerReconciler host
running = record reconciler { managers = ("u", record { done = 0; cancel = 0 }) ∷ [] }

running-IsReady : IsReady host running
running-IsReady = record {
  initialized = refl;
  local_types = λ e. cc;
  setup_with_sub_manager = λ e. cc;
}

reconcile-Settles_example :
    Settles host reconciler running live gone
    ⊎ (TypesFail host reconciler live (0, []) × (running ≡ reconciler))
unfolding reconcile init reconcile_ready contains lookup start launch insert remove
reconcile-Settles_example =
    reconcile-Settles host {r = reconciler} live gone (0, []) reconciler-IsReady refl refl refl refl
      refl

reconciler-IsQuiet : IsQuiet host scheduler reconciler
reconciler-IsQuiet = record {
  local_types = λ f resource w given.
      sym (ap (λ o. elim o [ none ↦ w.1 | some g ↦ (g resource w).1.1 ]) given);
  setup = λ f c m resource w given.
      sym (ap (λ o. elim o [ none ↦ w.1 | some g ↦ (g c m resource w).1.1 ]) given);
}

reconciler-IsTracked : IsTracked host scheduler reconciler (0, [])
reconciler-IsTracked = record { keyed = tt; perm = Perm.refl [] }

reconcile_all-IsTracked_example :
    (r' : SubManagerReconciler host) × (w' : Goroutines) × (reconcile_all host reconciler
        (live ∷ gone ∷ [])
        (0, [])
      ≡ some (r', w'))
    × IsTracked host scheduler r' w'
reconcile_all-IsTracked_example =
    reconcile_all-IsTracked host scheduler (live ∷ gone ∷ []) reconciler (0, []) reconciler-IsReady
      reconciler-IsQuiet reconciler-IsTracked
