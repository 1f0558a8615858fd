-- ===== src/Examples/Assembled.antt =====
-- The reconciler of sub-managers as the controller assembles it, at a host that counts its goroutines.
use ducks.Prelude.{ℕ, ◌+◌, String, ◌≡◌, refl, true, [], ◌∷◌, none, some}
use ducks.Prelude.Text.{◌<>◌}
use ducks.Prelude.Exec.{Result, ok}
use ducks.Prelude.Assoc.{lookup}
use ducks.Api.{DuckType}
use ducks.SubManager.Platform.{Host}
use ducks.SubManager.{
  SubManagerReconciler, init, validate, setup_with_manager, reconcile, reconcile_all, contains,
}
use ducks.Controller.Assembled.{
  Kit, duck_sub_reconciler, duck_type_reconciler, reconciler_finalizer,
}
use ducks.Controller.Assembled.Starts.{Starts, duck_sub_reconciler-Starts}
use ducks.Examples.Instances.{text_schema, flags, lower}
use ducks.Examples.Webhook.{provisioned_services}

abbrev host : Host
host = record {
  World = ℕ;
  Error = String;
  Manager = String;
  Context = ℕ;
  Goroutine = ℕ;
  Resource = DuckType flags.Status;
  meta = λ t. t.metadata;
  error = λ message. message;
  new_sub_manager = λ m p types w. (ok "sub", w);
  with_cancel = λ w. (w, w + 1);
  cancel = λ c w. w;
  go_start = λ m c w. (w, w + 1);
  wait = λ g w. w;
}

abbrev kit : Kit host flags.Status
kit = record {
  Config = String;
  from_api_version_and_kind =
      λ version kind. record { group = version; version = "v1"; kind = kind };
  group_kind_string = λ gk. gk.kind <> "." <> gk.group;
  new_config = λ m period. m;
  setup_with_manager = λ r c m w. (ok tt, w);
  duck_type = λ t. t;
}

abbrev live : DuckType flags.Status
live = record provisioned_services {
  metadata = record provisioned_services.metadata {
    deletion_timestamp = none;
    finalizers = reconciler_finalizer ∷ [];
  };
}

abbrev accepted : SubManagerReconciler host
accepted = record (duck_sub_reconciler text_schema lower host kit) {
  name = "SubManagerReconciler";
  initialized = true;
  mgr = some "main";
}

setup_accepts :
    setup_with_manager host (duck_sub_reconciler text_schema lower host kit) "main" 0
    ≡ some (ok tt, accepted, 0)
unfolding setup_with_manager init validate duck_sub_reconciler
setup_accepts = refl

none_ran : reconcile_all host accepted [] 0 ≡ some (accepted, 0)
unfolding reconcile_all
none_ran = refl

has_finalizer : contains live.metadata.finalizers reconciler_finalizer ≡ true
unfolding contains
has_finalizer = refl

no_entry : lookup live.metadata.uid accepted.managers ≡ none
unfolding duck_sub_reconciler lookup
no_entry = refl

adds_finalizer :
    (duck_type_reconciler {Config = String} "config").finalizer ≡ some reconciler_finalizer
unfolding duck_type_reconciler
adds_finalizer = refl

duck_sub_reconciler-Starts_example :
    (out : Result String Unit × SubManagerReconciler host × ℕ) × (reconcile host accepted live 0
      ≡ some out)
    × Starts text_schema lower host kit "main" accepted live 0 out
duck_sub_reconciler-Starts_example =
    duck_sub_reconciler-Starts text_schema lower host kit "config" "main" 0 [] live setup_accepts
      none_ran adds_finalizer refl has_finalizer no_entry
