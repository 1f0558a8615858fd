-- ===== src/Main.antt =====
-- The entry point, `cmd/main.go`: from the flags to a running manager, or to an exit at the first call
-- that fails.
mod Parts
pub mod Servers
use ducks.Prelude.{ℕ, String, Bool, true, false, not, List, [], ◌∷◌, ◌++◌, ◌==◌, if◌then◌else◌}
use ducks.Controller.Assembled.{ResourceReconciler, DuckTypePart, duck_type_reconciler}

-- The flags of the command, as they are parsed.
pub record Flags : Type 0 where
  pub metrics_addr : String
  pub probe_addr : String
  pub enable_leader_election : Bool
  pub secure_metrics : Bool
  pub webhook_cert_path : String
  pub webhook_cert_name : String
  pub webhook_cert_key : String
  pub metrics_cert_path : String
  pub metrics_cert_name : String
  pub metrics_cert_key : String
  pub enable_http2 : Bool

abbrev pub default_flags : Flags
default_flags = record {
  metrics_addr = "0";
  probe_addr = ":8081";
  enable_leader_election = false;
  secure_metrics = true;
  webhook_cert_path = "";
  webhook_cert_name = "tls.crt";
  webhook_cert_key = "tls.key";
  metrics_cert_path = "";
  metrics_cert_name = "tls.crt";
  metrics_cert_key = "tls.key";
  enable_http2 = false;
}

-- The two servers of the manager, each with a watcher for its certificate.
pub data Server : Type 0 where
  metrics webhook : Server

-- The functions in `TLSOpts`: `disableHTTP2`, and the one that takes the certificate of a watcher.
pub data TlsOption : Type 0 where
  http1_only : TlsOption
  certificate_of : Server → TlsOption

-- The kinds of which `main` may set up the webhook.
pub data Resource : Type 0 where
  duck duck_type : Resource

-- `ctrl.Options`, with the options of the servers in it.
pub record ManagerOptions : Type 0 where
  pub sync_period : ℕ
  pub metrics_bind_address : String
  pub secure_serving : Bool
  pub metrics_auth_filter : Bool
  pub metrics_tls : List TlsOption
  pub webhook_tls : List TlsOption
  pub health_probe_bind_address : String
  pub leader_election : Bool
  pub leader_election_id : String

-- The configuration of the controllers, by its period and whether it has a tracker.
pub record ControllerConfig : Type 0 where
  pub sync_period : ℕ
  pub with_tracker : Bool

-- A call that ends the program with exit code 1 when it fails: `ctrl.GetConfigOrDie`,
-- `certwatcher.New` with the two files, `ctrl.NewManager`, the setup of the controller and of a
-- webhook, `Add` of a watcher, the two checks, and `Start`.
pub data Call : Type 0 where
  get_config : Call
  new_watcher : Server → String → String → Call
  new_manager : ManagerOptions → Call
  set_up_controller : ResourceReconciler ControllerConfig DuckTypePart → Call
  set_up_webhook : Resource → Call
  add_watcher : Server → Call
  add_healthz_check add_readyz_check start : Call

-- Ten hours, in seconds.
abbrev pub main_sync_period : ℕ
main_sync_period = 36000

-- What stands under `len(path) > 0`, and later under a watcher that is not nil: `certwatcher.New`
-- made it exactly where there is a path, or ended the program.
abbrev pub if_given : {A : Type 0} → String → List A → List A
if_given path part = if path == "" then [] else part

unfoldable pub tls_opts : Flags → List TlsOption
tls_opts f = if not f.enable_http2 then http1_only ∷ [] else []

-- Both servers append to `tlsOpts`: no append writes into the other's array, since `tlsOpts` is nil
-- or is as long as its array.
unfoldable pub webhook_tls_opts : Flags → List TlsOption
unfolding tls_opts
webhook_tls_opts f = tls_opts f ++ if_given f.webhook_cert_path (certificate_of webhook ∷ [])

unfoldable pub metrics_tls_opts : Flags → List TlsOption
unfolding tls_opts
metrics_tls_opts f = tls_opts f ++ if_given f.metrics_cert_path (certificate_of metrics ∷ [])

unfoldable pub manager_options : Flags → ManagerOptions
unfolding webhook_tls_opts metrics_tls_opts
manager_options f = record {
  sync_period = main_sync_period;
  metrics_bind_address = f.metrics_addr;
  secure_serving = f.secure_metrics;
  metrics_auth_filter = f.secure_metrics;
  metrics_tls = metrics_tls_opts f;
  webhook_tls = webhook_tls_opts f;
  health_probe_bind_address = f.probe_addr;
  leader_election = f.enable_leader_election;
  leader_election_id = "356b570a.duck.reconciler.io";
}

-- The calls that are made where `fine` says which of them succeed, and the exit code.
unfoldable pub run_calls : (Call → Bool) → List Call → List Call × ℕ
run_calls fine [] = ([], 0)
run_calls fine (c ∷ cs) =
    let rest = run_calls fine cs in if fine c then (c ∷ rest.0, rest.1) else (c ∷ [], 1)

unfoldable pub add_watchers : Flags → List Call
add_watchers f =
    if_given f.metrics_cert_path (add_watcher metrics ∷ [])
    ++ if_given f.webhook_cert_path (add_watcher webhook ∷ [])

-- `filepath.Join` is given.
module _ (join : String → String → String) where
  unfoldable pub new_watchers : Flags → List Call
  new_watchers f =
      if_given f.webhook_cert_path (
        new_watcher webhook (join f.webhook_cert_path f.webhook_cert_name)
          (join f.webhook_cert_path f.webhook_cert_key)
        ∷ [])
      ++ if_given f.metrics_cert_path (
          new_watcher metrics (join f.metrics_cert_path f.metrics_cert_name)
            (join f.metrics_cert_path f.metrics_cert_key)
          ∷ [])

  -- The calls of `main` before `Start`, in their order.
  unfoldable pub setup_calls : Flags → List Call
  unfolding new_watchers manager_options duck_type_reconciler add_watchers
  setup_calls f =
      new_watchers f
      ++ (get_config
          ∷ new_manager (manager_options f)
          ∷ set_up_controller (
              duck_type_reconciler (record { sync_period = main_sync_period; with_tracker = true }))
          ∷ set_up_webhook Resource.duck_type
          ∷ (add_watchers f ++ (add_healthz_check ∷ add_readyz_check ∷ [])))

  unfoldable pub main : (Call → Bool) → Flags → List Call × ℕ
  unfolding run_calls setup_calls
  main fine f = run_calls fine (setup_calls f ++ (start ∷ []))
