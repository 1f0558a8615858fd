-- ===== src/Examples/Main.antt =====
-- A start with a certificate for the metrics server, and one where it cannot be read.
use ducks.Prelude.Text.{◌<>◌}
use ducks.Prelude.{String, ◌≡◌, refl, inl, inr, Bool, true, false, [], ◌∷◌}
use ducks.Main.{
  Flags, default_flags, metrics, Call, new_watcher, run_calls, add_watchers, new_watchers,
  setup_calls, main,
}
use ducks.Main.Servers.{IsServed, main-IsServed}

abbrev slash : String → String → String
slash a b = a <> ("/" <> b)

abbrev certified : Flags
certified = record default_flags { metrics_cert_path = "/certs" }

abbrev all_fine : Call → Bool
all_fine c = true

-- The certificate of the metrics server is not there.
abbrev unreadable : Call → Bool
unreadable (new_watcher s cert key) = false
unreadable c = true

stops_early :
    main slash unreadable certified
    ≡ (new_watcher metrics "/certs/tls.crt" "/certs/tls.key" ∷ [], 1)
unfolding main setup_calls new_watchers run_calls
stops_early = refl

exits_well : (main slash all_fine certified).1 ≡ 0
unfolding main setup_calls new_watchers run_calls add_watchers
exits_well = refl

main-IsServed_example : IsServed certified metrics (main slash all_fine certified).0
unfolding main setup_calls new_watchers run_calls add_watchers
main-IsServed_example =
    main-IsServed slash certified all_fine metrics
      (inr (inr (inr (inr (inr (inr (inr (inr (inl refl)))))))))
