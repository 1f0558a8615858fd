-- ===== src/Main/Servers.antt =====
-- The servers of a manager that `main` starts: their certificates, the protocol, and the webhooks.
use ducks.Prelude.{
  String, ◌≡◌, ◌≢◌, ◌↔◌, refl, subst, sym, inl, inr, Bool, false, List, [], ◌∷◌, ◌++◌, In, All,
  All-In, Bool-cases,
}
use ducks.Main.{
  Flags, Server, metrics, webhook, TlsOption, http1_only, certificate_of, Resource, ManagerOptions,
  Call, new_watcher, new_manager, set_up_webhook, add_watcher, start, if_given, tls_opts,
  webhook_tls_opts, metrics_tls_opts, manager_options, run_calls, add_watchers, new_watchers,
  setup_calls, main,
}
use ducks.Main.Parts.{In-left, In-right, In-if_given, In-cases, All-append, All-if_given}

abbrev pub cert_path : Server → Flags → String
cert_path metrics f = f.metrics_cert_path
cert_path webhook f = f.webhook_cert_path

abbrev pub tls_of : Server → ManagerOptions → List TlsOption
tls_of metrics o = o.metrics_tls
tls_of webhook o = o.webhook_tls

-- What a call of `main` is, before `Start`.
IsPlanned : Flags → Call → Type 0
IsPlanned f (new_manager o) = o ≡ manager_options f
IsPlanned f (set_up_webhook k) = k ≡ Resource.duck_type
IsPlanned f (add_watcher s) = cert_path s f ≢ ""
IsPlanned f start = ⊥
IsPlanned f _ = Unit

-- A function in `TLSOpts` of a server.
IsOption : Flags → Server → TlsOption → Type 0
IsOption f s http1_only = f.enable_http2 ≡ false
IsOption f s (certificate_of t) = (t ≡ s) × (cert_path s f ≢ "")

-- No call that is planned before `Start` is `Start`, so once it is made all others were.
module _ (fine : Call → Bool) (f : Flags) where
  not_start : (c : Call) → IsPlanned f c → start ≢ c
  unfolding IsPlanned
  not_start c h e = subst (IsPlanned f) (sym e) h

  run_calls-start :
      (cs : List Call)
      → All (IsPlanned f) cs
      → In start (run_calls fine (cs ++ (start ∷ []))).0
      → (run_calls fine (cs ++ (start ∷ []))).0 ≡ cs ++ (start ∷ [])
  unfolding run_calls
  run_calls-start [] h i = elim (Bool-cases (fine start)) [ inl e ↦ rw e | inr e ↦ rw e ]
  run_calls-start (c ∷ cs) h i = elim (Bool-cases (fine c)) [
    | inl ok ↦ elim (rw ok at i) [
      | inl e ↦ absurd (not_start c h.0 e)
      | inr j ↦ rw (ok, run_calls-start cs h.1 j)
    ]
    | inr failed ↦ elim (rw failed at i) [ inl e ↦ absurd (not_start c h.0 e) | inr j ↦ absurd j ]
  ]

-- The options besides those of the two servers' certificates and protocol, by the flags: the metrics
-- and the probes each at their own address, metrics that are served securely only with
-- authentication, the election of a leader, and ten hours between synchronizations.
pub record OfFlags (f : Flags) (o : ManagerOptions) : Type 0 where
  pub sync_period : o.sync_period ≡ 36000
  pub metrics_bind_address : o.metrics_bind_address ≡ f.metrics_addr
  pub secure_serving : o.secure_serving ≡ f.secure_metrics
  pub metrics_auth_filter : o.metrics_auth_filter ≡ f.secure_metrics
  pub health_probe_bind_address : o.health_probe_bind_address ≡ f.probe_addr
  pub leader_election : o.leader_election ≡ f.enable_leader_election
  pub leader_election_id : o.leader_election_id ≡ "356b570a.duck.reconciler.io"

-- What a server of a started manager is, where `made` are the calls.
pub record IsServed (f : Flags) (s : Server) (made : List Call) : Type 0 where
  pub options : ManagerOptions
  pub manager : (o : ManagerOptions) → In (new_manager o) made ↔ (o ≡ options)
  pub of_flags : OfFlags f options
  pub watched : In (add_watcher s) made ↔ (cert_path s f ≢ "")
  pub certified :
      (t : Server) → In (certificate_of t) (tls_of s options) ↔ ((t ≡ s) × (cert_path s f ≢ ""))
  pub http1 : In http1_only (tls_of s options) ↔ (f.enable_http2 ≡ false)
  pub webhooks : (k : Resource) → In (set_up_webhook k) made ↔ (k ≡ Resource.duck_type)

module _ (f : Flags) where
  manager_options-OfFlags : OfFlags f (manager_options f)
  unfolding manager_options
  manager_options-OfFlags = record {
    sync_period = refl;
    metrics_bind_address = refl;
    secure_serving = refl;
    metrics_auth_filter = refl;
    health_probe_bind_address = refl;
    leader_election = refl;
    leader_election_id = refl;
  }

  tls_opts-IsOption : (s : Server) → All (IsOption f s) (tls_opts f)
  unfolding tls_opts IsOption
  tls_opts-IsOption s = elim (Bool-cases f.enable_http2) [
    | inl e ↦ simp e tt
    | inr e ↦ simp e (refl, tt)
  ]

  tls_of-IsOption : (s : Server) → All (IsOption f s) (tls_of s (manager_options f))
  unfolding manager_options metrics_tls_opts webhook_tls_opts IsOption
  tls_of-IsOption metrics =
      All-append (IsOption f metrics) (tls_opts f) _ (tls_opts-IsOption metrics) (
        All-if_given (IsOption f metrics) f.metrics_cert_path (certificate_of metrics ∷ [])
          (λ given. ((refl, given), tt)))
  tls_of-IsOption webhook =
      All-append (IsOption f webhook) (tls_opts f) _ (tls_opts-IsOption webhook) (
        All-if_given (IsOption f webhook) f.webhook_cert_path (certificate_of webhook ∷ [])
          (λ given. ((refl, given), tt)))

  http1-In : (s : Server) → f.enable_http2 ≡ false → In http1_only (tls_of s (manager_options f))
  unfolding manager_options metrics_tls_opts webhook_tls_opts tls_opts
  http1-In metrics e = rw e (inl refl)
  http1-In webhook e = rw e (inl refl)

  certificate-In :
      (s : Server) → cert_path s f ≢ "" → In (certificate_of s) (tls_of s (manager_options f))
  unfolding manager_options metrics_tls_opts webhook_tls_opts
  certificate-In metrics given =
      In-right _ (tls_opts f) _
        (In-if_given _ f.metrics_cert_path (certificate_of metrics ∷ []) given (inl refl))
  certificate-In webhook given =
      In-right _ (tls_opts f) _
        (In-if_given _ f.webhook_cert_path (certificate_of webhook ∷ []) given (inl refl))

  add_watcher-In : (s : Server) → cert_path s f ≢ "" → In (add_watcher s) (add_watchers f)
  unfolding add_watchers
  add_watcher-In metrics given =
      In-left _ (if_given f.metrics_cert_path _) _
        (In-if_given _ f.metrics_cert_path (add_watcher metrics ∷ []) given (inl refl))
  add_watcher-In webhook given =
      In-right _ (if_given f.metrics_cert_path (add_watcher metrics ∷ [])) _
        (In-if_given _ f.webhook_cert_path (add_watcher webhook ∷ []) given (inl refl))

  add_watchers-IsPlanned : All (IsPlanned f) (add_watchers f)
  unfolding add_watchers IsPlanned
  add_watchers-IsPlanned =
      All-append (IsPlanned f) (if_given f.metrics_cert_path _) _
        (All-if_given (IsPlanned f) _ (add_watcher metrics ∷ []) (λ given. (given, tt)))
        (All-if_given (IsPlanned f) _ (add_watcher webhook ∷ []) (λ given. (given, tt)))

-- `filepath.Join` is given.
module _ (join : String → String → String) (f : Flags) where
  new_watchers-IsPlanned : All (IsPlanned f) (new_watchers join f)
  unfolding new_watchers IsPlanned
  new_watchers-IsPlanned =
      All-append (IsPlanned f) (if_given f.webhook_cert_path _) _
        (All-if_given (IsPlanned f) _ (new_watcher webhook _ _ ∷ []) (λ given. (tt, tt)))
        (All-if_given (IsPlanned f) _ (new_watcher metrics _ _ ∷ []) (λ given. (tt, tt)))

  setup_calls-IsPlanned : All (IsPlanned f) (setup_calls join f)
  unfolding setup_calls IsPlanned
  setup_calls-IsPlanned = All-append (IsPlanned f) (new_watchers join f) _ new_watchers-IsPlanned (
    tt,
    (
      refl,
      (
        tt,
        (
          refl,
          All-append (IsPlanned f) (add_watchers f) _ (add_watchers-IsPlanned f) (tt, (tt, tt)),
        ),
      ),
    ),
  )

  -- Every call that `main` may make.
  abbrev all_calls : List Call
  all_calls = setup_calls join f ++ (start ∷ [])

  manager-In : In (new_manager (manager_options f)) all_calls
  unfolding setup_calls
  manager-In =
      In-left _ (setup_calls join f) _ (In-right _ (new_watchers join f) _ (inr (inl refl)))

  webhook-In : In (set_up_webhook Resource.duck_type) all_calls
  unfolding setup_calls
  webhook-In =
      In-left _ (setup_calls join f) _
        (In-right _ (new_watchers join f) _ (inr (inr (inr (inl refl)))))

  watcher-In : (s : Server) → cert_path s f ≢ "" → In (add_watcher s) all_calls
  unfolding setup_calls
  watcher-In s given = In-left _ (setup_calls join f) _ (
      In-right _ (new_watchers join f) _
        (inr (inr (inr (inr (In-left _ (add_watchers f) _ (add_watcher-In f s given)))))))

  -- What the calls are, in the goal for a call that is not `Start`.
  all_calls-IsPlanned : (c : Call) → c ≢ start → In c all_calls → IsPlanned f c
  all_calls-IsPlanned c other i = elim (In-cases c (setup_calls join f) (start ∷ []) i) [
    | inl j ↦ All-In (IsPlanned f) (setup_calls join f) setup_calls-IsPlanned j
    | inr (inl e) ↦ absurd (other e)
    | inr (inr j) ↦ absurd j
  ]

  all_calls-IsServed : (s : Server) → IsServed f s all_calls
  unfolding IsPlanned IsOption
  all_calls-IsServed s = record {
    options = manager_options f;
    of_flags = manager_options-OfFlags f;
    manager = λ o. (
      all_calls-IsPlanned (new_manager o) (λ e. cc),
      λ e. subst (λ o. In (new_manager o) all_calls) (sym e) manager-In,
    );
    watched = (all_calls-IsPlanned (add_watcher s) (λ e. cc), watcher-In s);
    certified = λ t. (
      All-In (IsOption f s) _ (tls_of-IsOption f s),
      λ h.
          subst (λ t. In (certificate_of t) (tls_of s (manager_options f))) (sym h.0)
            (certificate-In f s h.1),
    );
    http1 = (All-In (IsOption f s) _ (tls_of-IsOption f s), http1-In f s);
    webhooks = λ k. (
      all_calls-IsPlanned (set_up_webhook k) (λ e. cc),
      λ e. subst (λ k. In (set_up_webhook k) all_calls) (sym e) webhook-In,
    );
  }

  -- Where `main` starts the manager, whichever calls succeed, the manager was made, with options
  -- that take the addresses of the metrics and of the probes, their security and the election of a
  -- leader from the flags, and ten hours between synchronizations. For each of its two servers, its certificate watcher was added to the manager
  -- exactly if the path of its certificate is given, and exactly then the server takes the
  -- certificate of a watcher, of its own one; the server is kept to HTTP/1.1 exactly if HTTP/2 is not
  -- enabled. The webhooks that were set up are those of `DuckType` alone.
  pub main-IsServed :
      (fine : Call → Bool) (s : Server)
      → In start (main join fine f).0
      → IsServed f s (main join fine f).0
  unfolding main
  main-IsServed fine s i =
      subst (IsServed f s)
        (sym (run_calls-start fine f (setup_calls join f) setup_calls-IsPlanned i))
        (all_calls-IsServed s)
