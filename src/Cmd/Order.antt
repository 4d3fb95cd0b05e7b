-- ===== src/Cmd/Order.antt =====
-- The order of what cmd/main.go does, and the status that it exits with.
use eks_ami_operator.Base.{
  ℕ, ◌≡◌, ◌⊎◌, inl, inr, refl, arith, ap, String, str_eq, if◌then◌else◌, List, [], ◌∷◌, ◌++◌, none,
  some, Option-cases, Bool-cases,
}
use eks_ami_operator.Go.Error.{Error}
use eks_ami_operator.Go.Flag.{Parse}
use eks_ami_operator.Metrics.{
  outdated_node_groups, upgrade_attempts, compliance_status, last_checked_timestamp,
  deleted_policies, next_run_seconds, update_status, update_inflight_seconds,
}
use eks_ami_operator.Cmd.Flags.{Flags, parse_flags}
use eks_ami_operator.Cmd.Servers.{manager_options}
use eks_ami_operator.Cmd.Manager.{
  node_group_upgrade_policy, generation_changed, node_group_upgrade_policy_custom_validator,
  scheme_builder, Step, System, Outcome, next, exit, Run, ◌>>=◌, or_exit, and_then, metrics_init,
  cmd_init, call, serve, main, process, setup_with_manager, setup_webhook_with_manager,
  setup_webhooks, run_manager,
}

-- A panic exits with 2, os.Exit(1) with 1.
abbrev pub status_of : Step → ℕ
status_of (Step.must_register _) = 2
status_of Step.add_client_go = 2
status_of (Step.add_to_scheme _) = 2
status_of _ = 1

-- The steps of the init functions.
abbrev pub init_steps : List Step
init_steps =
    Step.must_register (
      outdated_node_groups ∷ upgrade_attempts ∷ compliance_status ∷ last_checked_timestamp
      ∷ deleted_policies ∷ next_run_seconds ∷ update_status ∷ update_inflight_seconds ∷ [])
    ∷ Step.add_client_go
    ∷ Step.add_to_scheme scheme_builder
    ∷ []

abbrev pub serve_steps : List Step
serve_steps = Step.add_healthz_check "healthz" ∷ Step.add_readyz_check "readyz" ∷ Step.start ∷ []

-- The steps, made behind the calls `log`.
abbrev pub onto : List Step → List Step → List Step
onto [] log = log
onto (s ∷ ss) log = onto ss (s ∷ log)

module _ (sys : System) where
  -- The webhook is registered unless ENABLE_WEBHOOKS is "false".
  abbrev pub webhook_steps : List Step
  webhook_steps =
      if str_eq (sys.getenv "ENABLE_WEBHOOKS") "false"
      then serve_steps
      else Step.complete_webhook (record {
        for_kind = node_group_upgrade_policy;
        defaulter = node_group_upgrade_policy;
        validator = node_group_upgrade_policy_custom_validator;
      })
        ∷ serve_steps

  abbrev pub main_steps : Flags → List Step
  main_steps f =
      Step.get_config
      ∷ Step.new_manager (manager_options f)
      ∷ Step.complete_controller (record {
        recorder = "nodegroupupgradepolicy-controller";
        for_kind = node_group_upgrade_policy;
        event_filter = generation_changed;
        named = "nodegroupupgradepolicy";
      })
      ∷ webhook_steps

  -- The steps of the process, and how it ends if none fails.
  abbrev pub plan : Parse Flags → List Step × Outcome
  plan (Parse.exits n) = (init_steps, exit n)
  plan (Parse.parsed f operands) = (init_steps ++ main_steps f, next)

  -- The steps one after the other, up to the first that fails.
  follow : Outcome → List Step → Run Outcome
  follow end [] = λ log. (end, log)
  follow end (s ∷ ss) = do e ← call sys s; or_exit (status_of s) e (follow end ss)

  webhooks-follow : setup_webhooks sys ≡ follow next webhook_steps
  unfolding setup_webhooks follow setup_webhook_with_manager serve
  webhooks-follow = elim (Bool-cases (str_eq (sys.getenv "ENABLE_WEBHOOKS") "false")) [
    | inl off ↦ rw off refl
    | inr on ↦ rw on refl
  ]

  run_manager-follow : (f : Flags) → run_manager sys f ≡ follow next (main_steps f)
  unfolding run_manager follow setup_with_manager
  run_manager-follow f = rw webhooks-follow refl

  init-follow :
      (end : Outcome) (ss log : List Step)
      → (do o ← metrics_init sys; and_then o do o ← cmd_init sys; and_then o (follow end ss)) log
        ≡ follow end (init_steps ++ ss) log
  unfolding follow
  init-follow end ss log = ground arith

  process-follow :
      (args : List String) {r : Parse Flags} (log : List Step)
      → parse_flags sys.library args ≡ r
      → process sys args log ≡ follow (plan r).1 (plan r).0 log
  unfolding process main follow
  process-follow args {r = Parse.exits n} log e = rw e (init-follow (exit n) [] log)
  process-follow args {r = Parse.parsed f operands} log e =
      rw (e, run_manager-follow f) (init-follow next (main_steps f) log)

  -- Every one of the steps is answered without an error, made in this order behind the calls `log`.
  abbrev pub Answered : List Step → List Step → Type 0
  Answered log [] = Unit
  Answered log (s ∷ ss) = (sys.answer log s ≡ none) × Answered (s ∷ log) ss

  -- The steps end as planned if all are answered; else the first that fails is the last call.
  abbrev pub Ends : List Step → Outcome → List Step → Outcome × List Step → Type 0
  Ends ss end log r =
      (Answered log ss × (r ≡ (end, onto ss log)))
      ⊎ ((before : List Step) × (s : Step) × (after : List Step) × (e : Error) × (ss
            ≡ before ++ (s ∷ after))
          × Answered log before
          × (sys.answer (onto before log) s ≡ some e)
          × (r ≡ (exit (status_of s), s ∷ onto before log)))

  follow-Ends :
      (ss : List Step) (end : Outcome) (log : List Step) → Ends ss end log (follow end ss log)
  unfolding follow
  follow-Ends [] end log = inl (tt, refl)
  follow-Ends (s ∷ ss) end log = elim (Option-cases (sys.answer log s)) [
    | inr (e, failed) ↦ inr ([], s, ss, e, refl, tt, failed, rw failed refl)
    | inl ok ↦ elim (follow-Ends ss end (s ∷ log)) [
      | inl (all, r) ↦ inl ((ok, all), rw ok r)
      | inr (before, t, after, e, split, all, failed, r) ↦
          inr (s ∷ before, t, after, e, ap (λ xs. s ∷ xs) split, (ok, all), failed, rw ok r)
    ]
  ]

  -- The process makes the steps of its plan in their order: the metrics, the types of Kubernetes and
  -- the policies are registered, and behind flags that are accepted the configuration is read, the
  -- manager is made with the options of the flags, the controller, the webhook unless ENABLE_WEBHOOKS
  -- is "false", and the two checks are registered, and the manager is started. It ends with the last
  -- step, or with the exit of the flags, if every step is answered without an error. Otherwise the
  -- first step that fails is the last one, and the status is 2 in an init function and 1 in main.
  pub process-Ends :
      (args : List String)
      → let (steps, end) = plan (parse_flags sys.library args) in
        Ends steps end [] (process sys args [])
  process-Ends args =
      let (steps, end) = plan (parse_flags sys.library args) in
      rw (process-follow args [] refl) (follow-Ends steps end [])
