-- ===== src/Cmd/Manager.antt =====
-- What the command does before and in main: the init functions of the packages, the registrations,
-- and the start of the manager. The calls of the libraries are recorded, newest first; each answers
-- with an error or none, by what was called before it.
use eks_ami_operator.Base.{ℕ, not, String, str_eq, if◌then◌else◌, List, [], ◌∷◌, Option, none, some}
use eks_ami_operator.Go.Error.{Error}
use eks_ami_operator.Go.Flag.{Parse}
use eks_ami_operator.Metrics.{
  Vector, outdated_node_groups, upgrade_attempts, compliance_status, last_checked_timestamp,
  deleted_policies, next_run_seconds, update_status, update_inflight_seconds,
}
use eks_ami_operator.Cmd.Flags.{Flags, LibraryFlag, parse_flags}
use eks_ami_operator.Cmd.Servers.{ManagerOptions, manager_options}

-- schema.GroupVersion
pub record GroupVersion : Type 0 where
  pub group : String
  pub version : String

-- The Go types that are registered in the scheme.
pub data Kind : Type 0 where
  node_group_upgrade_policy : Kind
  node_group_upgrade_policy_list : Kind

-- scheme.Builder, with what Register was given.
pub record SchemeBuilder : Type 0 where
  pub group_version : GroupVersion
  pub kinds : List Kind

abbrev pub group_version : GroupVersion
group_version = record { group = "eks.aws.harsh.dev"; version = "v1alpha1" }

-- SchemeBuilder, behind the init function of the package.
abbrev pub scheme_builder : SchemeBuilder
scheme_builder = record {
  group_version = group_version;
  kinds = node_group_upgrade_policy ∷ node_group_upgrade_policy_list ∷ [];
}

-- The predicates of controller-runtime that the sources use.
pub data Predicate : Type 0 where
  generation_changed : Predicate

-- The controller that SetupWithManager builds, with the name of its event recorder.
pub record ControllerBuilder : Type 0 where
  pub recorder : String
  pub for_kind : Kind
  pub event_filter : Predicate
  pub named : String

-- The validators of the sources.
pub data Validator : Type 0 where
  node_group_upgrade_policy_custom_validator : Validator

-- The webhook that SetupNodeGroupUpgradePolicyWebhookWithManager builds.
pub record WebhookBuilder : Type 0 where
  pub for_kind : Kind
  pub defaulter : Kind
  pub validator : Validator

-- The calls of the libraries that can fail.
pub data Step : Type 0 where
  must_register : List Vector → Step
  add_client_go : Step
  add_to_scheme : SchemeBuilder → Step
  get_config : Step
  new_manager : ManagerOptions → Step
  complete_controller : ControllerBuilder → Step
  complete_webhook : WebhookBuilder → Step
  add_healthz_check : String → Step
  add_readyz_check : String → Step
  start : Step

-- What lies outside: the answer of a call, os.Getenv, and the flags of the libraries.
pub record System : Type 0 where
  pub answer : List Step → Step → Option Error
  pub getenv : String → String
  pub library : String → Option LibraryFlag

-- The process goes on, or exits with a status.
pub data Outcome : Type 0 where
  next : Outcome
  exit : ℕ → Outcome

abbrev pub Run {ℓ} : Type ℓ → Type ℓ
Run A = List Step → A × List Step

infixl 5 ◌>>=◌
abbrev pub ◌>>=◌ {ℓ κ} : {A : Type ℓ} {B : Type κ} → Run A → (A → Run B) → Run B
◌>>=◌ m f log = let (a, log') = m log in f a log'

-- `if err != nil { os.Exit(status) }`, and what follows it.
abbrev pub or_exit : ℕ → Option Error → Run Outcome → Run Outcome
or_exit status none rest = rest
or_exit status (some _) rest = λ log. (exit status, log)

-- What follows if the process has not exited.
abbrev pub and_then : Outcome → Run Outcome → Run Outcome
and_then next rest = rest
and_then (exit n) rest = λ log. (exit n, log)

abbrev pub done : Run Outcome
done log = (next, log)

module _ (sys : System) where
  abbrev pub call : Step → Run (Option Error)
  call s log = (sys.answer log s, s ∷ log)

  -- utilruntime.Must and MustRegister panic on an error, and a panic exits with 2.
  abbrev pub must : Step → Run Outcome
  must s = do e ← call s; or_exit 2 e done

  -- init of internal/metrics
  abbrev pub metrics_init : Run Outcome
  metrics_init = must (
      Step.must_register (
        outdated_node_groups ∷ upgrade_attempts ∷ compliance_status ∷ last_checked_timestamp
        ∷ deleted_policies ∷ next_run_seconds ∷ update_status ∷ update_inflight_seconds ∷ []))

  -- init of cmd
  abbrev pub cmd_init : Run Outcome
  cmd_init = do o ← must Step.add_client_go; and_then o (must (Step.add_to_scheme scheme_builder))

  -- SetupWithManager
  unfoldable pub setup_with_manager : Run (Option Error)
  setup_with_manager = call (
      Step.complete_controller (record {
        recorder = "nodegroupupgradepolicy-controller";
        for_kind = node_group_upgrade_policy;
        event_filter = generation_changed;
        named = "nodegroupupgradepolicy";
      }))

  -- SetupNodeGroupUpgradePolicyWebhookWithManager
  unfoldable pub setup_webhook_with_manager : Run (Option Error)
  setup_webhook_with_manager = call (
      Step.complete_webhook (record {
        for_kind = node_group_upgrade_policy;
        defaulter = node_group_upgrade_policy;
        validator = node_group_upgrade_policy_custom_validator;
      }))

  -- From the health checks on.
  unfoldable pub serve : Run Outcome
  serve = do
    e ← call (Step.add_healthz_check "healthz")
    or_exit 1 e do
      e ← call (Step.add_readyz_check "readyz")
      or_exit 1 e do e ← call Step.start; or_exit 1 e done

  -- The test of ENABLE_WEBHOOKS.
  unfoldable pub setup_webhooks : Run Outcome
  setup_webhooks =
      if not (str_eq (sys.getenv "ENABLE_WEBHOOKS") "false")
      then (do e ← setup_webhook_with_manager; or_exit 1 e serve)
      else serve

  -- main, behind the flags.
  unfoldable pub run_manager : Flags → Run Outcome
  run_manager f = do
    e ← call Step.get_config
    or_exit 1 e do
      e ← call (Step.new_manager (manager_options f))
      or_exit 1 e do e ← setup_with_manager; or_exit 1 e setup_webhooks

  on_flags : Parse Flags → Run Outcome
  on_flags (Parse.exits n) = λ log. (exit n, log)
  on_flags (Parse.parsed f operands) = run_manager f

  unfoldable pub main : List String → Run Outcome
  unfolding on_flags
  main args = on_flags (parse_flags sys.library args)

  -- The process: the init functions, and main.
  unfoldable pub process : List String → Run Outcome
  process args = do o ← metrics_init; and_then o do o ← cmd_init; and_then o (main args)
