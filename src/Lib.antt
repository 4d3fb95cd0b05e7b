-- ===== src/Lib.antt =====
-- eks-ami-operator: a Kubernetes operator that keeps the managed node groups of EKS clusters on
-- the latest AMI. A NodeGroupUpgradePolicy names a node group. A reconcile of the policy handles
-- its finalizer, asks the guards (paused, start time, cooldown) and the schedule (a cron
-- expression or an interval) whether it is due, reads the node group, the cluster and the
-- recommended release from AWS, and then polls an update that is in flight, finds the group
-- compliant, skips it, or starts an update. Webhooks set defaults and validate the policy.
--
-- Which file models which part:
--  * Api: api/v1alpha1/nodegroupupgradepolicy_types.go. The fields of the specification and the
--    status, and Default. Api/Store and Api/DeepCopy: api/v1alpha1/zz_generated.deepcopy.go, over
--    a store with the arrays that slices point to; Api/Copied and Api/Apart are about what a copy
--    shares.
--  * Webhook: internal/webhook/v1alpha1/nodegroupupgradepolicy_webhook.go. ValidateCreate is
--    validate_create, and so on; Webhook/Spec says what is accepted, Webhook/Defaults what Default
--    makes of a specification, Webhook/Admission follows an object through its updates, and
--    Webhook/Understood says what the scheduler makes of it.
--  * Scheduler: internal/scheduler/scheduler.go. ShouldSkip, ParseInterval, NextRun,
--    nextRunInterval and Jitter are should_skip, parse_interval, next_run, next_run_interval and
--    jitter. The modules below it are named for what they prove.
--  * Finalizer: internal/finalizer/finalizer.go.
--  * Aws: internal/awsutils and pkg/awsclient, a module for each group of functions. Aws/Attempts
--    is about the retries, Aws/Answered about when they have a result, Aws/Unsupported about the
--    AL2 types, Aws/Versions about the versions of a cluster, Aws/Paths about the parameters that
--    are read.
--  * Upgrade: internal/upgrade/upgrade.go. Upgrade/Status has the constants and the assignments,
--    Upgrade/Track trackInFlightUpdate, Upgrade/Initiate handleNotInFlight and ProcessUpgrade.
--    Upgrade/Process is about what is started; Upgrade/Lifecycle, Upgrade/Stores, Upgrade/Polls,
--    Upgrade/Stored and Upgrade/WellFormed are about the status that is stored, Upgrade/Lost about
--    one that is not. Upgrade/Kept shows that ProcessUpgrade keeps what allows its kinds of steps,
--    and Upgrade/Lit and Upgrade/Counted are about the metrics.
--  * Controller: internal/controller. Controller/Conditions, Controller/Schedule,
--    Controller/Requeue and Controller/Reconcile hold the definitions, the other modules the
--    proofs. Controller/Reading shows that the steps which only read keep what allows reads, and
--    Controller/Rules that a reconcile keeps what allows its few kinds of writes; Controller/Freed
--    derives the rules for what does not depend on the status. Controller/Quiet,
--    Controller/Metered, Controller/Preserved and Controller/Untouched apply them to the record of
--    the updates, to the metrics, to the stored statuses and to the specifications that are sent.
--    Controller/Stages and Controller/Initiation are about what a reconcile starts,
--    Controller/History and Controller/Lives about what it stores, Controller/Delay,
--    Controller/Ready and Controller/Queued about when it runs again. Controller/Following is
--    about how a reconcile with an update in flight goes through its stages; Controller/Polling,
--    Controller/Passing and Controller/Watching are about an update that runs,
--    Controller/Completing and Controller/Completed about its end, and Controller/Started about
--    one from its start to its end. Controller/Documented and Controller/Counted are about the
--    metrics, Controller/Unsupported about the AL2 groups without an image, and
--    Controller/Findings, Controller/StartTime and Controller/Custom about where it does other
--    than documented.
--  * Metrics: internal/metrics/metrics.go. Metrics/Documented is what it says of the labels,
--    Metrics/Reading what a vector reads after some writes.
--  * Cmd: cmd/main.go. Cmd/Flags has the flags, Cmd/Servers the options of the two servers and of
--    the manager, Cmd/Manager the init functions of all packages, SetupWithManager,
--    SetupNodeGroupUpgradePolicyWebhookWithManager, the group version of
--    api/v1alpha1/groupversion_info.go, and main. Cmd/FlagSet, Cmd/Asked and Cmd/Secure are about
--    the flags, Cmd/Order is about main.
--  * Go: what the sources use of Go's standard library; Base: shared helpers. Go/Scan/Decimal and
--    Go/ParseDuration/Hours are about printed numbers.
--  * World: the state and what lies outside. Examples: tests on concrete inputs.
--
-- State and calls. A handler is a function of World: the policy object that the handlers share by
-- its pointer, the calls made so far and the writes to metrics, newest first. The clock, the
-- random generators, the Kubernetes client, the AWS SDK, the JSON decoder, the cron parser, the
-- zone database and backoff.Retry are the fields of Env and Calendar. An answer from outside is a
-- function of the number of answers before it and of its arguments, so that a theorem holds for
-- every course of answers. Cmd has a state of its own, the calls of the libraries behind the init
-- functions and main, which are answered by a parameter too. World/Keeps, World/Reads, World/Free
-- and World/Metered have the rules by which a step is shown to keep what holds of the state. What
-- a theorem needs of what lies outside is a named hypothesis: IsRandom, IsNext, IsRetry,
-- IsForeign, IsServer, Serves, Echoes, IsStore, IsMonotone, Accepts, IsCopying, IsMeta, SetsOnly,
-- AnswersSsm, AnswersEks, Answers, Takes, Finishes, Watch, Refuses.
--
-- Numbers. An instant is an integer number of nanoseconds since Go's zero time, without bound; a
-- duration is an int64, and where the source adds durations the sum wraps around (add64, sub64),
-- while Time.Sub saturates (sub). time.ParseDuration is written out; its loop runs on the length
-- of the text as fuel, which Go/ParseDuration/Fuel proves to be enough. backoff.Retry is any
-- finite run of its operation that its documentation allows (Runs). The loop of package flag is a
-- recursion on the arguments. All other loops are structural recursion.
--
-- Not modelled: logging and the texts below a wrapped error, with the flags of the logger and the
-- goroutine that logs the election; what the manager does once it is started, which calls
-- Reconcile and the webhooks; the deep copies of apimachinery, which are a parameter; the tests;
-- panics of the SDK's nil pointers; concurrent writers of one policy.
pub mod Base
pub mod Go
pub mod Api
pub mod Metrics
pub mod World
pub mod Scheduler
pub mod Finalizer
pub mod Aws
pub mod Upgrade
pub mod Controller
pub mod Webhook
pub mod Cmd
pub mod Examples
