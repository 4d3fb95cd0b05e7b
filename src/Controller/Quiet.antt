-- ===== src/Controller/Quiet.antt =====
-- The steps of the reconciler that leave the policy alone and start no update: the readings of the
-- schedule, and the calls of AWS that only read.
use eks_ami_operator.Base.{◌≡◌, refl, arith, String, List, ◌∷◌, true}
use eks_ami_operator.Go.Time.{Duration}
use eks_ami_operator.World.{Env, IsRetry, World, Config, Call}
use eks_ami_operator.World.Keeps.{Keeps}
use eks_ami_operator.World.Reads.{Reads, is_read, stores-read}
use eks_ami_operator.World.Frame.{Quiet, Quiet-trans, initiations}
use eks_ami_operator.World.Kube.{called}
use eks_ami_operator.Scheduler.{Next, jitter, should_skip}
use eks_ami_operator.Aws.{
  new_aws_clients, retry_describe_nodegroup, describe_cluster, resolve_latest_ami,
}
use eks_ami_operator.Controller.Schedule.{jitter_interval, compute_next_delay}
use eks_ami_operator.Controller.Reading.{
  jitter-Keeps, jitter_interval-Keeps, delay-Keeps, skip-Keeps, clients-Keeps,
  describe_cluster-Keeps, retry_nodegroup-Keeps, latest-Keeps,
}

Quiet-refl : (w : World) → Quiet w w
Quiet-refl w = (refl, refl, refl, omega arith)

initiations-read :
    (c : Call) (cs : List Call) → is_read c ≡ true → initiations (c ∷ cs) ≡ initiations cs
initiations-read c cs h = ground arith

Quiet-Reads : (w : World) → Reads (Quiet w)
Quiet-Reads w = record {
  ticked = λ v q. (q.0, q.1, q.2, omega (arith, q.3));
  asked = λ c v read q.
      Quiet-trans w v (called c v) q
        (refl, initiations-read c v.calls read, stores-read c v.calls read, omega arith);
  shown = λ cluster ng x v q. q;
}

-- A step that keeps what allows reads is quiet.
quiet : {A : Type 0} {m : World → A × World} (w : World) → Keeps (Quiet w) m → Quiet w (m w).1
quiet w k = k.at w (Quiet-refl w)

module _ (env : Env) where
  pub jitter-Quiet : (d : Duration) (w : World) → Quiet w (jitter env d w).1
  jitter-Quiet d w = quiet w (jitter-Keeps env (Quiet-Reads w) d)

  pub jitter_interval-Quiet : (n : Next) (w : World) → Quiet w (jitter_interval env n w).1
  jitter_interval-Quiet n w = quiet w (jitter_interval-Keeps env (Quiet-Reads w) n)

  pub compute_next_delay-Quiet : (w : World) → Quiet w (compute_next_delay env w).1
  compute_next_delay-Quiet w = quiet w (delay-Keeps env (Quiet-Reads w))

  pub should_skip-Quiet : (w : World) → Quiet w (should_skip env w.policy w).1
  should_skip-Quiet w = quiet w (skip-Keeps env (Quiet-Reads w) w.policy)

  pub new_aws_clients-Quiet :
      (region : String) (w : World) → Quiet w (new_aws_clients env region w).1
  new_aws_clients-Quiet region w = quiet w (clients-Keeps env (Quiet-Reads w) region)

  pub describe_cluster-Quiet :
      (c : Config) (cluster : String) (w : World) → Quiet w (describe_cluster env c cluster w).1
  describe_cluster-Quiet c cluster w =
      quiet w (describe_cluster-Keeps env (Quiet-Reads w) c cluster)

module _ (env : Env) (documented : IsRetry env) where
  pub retry_describe_nodegroup-Quiet :
      (c : Config) (cluster ng : String) (w : World)
      → Quiet w (retry_describe_nodegroup env c cluster ng w).1
  retry_describe_nodegroup-Quiet c cluster ng w =
      quiet w (retry_nodegroup-Keeps env (Quiet-Reads w) documented c cluster ng)

  pub resolve_latest_ami-Quiet :
      (c : Config) (ami_type version : String) (w : World)
      → Quiet w (resolve_latest_ami env c ami_type version w).1
  resolve_latest_ami-Quiet c ami_type version w =
      quiet w (latest-Keeps env (Quiet-Reads w) documented c ami_type version)
