-- ===== src/World/Metered.antt =====
-- Steps that write to the metrics only as internal/metrics documents.
use eks_ami_operator.Base.{Bool, ◌≡◌, refl, List}
use eks_ami_operator.Go.Error.{Result, ok, err}
use eks_ami_operator.Api.{Policy}
use eks_ami_operator.Metrics.{Write}
use eks_ami_operator.Metrics.Documented.{Grows, more}
use eks_ami_operator.World.State.{World}
use eks_ami_operator.World.External.{Env}
use eks_ami_operator.World.Free.{Free}
use eks_ami_operator.World.Kube.{received}

-- The metrics are those of before, and writes that are made as documented.
abbrev pub Metered : Bool → List Write → World → Type 0
Metered others ws w = Grows others ws w.metrics

pub received-metrics : (r : Result Policy) (w : World) → (received r w).1.metrics ≡ w.metrics
received-metrics (ok p) w = refl
received-metrics (err e) w = refl

module _ {others : Bool} {ws : List Write} (env : Env) where
  pub Metered-Free : Free others env (Metered others ws)
  Metered-Free = record {
    reads = record {
      ticked = λ w h. h;
      asked = λ c w is_read h. h;
      shown = λ cluster ng x w h. more refl h;
    };
    made = λ x w h inv. more h inv;
    assigned = λ f. record { at = λ w inv. inv };
    persisted = record {
      at = λ w inv. rw (received-metrics (env.update_status w.tick w.policy) _) inv;
    };
    started = λ c cluster ng release. record { at = λ w inv. inv };
  }
