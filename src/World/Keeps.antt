-- ===== src/World/Keeps.antt =====
-- Steps that keep a predicate of the state, with a rule for each way to build a step.
use eks_ami_operator.Base.{Bool, true, false, if◌then◌else◌, Option}
use eks_ami_operator.Go.Error.{Error}
use eks_ami_operator.World.State.{World, M, ◌>>=◌, pure, policy}
use eks_ami_operator.World.External.{
  Env, Attempt, Runs, success, failure, stop, again, IsRetry, ExponentialBackOff,
}

pub record Keeps (P : World → Type 0) {A : Type 0} (m : M A) : Type 0 where
  pub at : (w : World) → P w → P (m w).1

module _ {P : World → Type 0} where
  pub Keeps-pure : {A : Type 0} (a : A) → Keeps P (pure a)
  Keeps-pure a = record { at = λ w h. h }

  pub Keeps-policy : Keeps P policy
  Keeps-policy = record { at = λ w h. h }

  pub Keeps-bind :
      {A B : Type 0} {m : M A} {f : A → M B}
      → Keeps P m
      → ((a : A) → Keeps P (f a))
      → Keeps P (m >>= f)
  Keeps-bind {m = m} h k = record { at = λ w inv. let (a, v) = m w in (k a).at v (h.at w inv) }

  pub Keeps-if :
      {A : Type 0} (b : Bool) {m n : M A} → Keeps P m → Keeps P n → Keeps P (if b then m else n)
  Keeps-if true h k = h
  Keeps-if false h k = k

  Runs-Keeps :
      {A : Type 0} {op : M (A × Attempt)} {w : World} {r : (A × Option Error) × World}
      → Keeps P op
      → P w
      → Runs op w r
      → P r.1
  Runs-Keeps {w = v} h inv (success e) = rw e at (h.at v inv)
  Runs-Keeps {w = v} h inv (failure e) = rw e at (h.at v inv)
  Runs-Keeps {w = v} h inv (stop e) = rw e at (h.at v inv)
  Runs-Keeps {w = v} h inv (again e rest) = Runs-Keeps h (rw e at (h.at v inv)) rest

  pub retry-Keeps :
      (env : Env)
      → IsRetry env
      → (A : Type 0) (b : ExponentialBackOff) (op : M (A × Attempt)) → Keeps P op
      → Keeps P (env.retry A b op)
  retry-Keeps env documented A b op h = record {
    at = λ w inv. Runs-Keeps h inv (documented.runs A b op w);
  }
