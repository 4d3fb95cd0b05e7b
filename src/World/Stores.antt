-- ===== src/World/Stores.antt =====
-- The status updates among the calls, and the object that one leaves behind.
use eks_ami_operator.Base.{ap, ◌∙◌, suc, ◌≤◌, ℕ, ◌≡◌, List, [], ◌∷◌, arith}
use eks_ami_operator.Go.Error.{Result, ok, err}
use eks_ami_operator.Api.{Policy}
use eks_ami_operator.World.State.{Call, World}
use eks_ami_operator.World.External.{Env}
use eks_ami_operator.World.Kube

-- The policies of the calls of Status().Update, newest first.
abbrev pub stores : List Call → List Policy
stores [] = []
stores (Call.update_status p ∷ cs) = p ∷ stores cs
stores (_ ∷ cs) = stores cs

-- The object behind a call with the object `p`.
abbrev pub decoded : Policy → Result Policy → Policy
decoded p (ok q) = q
decoded p (err _) = p

-- From `w` to `u` there is one status update, of a policy for which `Q` holds, and `u` has the
-- object that the API server answered; it is the last of the answers from outside.
abbrev pub Stored : Env → (Policy → Type 0) → World → World → Type 0
Stored env Q w u =
    (p : Policy) × (k : ℕ) × (stores u.calls ≡ p ∷ stores w.calls)
    × (w.tick ≤ k)
    × (u.tick ≡ suc k)
    × (u.policy ≡ decoded p (env.update_status k p))
    × Q p

pub persist-Stored :
    (env : Env) {Q : Policy → Type 0} (w v : World)
    → stores v.calls ≡ stores w.calls
    → w.tick ≤ v.tick
    → Q v.policy
    → Stored env Q w (Kube.update_status env v).1
persist-Stored env w v same later q =
    (v.policy, v.tick, ground arith, later, ground arith, ground arith, q)

-- A step that stores nothing may stand before.
pub Stored-later :
    (env : Env) {Q : Policy → Type 0} (w v u : World)
    → stores v.calls ≡ stores w.calls
    → w.tick ≤ v.tick
    → Stored env Q v u
    → Stored env Q w u
Stored-later env w v u same later (p, k, one, le, last, answer, q) =
    (p, k, one ∙ ap (λ ps. p ∷ ps) same, omega (arith, later, le), last, answer, q)
