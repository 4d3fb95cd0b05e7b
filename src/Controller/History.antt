-- ===== src/Controller/History.antt =====
-- The life of a policy's status over any number of reconciles of
-- internal/controller/nodegroupupgradepolicy_controller.go: what one stores, the next one reads.
use eks_ami_operator.Base.{ℕ, ◌≡◌, String, List, [], ◌∷◌}
use eks_ami_operator.Go.Error.{ok}
use eks_ami_operator.Api.{Policy, Status}
use eks_ami_operator.World.{Env, IsRetry, World}
use eks_ami_operator.World.Stores.{stores}
use eks_ami_operator.Controller.Reconcile.{reconcile}
use eks_ami_operator.Controller.Preserved.{IsServer, Kept, Allows, reconcile_keeps}

-- The API server holds the status of `p`: it answers reads with it, and writes with what it was
-- sent.
pub record Serves (env : Env) (p : Policy) : Type 0 where
  pub get-same : (k : ℕ) (name : String) (q : Policy) → env.get k name ≡ ok q → q.status ≡ p.status
  pub update-same : (k : ℕ) (p q : Policy) → env.update k p ≡ ok q → q.status ≡ p.status
  pub update_status-same :
      (k : ℕ) (p q : Policy) → env.update_status k p ≡ ok q → q.status ≡ p.status

-- The status of a new policy, and of the variable that Reconcile declares.
abbrev pub IsNew : Status → Type 0
IsNew s = (s.upgrade_status ≡ "") × (s.conditions ≡ [])

-- The policies in the API server: a new one, and behind a reconcile the one that it stored last.
-- `E` is what is assumed of the libraries of each reconcile.
pub data Lives (E : Env → Type 0) : Policy → Type 1 where
  created : {p : Policy} → IsNew p.status → Lives E p
  reconciled :
      {p q : Policy} {before : List Policy}
      → Lives E p
      → (env : Env) → IsRetry env
      → E env
      → Serves env p
      → (name : String) (w : World) → IsNew w.policy.status
      → stores w.calls ≡ []
      → stores (reconcile env name w).1.calls ≡ q ∷ before
      → Lives E q

server_of :
    (Q : Status → Type 0) (env : Env) (p : Policy) → Serves env p → Q p.status → IsServer env Q
server_of Q env p serves h = record {
  get-ok = λ k name q e. rw (serves.get-same k name q e) h;
  update-ok = serves.update-same;
  update_status-ok = serves.update_status-same;
}

-- What holds of a new status, and is allowed to be kept by the assignments, holds over a life.
pub Lives-keeps :
    {E : Env → Type 0} (Q : Status → Type 0)
    → ((s : Status) → IsNew s → Q s)
    → ((env : Env) → E env → Allows env Q)
    → (p : Policy) → Lives E p
    → Q p.status
Lives-keeps Q new allows p (created e) = new p.status e
Lives-keeps {E} Q new allows q
      (reconciled {p = p} life env documented es serves name w fresh none last) =
    let server = server_of Q env p serves (Lives-keeps {E = E} Q new allows p life) in
    let start : Kept Q w = (new w.policy.status fresh, rw none tt) in
    let (here, stored) = reconcile_keeps Q env server (allows env es) documented name w start in
    (rw last at stored).0
