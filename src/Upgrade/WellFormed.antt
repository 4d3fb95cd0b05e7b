-- ===== src/Upgrade/WellFormed.antt =====
-- What the life cycle of internal/upgrade/upgrade.go never leaves.
use eks_ami_operator.Base.{◌≡◌, ◌≢◌, ◌⊎◌, inl, inr, refl, ◌∙◌, sym, Bool, String, str_ne}
use eks_ami_operator.Api.{Status}
use eks_ami_operator.Upgrade.Status.{
  upgrade_status_failed, upgrade_status_in_progress, upgrade_status_succeeded,
  upgrade_status_skipped,
}
use eks_ami_operator.Upgrade.Lifecycle.{
  Seen, Moves, unread, running, finished, stopped, compliant, skipped, refused, initiated,
  IsRunning,
}

-- The texts that the enum of upgradeStatus in the resource admits and the operator writes, and the
-- empty one of a new policy.
abbrev pub IsKnown : String → Type 0
IsKnown x =
    (x ≡ "")
    ⊎ (x ≡ upgrade_status_in_progress)
    ⊎ (x ≡ upgrade_status_succeeded)
    ⊎ (x ≡ upgrade_status_failed)
    ⊎ (x ≡ upgrade_status_skipped)

-- A status that says InProgress does not also say that EKS is done with the update.
pub record WellFormed (s : Status) : Type 0 where
  pub known : IsKnown s.upgrade_status
  pub unfinished : s.upgrade_status ≡ upgrade_status_in_progress → IsRunning s.update_status

-- A status with another upgradeStatus than InProgress.
settled :
    (s : Status) (x : String)
    → IsKnown x
    → x ≢ upgrade_status_in_progress
    → s.upgrade_status ≡ x
    → WellFormed s
settled s x known other e = record {
  known = rw e known;
  unfinished = λ h. absurd (other (sym e ∙ h));
}

pub Skipped-WellFormed : (s : Status) → s.upgrade_status ≡ upgrade_status_skipped → WellFormed s
Skipped-WellFormed s e = settled s _ (inr (inr (inr (inr refl)))) (str_ne _ _ refl) e

pub Moves-WellFormed :
    {seen : Seen} {auto_upgrade : Bool} {current latest : String} {s s' : Status}
    → Moves seen auto_upgrade current latest s s'
    → WellFormed s
    → WellFormed s'
Moves-WellFormed (unread _ _ same k _) h = record {
  known = rw same h.known;
  unfinished = λ e. rw k.same_state (h.unfinished (sym same ∙ e));
}
Moves-WellFormed (running p going same _) h = record {
  known = rw same h.known;
  unfinished = λ _. rw p.polled_state going;
}
Moves-WellFormed (finished _ _ e _) h = settled _ _ (inr (inr (inl refl))) (str_ne _ _ refl) e
Moves-WellFormed (stopped _ _ e _) h = settled _ _ (inr (inr (inr (inl refl)))) (str_ne _ _ refl) e
Moves-WellFormed (compliant _ _ e _ _) h = settled _ _ (inr (inr (inl refl))) (str_ne _ _ refl) e
Moves-WellFormed (skipped _ _ _ e _ _) h = Skipped-WellFormed _ e
Moves-WellFormed (refused _ _ _ _ e _ _) h =
    settled _ _ (inr (inr (inr (inl refl)))) (str_ne _ _ refl) e
Moves-WellFormed (initiated _ _ _ _ e k _ _ _) h = record {
  known = rw e (inr (inl refl));
  unfinished = λ _. rw k (str_ne _ _ refl, str_ne _ _ refl, str_ne _ _ refl);
}
