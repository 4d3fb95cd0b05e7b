-- ===== src/Controller/Lives.antt =====
-- What holds over the life of a policy under
-- internal/controller/nodegroupupgradepolicy_controller.go.
use eks_ami_operator.Base.{◌≡◌, ◌⊎◌, inl, inr, refl, ◌∙◌, sym, List, [], str_ne}
use mathlib.Core.List.{Memᴰ}
use eks_ami_operator.Api.{Policy, Status, Condition}
use eks_ami_operator.World.{Env}
use eks_ami_operator.Upgrade.{upgrade_status_in_progress}
use eks_ami_operator.Upgrade.WellFormed.{WellFormed, Moves-WellFormed, Skipped-WellFormed}
use eks_ami_operator.Controller.Preserved.{Allows, IsUnsupported}
use eks_ami_operator.Controller.History.{IsNew, Lives, Lives-keeps}

new-WellFormed : (s : Status) → IsNew s → WellFormed s
new-WellFormed s (e, _) = record {
  known = inl e;
  unfinished = λ h. absurd (str_ne "" upgrade_status_in_progress refl (sym e ∙ h));
}

WellFormed-Allows : (env : Env) → Allows env WellFormed
WellFormed-Allows env = record {
  scheduled = λ s last next h. record { known = h.known; unfinished = h.unfinished };
  unsupported = λ s c d _ _ h. Skipped-WellFormed _ refl;
  moved = λ seen old at current latest new checked h. Moves-WellFormed checked.moves h;
}

-- However often a policy is reconciled, from a new one on, its upgradeStatus is empty or one of the
-- texts that the resource admits, and while it says InProgress, updateStatus does not say that EKS is
-- done. Each reconcile has a backoff.Retry that runs as documented and an API server that holds the
-- status, and no other client writes the status in between.
pub Lives-WellFormed : {E : Env → Type 0} (p : Policy) → Lives E p → WellFormed p.status
Lives-WellFormed p life =
    Lives-keeps WellFormed new-WellFormed (λ env _. WellFormed-Allows env) p life

-- The documentation of meta.SetStatusCondition: but for the condition that is set, there are no
-- others than before.
pub record SetsOnly (env : Env) : Type 0 where
  pub only :
      (cs : List Condition) (c d : Condition)
      → Memᴰ d (env.set_status_condition cs c)
      → ((d.condition_type ≡ c.condition_type) × (d.status ≡ c.status) × (d.reason ≡ c.reason))
        ⊎ Memᴰ d cs

-- Every condition is one of an AL2 group without an image.
abbrev pub AllUnsupported : Status → Type 0
AllUnsupported s = (c : Condition) → Memᴰ c s.conditions → IsUnsupported c

set-AllUnsupported :
    (env : Env)
    → SetsOnly env
    → (cs : List Condition) (c : Condition) → IsUnsupported c
    → ((d : Condition) → Memᴰ d cs → IsUnsupported d)
    → (d : Condition) → Memᴰ d (env.set_status_condition cs c)
    → IsUnsupported d
set-AllUnsupported env documented cs c new old d here = elim (documented.only cs c d here) [
  | inl (type, status, reason) ↦ rw (type, status, reason) new
  | inr before ↦ old d before
]

AllUnsupported-Allows : (env : Env) → SetsOnly env → Allows env AllUnsupported
AllUnsupported-Allows env documented = record {
  scheduled = λ s last next h. h;
  unsupported = λ s c d new new' h.
      set-AllUnsupported env documented _ d new'
        (set-AllUnsupported env documented s.conditions c new h);
  moved = λ seen old at current latest new checked h. rw checked.same_conditions h;
}

no_conditions : {c : Condition} → ¬ Memᴰ c []
no_conditions h = elim h [ ]

-- However often a policy is reconciled, from a new one on, every condition of its status is
-- AMICompliance or UpgradeInProgress, False, and for the reason UnsupportedAMI: no upgrade and no
-- node group that is up to date ever shows in the conditions. Each reconcile has a backoff.Retry and
-- a meta.SetStatusCondition that run as documented and an API server that holds the status, and no
-- other client writes the status in between.
pub Lives-AllUnsupported : (p : Policy) → Lives SetsOnly p → AllUnsupported p.status
Lives-AllUnsupported p life =
    Lives-keeps AllUnsupported (λ s (_, none) c h. absurd (no_conditions (rw none at h)))
      AllUnsupported-Allows p life
