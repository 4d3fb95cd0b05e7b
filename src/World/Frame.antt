-- ===== src/World/Frame.antt =====
-- What a step leaves alone: the policy, and the record of the updates that were started.
use eks_ami_operator.Base.{
  suc, ◌≡◌, ◌≤◌, arith, ◌∙◌, Bool, true, false, List, [], ◌∷◌, if◌then◌else◌,
}
use eks_ami_operator.World.State.{Call, World}
use eks_ami_operator.World.Stores.{stores}

abbrev is_initiation : Call → Bool
is_initiation (Call.update_nodegroup_version _ _ _ _) = true
is_initiation _ = false

-- The calls of UpdateNodegroupVersion, newest first.
abbrev pub initiations : List Call → List Call
initiations [] = []
initiations (c ∷ cs) = let rest = initiations cs in if is_initiation c then c ∷ rest else rest

-- A step that leaves the policy alone, starts no update, stores no status, and does not go back in
-- the answers from outside.
abbrev pub Quiet : World → World → Type 0
Quiet w w' =
    (w'.policy ≡ w.policy)
    × (initiations w'.calls ≡ initiations w.calls)
    × (stores w'.calls ≡ stores w.calls)
    × (w.tick ≤ w'.tick)

pub Quiet-trans : (u v w : World) → Quiet u v → Quiet v w → Quiet u w
Quiet-trans u v w h k = (k.0 ∙ h.0, k.1 ∙ h.1, k.2 ∙ h.2, omega (arith, h.3, k.3))

-- A step behind one more answer from outside.
pub Quiet-suc : (w v : World) → Quiet (record w { tick = suc w.tick }) v → Quiet w v
Quiet-suc w v q = (q.0, q.1, q.2, omega (arith, q.3))
