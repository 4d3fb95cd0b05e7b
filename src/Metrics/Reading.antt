-- ===== src/Metrics/Reading.antt =====
-- What a vector of internal/metrics/metrics.go reads after the writes to it.
use eks_ami_operator.Base.{
  ℕ, ◌≡◌, ◌∙◌, refl, arith, ◌+◌, Bool, true, false, ◌&&◌, String, str_eq, str_eq_complete, ◌==◌,
  if◌then◌else◌, List, [], ◌∷◌, Option, none, some,
}
use eks_ami_operator.Metrics.{
  Vector, outdated_node_groups, upgrade_attempts, compliance_status, last_checked_timestamp,
  deleted_policies, next_run_seconds, update_status, update_inflight_seconds, Value, number,
  seconds, unix, Write, set, inc,
}
use eks_ami_operator.Metrics.Documented.{is_made, Grows, same, more}

abbrev index : Vector → ℕ
index outdated_node_groups = 0
index upgrade_attempts = 1
index compliance_status = 2
index last_checked_timestamp = 3
index deleted_policies = 4
index next_run_seconds = 5
index update_status = 6
index update_inflight_seconds = 7

abbrev pub same_labels : List String → List String → Bool
same_labels [] [] = true
same_labels [] (_ ∷ _) = false
same_labels (_ ∷ _) [] = false
same_labels (a ∷ ls) (b ∷ ms) = str_eq a b && same_labels ls ms

-- A vector that is incremented holds numbers, and starts at 0.
abbrev incremented : Option Value → Option Value
incremented none = some (number 1)
incremented (some (number n)) = some (number (n + 1))
incremented (some (seconds d)) = some (seconds d)
incremented (some (unix t)) = some (unix t)

-- The value of `v` with the labels `labels` behind a write, and before it.
abbrev pub written : Vector → List String → Write → Option Value → Option Value
written v labels (set u ms x) r =
    if (index v == index u) && same_labels labels ms then some x else r
written v labels (inc u ms) r =
    if (index v == index u) && same_labels labels ms then incremented r else r

-- The value that a scrape reads; none, if the labels were never written.
unfoldable pub reading : Vector → List String → List Write → Option Value
reading v labels [] = none
reading v labels (w ∷ ws) = written v labels w (reading v labels ws)

-- The lifecycle state reads 1.
abbrev pub IsLit : List String → List Write → Type 0
IsLit labels ws = reading update_status labels ws ≡ some (number 1)

pub same_labels_refl : (labels : List String) → same_labels labels labels ≡ true
same_labels_refl [] = refl
same_labels_refl (a ∷ ls) = rw (str_eq_complete a a refl, same_labels_refl ls) refl

written-IsLit :
    (others : Bool) (labels : List String) (x : Write) (r : Option Value)
    → is_made others x ≡ true
    → r ≡ some (number 1)
    → written update_status labels x r ≡ some (number 1)
written-IsLit others labels (set update_status ms x) r h lit = ground arith
written-IsLit others labels (inc update_status ms) r h lit = ground arith
written-IsLit others labels _ r h lit = lit

-- A state that reads 1 does so from then on.
pub Grows-IsLit :
    {others : Bool} {ws vs : List Write} (labels : List String)
    → Grows others ws vs
    → IsLit labels ws
    → IsLit labels vs
unfolding reading
Grows-IsLit labels same lit = lit
Grows-IsLit {others} labels (more {vs = vs} {x = x} h g) lit =
    written-IsLit others labels x (reading update_status labels vs) h (Grows-IsLit labels g lit)

-- A state that is set to 1 reads 1.
pub set-IsLit :
    (labels : List String) (ws : List Write)
    → IsLit labels (set update_status labels (number 1) ∷ ws)
unfolding reading
set-IsLit labels ws = rw (same_labels_refl labels) refl

written-outdated :
    (labels : List String) (x : Write) (r : Option Value)
    → is_made true x ≡ true
    → written outdated_node_groups labels x r ≡ r
written-outdated labels (set outdated_node_groups ms x) r h = ground (arith, h)
written-outdated labels (inc outdated_node_groups ms) r h = ground (arith, h)
written-outdated labels _ r h = refl

-- The count of outdated node groups is the same behind writes that leave it alone.
pub Grows-outdated :
    {ws vs : List Write} (labels : List String)
    → Grows true ws vs
    → reading outdated_node_groups labels vs ≡ reading outdated_node_groups labels ws
unfolding reading
Grows-outdated labels same = refl
Grows-outdated labels (more {vs = vs} {x = x} h g) =
    written-outdated labels x (reading outdated_node_groups labels vs) h ∙ Grows-outdated labels g
