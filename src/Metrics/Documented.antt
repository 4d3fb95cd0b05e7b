-- ===== src/Metrics/Documented.antt =====
-- What internal/metrics/metrics.go says of the labels of its vectors.
use eks_ami_operator.Base.{
  ◌≡◌, arith, Bool, true, false, not, ◌&&◌, ◌||◌, String, str_eq, List, [], ◌∷◌, length, ◌==◌, All,
}
use eks_ami_operator.Metrics.{
  Vector, outdated_node_groups, upgrade_attempts, update_status, Write, set, inc, label_names,
  is_counter, number, seconds, unix,
}

-- result ∈ {success, failed, skipped}
abbrev pub is_result : String → Bool
is_result r = str_eq r "success" || str_eq r "failed" || str_eq r "skipped"

-- status - {"idle","in_progress","successful","failed","cancelled"}
abbrev pub is_lifecycle : String → Bool
is_lifecycle s =
    str_eq s "idle"
    || str_eq s "in_progress"
    || str_eq s "successful"
    || str_eq s "failed"
    || str_eq s "cancelled"

-- The value of the third label.
abbrev pub last_label : Vector → List String → Bool
last_label upgrade_attempts (_ ∷ _ ∷ r ∷ []) = is_result r
last_label update_status (_ ∷ _ ∷ s ∷ []) = is_lifecycle s
last_label _ _ = true

-- WithLabelValues panics unless it is given as many values as the vector has labels.
abbrev pub is_labelled : Vector → List String → Bool
is_labelled v labels = (length labels == length (label_names v)) && last_label v labels

-- Set is a method of gauges only.
abbrev pub is_documented : Write → Bool
is_documented (set v labels _) = is_labelled v labels && not (is_counter v)
is_documented (inc v labels) = is_labelled v labels

-- A lifecycle state is only ever set to 1.
abbrev pub is_lit : Write → Bool
is_lit (set update_status _ (number n)) = n == 1
is_lit (set update_status _ (seconds _)) = false
is_lit (set update_status _ (unix _)) = false
is_lit (inc update_status _) = false
is_lit _ = true

abbrev pub is_outdated : Vector → Bool
is_outdated outdated_node_groups = true
is_outdated _ = false

abbrev pub counts_outdated : Write → Bool
counts_outdated (set v _ _) = is_outdated v
counts_outdated (inc v _) = is_outdated v

-- With `others`, the count of outdated node groups is left alone.
abbrev pub is_made : Bool → Write → Bool
is_made others w = is_documented w && is_lit w && not (counts_outdated w && others)

-- The writes `ws`, and some that are made so.
pub data Grows (others : Bool) (ws : List Write) : List Write → Type 0 where
  same : Grows others ws ws
  more :
      {vs : List Write} {x : Write}
      → is_made others x ≡ true
      → Grows others ws vs
      → Grows others ws (x ∷ vs)

abbrev pub AllDocumented : List Write → Type 0
AllDocumented ws = All (λ w. is_documented w ≡ true) ws

pub Grows-AllDocumented :
    {others : Bool} {ws vs : List Write} → Grows others ws vs → AllDocumented ws → AllDocumented vs
Grows-AllDocumented same all = all
Grows-AllDocumented (more h g) all = (ground arith, Grows-AllDocumented g all)
