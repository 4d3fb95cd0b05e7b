-- ===== src/Upgrade/Counted.antt =====
-- The count of outdated node groups behind ProcessUpgrade of internal/upgrade/upgrade.go.
use eks_ami_operator.Base.{
  ◌≡◌, ◌∙◌, ◌⊎◌, inl, inr, refl, String, str_eq, List, [], ◌∷◌, some, Bool-cases,
}
use eks_ami_operator.Api.{Policy}
use eks_ami_operator.Metrics.{Write, set, inc, number, outdated_node_groups, compliance_status}
use eks_ami_operator.Metrics.Documented.{same}
use eks_ami_operator.Metrics.Reading.{reading, same_labels_refl, Grows-outdated}
use eks_ami_operator.World.{Config, Env, World}
use eks_ami_operator.World.Metered.{Metered-Free}
use eks_ami_operator.Upgrade.Status.{labels, set_upgrade_status, upgrade_status_succeeded}
use eks_ami_operator.Upgrade.Track.{is_tracked}
use eks_ami_operator.Upgrade.Process.{track_idle, track_handles}
use eks_ami_operator.Upgrade.Initiate.{
  set_compliant, handle_not_in_flight, after_tracking, record_check, process_upgrade,
}
use eks_ami_operator.Upgrade.Kept.{record_check-Keeps, track-Keeps, idle-Keeps, counted-Keeps}

-- The count reads 0, and it reads 0 or 1.
abbrev pub IsZero : List String → List Write → Type 0
IsZero ls ws = reading outdated_node_groups ls ws ≡ some (number 0)

abbrev pub AtMostOne : List String → List Write → Type 0
AtMostOne ls ws = IsZero ls ws ⊎ (reading outdated_node_groups ls ws ≡ some (number 1))

abbrev pub cluster_of : Policy → List String
cluster_of p = p.spec.cluster_name ∷ []

pub set-IsZero :
    (ls : List String) (ws : List Write) → IsZero ls (set outdated_node_groups ls (number 0) ∷ ws)
unfolding reading
set-IsZero ls ws = rw (same_labels_refl ls) refl

inc-one :
    (ls : List String) (ws : List Write)
    → IsZero ls ws
    → reading outdated_node_groups ls (inc outdated_node_groups ls ∷ ws) ≡ some (number 1)
unfolding reading
inc-one ls ws h = rw (same_labels_refl ls, h) refl

module _ (env : Env) where
  compliant-IsZero :
      (p : Policy) (w : World) → IsZero (cluster_of p) (set_compliant env p w).1.metrics
  unfolding set_compliant
  compliant-IsZero p w =
      let ls = cluster_of p in
      let ws = set compliance_status (labels p) (number 1) ∷ w.metrics in
      let v : World = record w {
        policy = record (w.policy) {
          status = set_upgrade_status upgrade_status_succeeded w.policy.status;
        };
        metrics = set outdated_node_groups ls (number 0) ∷ ws;
      } in
      Grows-outdated ls ((idle-Keeps env (Metered-Free env) p).at v same) ∙ set-IsZero ls ws

  handle-AtMostOne :
      (eks : Config) (current latest : String) (w : World)
      → IsZero (cluster_of w.policy) w.metrics
      → AtMostOne (cluster_of w.policy) (handle_not_in_flight env eks current latest w).1.metrics
  unfolding handle_not_in_flight reading
  handle-AtMostOne eks current latest w zero =
      let p = w.policy in
      let ls = cluster_of p in
      let ws = set compliance_status (labels p) (number 0) ∷ w.metrics in
      let v : World = record w { metrics = inc outdated_node_groups ls ∷ ws } in
      elim (Bool-cases (str_eq current latest)) [
        | inl equal ↦ rw equal (inl (compliant-IsZero p w))
        | inr differ ↦ rw differ (
            inr (
              Grows-outdated ls ((counted-Keeps env (Metered-Free env) p eks latest).at v same)
              ∙ inc-one ls ws zero))
      ]

  -- Behind ProcessUpgrade the count of a cluster that was reset to 0 reads at most 1.
  pub process_upgrade-AtMostOne :
      (current latest : String) (eks : Config) (w : World)
      → IsZero (cluster_of w.policy) w.metrics
      → AtMostOne (cluster_of w.policy) (process_upgrade env current latest eks w).1.metrics
  unfolding process_upgrade record_check
  process_upgrade-AtMostOne current latest eks w zero =
      let ls = cluster_of w.policy in
      let (_, v) = record_check env current latest w in
      let checked =
        Grows-outdated ls ((record_check-Keeps env (Metered-Free env) current latest).at w same) in
      let polled = Grows-outdated ls ((track-Keeps env (Metered-Free env) eks).at v same) in
      elim (Bool-cases (is_tracked w.policy.status)) [
        | inl tracked ↦
            rw (track_handles env eks v tracked, after_tracking) (inl (polled ∙ checked ∙ zero))
        | inr idle ↦
            rw (track_idle env eks v idle) (handle-AtMostOne eks current latest v (checked ∙ zero))
      ]
