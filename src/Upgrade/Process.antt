-- ===== src/Upgrade/Process.antt =====
-- What ProcessUpgrade of internal/upgrade/upgrade.go starts.
use eks_ami_operator.Base.{
  ◌≡◌, ◌≢◌, ◌⊎◌, inl, inr, refl, true, false, String, [], ◌∷◌, Option, none, arith, str_eq,
  str_eq_sound, str_ne, ◌∙◌, Bool-cases,
}
use eks_ami_operator.Go.Error.{Result, ok, err}
use eks_ami_operator.Api.{Policy}
use eks_ami_operator.Metrics.{number, outdated_node_groups}
use eks_ami_operator.World.{Config, Call, Env, World, ◌>>◌, inc_counter}
use eks_ami_operator.Upgrade.Status.{set_compliance}
use eks_ami_operator.World.Kube
use eks_ami_operator.World.Frame.{initiations}
use eks_ami_operator.Aws.{UpdateOutcome, describe_nodegroup_update}
use eks_ami_operator.Upgrade.Track.{
  is_tracked, set_terminal_failure, set_terminal_success, keep_in_flight, on_status, on_outcome,
  track_in_flight_update,
}
use eks_ami_operator.Upgrade.Initiate.{
  stamp_next_cron_window, set_compliant, set_skipped, on_initiation, initiate, handle_not_in_flight,
  record_check, after_tracking, process_upgrade,
}

-- No update is started between the two states.
abbrev pub StartsNone : World → World → Type 0
StartsNone w w' = initiations w'.calls ≡ initiations w.calls

-- One update is started, for the node group of `p` and to `release`.
abbrev pub StartsOne : Policy → Config → String → World → World → Type 0
StartsOne p eks release w w' =
    initiations w'.calls
    ≡ Call.update_nodegroup_version eks p.spec.cluster_name p.spec.node_group_name release
      ∷ initiations w.calls

module _ (env : Env) where
  keep_in_flight_none : (p : Policy) (w : World) → StartsNone w (keep_in_flight env p w).1
  unfolding keep_in_flight
  keep_in_flight_none p w = ground arith

  terminal_success_none : (p : Policy) (w : World) → StartsNone w (set_terminal_success env p w).1
  unfolding set_terminal_success
  terminal_success_none p w = ground arith

  terminal_failure_none :
      (p : Policy) (o : UpdateOutcome) (s : String) (w : World)
      → StartsNone w (set_terminal_failure env p o s w).1
  unfolding set_terminal_failure
  terminal_failure_none p o s w = ground arith

  on_status_none :
      (p : Policy) (o : UpdateOutcome) (w : World) → StartsNone w (on_status env p o w).1
  unfolding on_status
  on_status_none p o w = ground (
    arith,
    keep_in_flight_none p w,
    terminal_success_none p w,
    terminal_failure_none p o "failed" w,
    terminal_failure_none p o "cancelled" w,
  )

  on_outcome_none :
      (p : Policy) (r : Result UpdateOutcome) (w : World) → StartsNone w (on_outcome env p r w).1
  unfolding on_outcome
  on_outcome_none p (err _) w = keep_in_flight_none p w
  on_outcome_none p (ok o) w = on_status_none p o _

  track_none : (eks : Config) (w : World) → StartsNone w (track_in_flight_update env eks w).1
  unfolding track_in_flight_update describe_nodegroup_update
  track_none eks w = elim (Bool-cases (is_tracked w.policy.status)) [
    | inl tracked ↦ rw tracked (on_outcome_none w.policy _ _)
    | inr idle ↦ rw idle
  ]

  stamp_none : (w : World) → StartsNone w (stamp_next_cron_window env w).1
  unfolding stamp_next_cron_window
  stamp_none w = ground arith

  persist_none : (w : World) → StartsNone w (Kube.update_status env w).1
  persist_none w = ground arith

  compliant_none : (p : Policy) (w : World) → StartsNone w (set_compliant env p w).1
  unfolding set_compliant
  compliant_none p w = ground arith

  skipped_none : (p : Policy) (w : World) → StartsNone w (set_skipped env p w).1
  unfolding set_skipped
  skipped_none p w = ground arith

  on_initiation_none :
      (p : Policy) (r : Result (Option String)) (w : World)
      → StartsNone w (on_initiation env p r w).1
  unfolding on_initiation
  on_initiation_none p (err _) w = ground arith
  on_initiation_none p (ok id) w = persist_none _ ∙ stamp_none _

  initiate_one :
      (p : Policy) (eks : Config) (release : String) (w : World)
      → StartsOne p eks release w (initiate env p eks release w).1
  unfolding initiate
  initiate_one p eks release w = on_initiation_none p _ _

  -- The conditions for an update to be started.
  abbrev pub IsUpgradable : Policy → String → String → Type 0
  IsUpgradable p current latest =
      (is_tracked p.status ≡ false) × (current ≢ latest) × (p.spec.auto_upgrade ≡ true)

  -- The metrics of an outdated node group.
  abbrev pub outdated : World → World
  outdated w =
      ((set_compliance w.policy (number 0)
          >> inc_counter outdated_node_groups (w.policy.spec.cluster_name ∷ []))
        w).1

  not_in_flight_starts :
      (eks : Config) (current latest : String) (w : World)
      → current ≢ latest
      → w.policy.spec.auto_upgrade ≡ true
      → StartsOne w.policy eks latest w (handle_not_in_flight env eks current latest w).1
  unfolding handle_not_in_flight
  not_in_flight_starts eks current latest w h k = elim (Bool-cases (str_eq current latest)) [
    | inl same ↦ absurd (h (str_eq_sound _ _ same))
    | inr differ ↦ rw differ (ground (arith, initiate_one w.policy eks latest (outdated w)))
  ]

  not_in_flight_none :
      (eks : Config) (current latest : String) (w : World)
      → ¬ ((current ≢ latest) × (w.policy.spec.auto_upgrade ≡ true))
      → StartsNone w (handle_not_in_flight env eks current latest w).1
  unfolding handle_not_in_flight
  not_in_flight_none eks current latest w h = elim (Bool-cases (str_eq current latest)) [
    | inl same ↦ rw same (compliant_none w.policy w)
    | inr differ ↦ elim (Bool-cases w.policy.spec.auto_upgrade) [
      | inl auto ↦ absurd (h (str_ne _ _ differ, auto))
      | inr manual ↦ rw differ (ground (arith, skipped_none w.policy (outdated w)))
    ]
  ]

  pub track_idle :
      (eks : Config) (w : World)
      → is_tracked w.policy.status ≡ false
      → track_in_flight_update env eks w ≡ ((false, none), w)
  unfolding track_in_flight_update
  track_idle eks w h = rw h

  on_status_handles :
      (p : Policy) (o : UpdateOutcome) (w : World) → (on_status env p o w).0.0 ≡ true
  unfolding on_status keep_in_flight set_terminal_success set_terminal_failure
  on_status_handles p o w = ground arith

  on_outcome_handles :
      (p : Policy) (r : Result UpdateOutcome) (w : World) → (on_outcome env p r w).0.0 ≡ true
  unfolding on_outcome keep_in_flight
  on_outcome_handles p (err _) w = refl
  on_outcome_handles p (ok o) w = on_status_handles p o _

  pub track_handles :
      (eks : Config) (w : World)
      → is_tracked w.policy.status ≡ true
      → (track_in_flight_update env eks w).0.0 ≡ true
  unfolding track_in_flight_update describe_nodegroup_update
  track_handles eks w h = rw h (on_outcome_handles w.policy _ _)

  process_starts :
      (eks : Config) (current latest : String) (w : World)
      → IsUpgradable w.policy current latest
      → StartsOne w.policy eks latest w (process_upgrade env current latest eks w).1
  unfolding process_upgrade record_check
  process_starts eks current latest w (idle, differ, auto) =
      let v = (record_check env current latest w).1 in
      rw (track_idle eks v idle) (not_in_flight_starts eks current latest v differ auto)

  process_none :
      (eks : Config) (current latest : String) (w : World)
      → ¬ IsUpgradable w.policy current latest
      → StartsNone w (process_upgrade env current latest eks w).1
  unfolding process_upgrade record_check
  process_none eks current latest w h =
      let v = (record_check env current latest w).1 in
      elim (Bool-cases (is_tracked w.policy.status)) [
        | inl tracked ↦ rw (track_handles eks v tracked, after_tracking) (track_none eks v)
        | inr idle ↦
            rw (track_idle eks v idle)
              (not_in_flight_none eks current latest v (λ k. h (idle, k.0, k.1)))
      ]

  -- ProcessUpgrade starts exactly one update, of the policy's node group and to the latest release,
  -- if no update is in flight, the release differs from the latest and autoUpgrade is set; in every
  -- other case it starts none.
  pub process_upgrade_starts_iff :
      (eks : Config) (current latest : String) (w : World)
      → (IsUpgradable w.policy current latest
          → StartsOne w.policy eks latest w (process_upgrade env current latest eks w).1)
        × (¬ IsUpgradable w.policy current latest
            → StartsNone w (process_upgrade env current latest eks w).1)
  process_upgrade_starts_iff eks current latest w =
      (process_starts eks current latest w, process_none eks current latest w)

  IsUpgradable-cases :
      (p : Policy) (current latest : String)
      → IsUpgradable p current latest ⊎ ¬ IsUpgradable p current latest
  IsUpgradable-cases p current latest =
      ground (arith, str_eq_sound current latest, str_ne current latest)

  pub process_upgrade_cases :
      (eks : Config) (current latest : String) (w : World)
      → StartsNone w (process_upgrade env current latest eks w).1
        ⊎ (IsUpgradable w.policy current latest
            × StartsOne w.policy eks latest w (process_upgrade env current latest eks w).1)
  process_upgrade_cases eks current latest w = elim (IsUpgradable-cases w.policy current latest) [
    | inl yes' ↦ inr (yes', process_starts eks current latest w yes')
    | inr no' ↦ inl (process_none eks current latest w no')
  ]
