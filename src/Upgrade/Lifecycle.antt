-- ===== src/Upgrade/Lifecycle.antt =====
-- The life cycle of an update in the status that ProcessUpgrade of internal/upgrade/upgrade.go
-- stores: the table of README.md, as a relation between statuses.
use eks_ami_operator.Base.{
  ◌≡◌, ◌≢◌, ◌⊎◌, refl, Bool, true, false, String, List, [], arith, str_eq_sound, str_ne, ◌∙◌,
}
use eks_ami_operator.Go.Time.{Time}
use eks_ami_operator.Go.Error.{Error, Result, ok, err}
use eks_ami_operator.Aws.{UpdateOutcome}
use eks_ami_operator.Api.{Policy, Status}
use eks_ami_operator.Upgrade.Status.{
  upgrade_status_failed, upgrade_status_in_progress, upgrade_status_succeeded,
  upgrade_status_skipped, eks_in_progress, eks_successful, eks_failed, eks_cancelled,
}
use eks_ami_operator.Upgrade.Track.{is_tracked}

-- The answers of EKS that trackInFlightUpdate takes as still in progress.
abbrev pub IsRunning : String → Type 0
IsRunning s = (s ≢ eks_successful) × (s ≢ eks_failed) × (s ≢ eks_cancelled)

-- What EKS and the clock answer: to the poll of an update, and to the start of one.
pub record Seen : Type 0 where
  pub polled : Result UpdateOutcome
  pub polled_at : Time
  pub started : Result String
  pub started_at : Time

-- The update in flight is the same, and nothing was read of it.
pub record SameUpdate (s s' : Status) : Type 0 where
  pub same_id : s'.update_id ≡ s.update_id
  pub same_state : s'.update_status ≡ s.update_status
  pub same_errors : s'.update_errors ≡ s.update_errors
  pub same_progress : s'.last_progress_check ≡ s.last_progress_check

abbrev pub SameAttempt : Status → Status → Type 0
SameAttempt s s' = s'.last_upgrade_attempt ≡ s.last_upgrade_attempt

-- The update in flight was read: the status has what EKS says of it, `o`, and the time.
pub record Polled (seen : Seen) (o : UpdateOutcome) (s s' : Status) : Type 0 where
  pub tracked : is_tracked s ≡ true
  pub answer : seen.polled ≡ ok o
  pub polled_id : s'.update_id ≡ s.update_id
  pub polled_state : s'.update_status ≡ o.status
  pub polled_time : s'.last_progress_check ≡ seen.polled_at
  pub polled_attempt : s'.last_upgrade_attempt ≡ s.last_upgrade_attempt

-- The moves of a status. The first four are about an update that is in flight, the others find none.
pub data Moves (seen : Seen) (auto_upgrade : Bool) (current latest : String)
    : Status → Status → Type 0 where
  unread :
      {s s' : Status} {e : Error}
      → is_tracked s ≡ true
      → seen.polled ≡ err e
      → s'.upgrade_status ≡ s.upgrade_status
      → SameUpdate s s'
      → SameAttempt s s'
      → Moves seen auto_upgrade current latest s s'
  running :
      {s s' : Status} {o : UpdateOutcome}
      → Polled seen o s s'
      → IsRunning o.status
      → s'.upgrade_status ≡ s.upgrade_status
      → s'.update_errors ≡ s.update_errors
      → Moves seen auto_upgrade current latest s s'
  finished :
      {s s' : Status} {o : UpdateOutcome}
      → Polled seen o s s'
      → o.status ≡ eks_successful
      → s'.upgrade_status ≡ upgrade_status_succeeded
      → s'.update_errors ≡ []
      → Moves seen auto_upgrade current latest s s'
  stopped :
      {s s' : Status} {o : UpdateOutcome}
      → Polled seen o s s'
      → (o.status ≡ eks_failed) ⊎ (o.status ≡ eks_cancelled)
      → s'.upgrade_status ≡ upgrade_status_failed
      → s'.update_errors ≡ o.errors
      → Moves seen auto_upgrade current latest s s'
  compliant :
      {s s' : Status}
      → is_tracked s ≡ false
      → current ≡ latest
      → s'.upgrade_status ≡ upgrade_status_succeeded
      → SameUpdate s s'
      → SameAttempt s s'
      → Moves seen auto_upgrade current latest s s'
  skipped :
      {s s' : Status}
      → is_tracked s ≡ false
      → current ≢ latest
      → auto_upgrade ≡ false
      → s'.upgrade_status ≡ upgrade_status_skipped
      → SameUpdate s s'
      → SameAttempt s s'
      → Moves seen auto_upgrade current latest s s'
  refused :
      {s s' : Status} {e : Error}
      → is_tracked s ≡ false
      → current ≢ latest
      → auto_upgrade ≡ true
      → seen.started ≡ err e
      → s'.upgrade_status ≡ upgrade_status_failed
      → SameUpdate s s'
      → s'.last_upgrade_attempt ≡ seen.started_at
      → Moves seen auto_upgrade current latest s s'
  initiated :
      {s s' : Status}
      → is_tracked s ≡ false
      → current ≢ latest
      → auto_upgrade ≡ true
      → seen.started ≡ ok s'.update_id
      → s'.upgrade_status ≡ upgrade_status_in_progress
      → s'.update_status ≡ eks_in_progress
      → s'.update_errors ≡ s.update_errors
      → s'.last_progress_check ≡ s.last_progress_check
      → s'.last_upgrade_attempt ≡ seen.started_at
      → Moves seen auto_upgrade current latest s s'

-- What process_upgrade stores for the policy `old` that it checks at the instant `at`, with the answers
-- `seen`.
pub record Checked (seen : Seen) (old : Policy) (at : Time) (current latest : String) (new : Policy)
    : Type 0 where
  pub same_spec : new.spec ≡ old.spec
  pub same_name : new.name ≡ old.name
  pub same_conditions : new.status.conditions ≡ old.status.conditions
  pub last_checked-eq : new.status.last_checked ≡ at
  pub current_ami-eq : new.status.current_ami ≡ current
  pub target_ami-eq : new.status.target_ami ≡ latest
  pub moves : Moves seen old.spec.auto_upgrade current latest old.status new.status

-- A status that `record_check` has written, with the last attempt at `tried`.
pub record Recorded (old : Policy) (at tried : Time) (current latest : String) (p : Policy)
    : Type 0 where
  pub spec-eq : p.spec ≡ old.spec
  pub name-eq : p.name ≡ old.name
  pub conditions-eq : p.status.conditions ≡ old.status.conditions
  pub checked-eq : p.status.last_checked ≡ at
  pub current-eq : p.status.current_ami ≡ current
  pub target-eq : p.status.target_ami ≡ latest
  pub upgrade-eq : p.status.upgrade_status ≡ old.status.upgrade_status
  pub same_update : SameUpdate old.status p.status
  pub attempt-eq : p.status.last_upgrade_attempt ≡ tried

-- What `record_check` keeps of the record is kept by a new status that agrees in these fields.
pub checked :
    {seen : Seen} {old p : Policy} {at tried : Time} {current latest : String}
    (r : Recorded old at tried current latest p) (s : Status)
    → s.conditions ≡ p.status.conditions
    → s.last_checked ≡ p.status.last_checked
    → s.current_ami ≡ p.status.current_ami
    → s.target_ami ≡ p.status.target_ami
    → Moves seen old.spec.auto_upgrade current latest old.status s
    → Checked seen old at current latest (record p { status = s })
checked r s same_conditions same_check same_current same_target m = record {
  same_spec = r.spec-eq;
  same_name = r.name-eq;
  same_conditions = same_conditions ∙ r.conditions-eq;
  last_checked-eq = same_check ∙ r.checked-eq;
  current_ami-eq = same_current ∙ r.current-eq;
  target_ami-eq = same_target ∙ r.target-eq;
  moves = m;
}

pub carried :
    {s t : Status}
    → SameUpdate s t
    → (u : Status) → u.update_id ≡ t.update_id
    → u.update_status ≡ t.update_status
    → u.update_errors ≡ t.update_errors
    → u.last_progress_check ≡ t.last_progress_check
    → SameUpdate s u
carried k u same_id same_state same_errors same_progress = record {
  same_id = same_id ∙ k.same_id;
  same_state = same_state ∙ k.same_state;
  same_errors = same_errors ∙ k.same_errors;
  same_progress = same_progress ∙ k.same_progress;
}

pub eks_cases :
    (s : String) → IsRunning s ⊎ (s ≡ eks_successful) ⊎ (s ≡ eks_failed) ⊎ (s ≡ eks_cancelled)
eks_cases s = ground (
  arith,
  str_eq_sound s eks_successful,
  str_eq_sound s eks_failed,
  str_eq_sound s eks_cancelled,
  str_ne s eks_successful,
  str_ne s eks_failed,
  str_ne s eks_cancelled,
)

pub attempted :
    {old p : Policy} {at tried : Time} {current latest : String}
    → Recorded old at tried current latest p
    → (t : Time)
    → Recorded old at t current latest
        (record p { status = record (p.status) { last_upgrade_attempt = t } })
attempted r t = record {
  spec-eq = r.spec-eq;
  name-eq = r.name-eq;
  conditions-eq = r.conditions-eq;
  checked-eq = r.checked-eq;
  current-eq = r.current-eq;
  target-eq = r.target-eq;
  upgrade-eq = r.upgrade-eq;
  same_update = carried r.same_update _ refl refl refl refl;
  attempt-eq = refl;
}

-- A status with the answer `o` of EKS, with another upgradeStatus and other errors, or the same.
pub Polled-of_answer :
    {seen : Seen} {old p : Policy} {at : Time} {current latest : String} {o : UpdateOutcome}
    → Recorded old at old.status.last_upgrade_attempt current latest p
    → is_tracked old.status ≡ true
    → seen.polled ≡ ok o
    → (upgrade_status : String) (errors : List String)
    → Polled seen o old.status (record (p.status) {
      upgrade_status = upgrade_status;
      update_errors = errors;
      update_status = o.status;
      last_progress_check = seen.polled_at;
    })
Polled-of_answer r tracked said upgrade_status errors = record {
  tracked = tracked;
  answer = said;
  polled_id = r.same_update.same_id;
  polled_state = refl;
  polled_time = refl;
  polled_attempt = r.attempt-eq;
}
