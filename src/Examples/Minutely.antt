-- ===== src/Examples/Minutely.antt =====
-- A cron expression that fires at every minute, as robfig/cron's Next.
use eks_ami_operator.Base.{◌+◌, ◌*◌, ◌/◌, ◌%◌, ◌≡◌, refl, arith}
use eks_ami_operator.Base.Int.{pos, negsuc, pos_part, neg_part, sub_ℕ, ◌+ℤ◌, ◌≤ℤ◌, ◌<ℤ◌, int_laws}
use eks_ami_operator.Go.Time.{Time, minute}
use eks_ami_operator.Scheduler.Cron.{IsNext}

-- The least whole minute later than an instant.
abbrev pub minutely : Time → Time
minutely (pos n) = pos ((n / minute + 1) * minute)
minutely (negsuc n) = sub_ℕ 0 (n / minute * minute)

-- A whole minute.
abbrev pub IsWhole : Time → Type 0
IsWhole t = (pos_part t % minute ≡ 0) × (neg_part t % minute ≡ 0)

fires : (t : Time) → IsWhole (minutely t)
fires (pos n) = (omega arith, refl)
fires (negsuc n) = ground arith

later : (t : Time) → t <ℤ minutely t
later (pos n) = omega arith
later (negsuc n) = ground arith

least : (t u : Time) → IsWhole u → t <ℤ u → minutely t ≤ℤ u
least (pos n) (pos m) h k = ground arith
least (pos n) (negsuc m) h k = absurd (omega arith)
least (negsuc n) (pos m) h k = ground arith
least (negsuc n) (negsuc m) h k = ground arith

apart : (t u : Time) → IsWhole t → IsWhole u → t <ℤ u → t +ℤ pos minute ≤ℤ u
apart (pos n) (pos m) h k l = omega int_laws
apart (pos n) (negsuc m) h k l = absurd (omega arith)
apart (negsuc n) (pos m) h k l = omega int_laws
apart (negsuc n) (negsuc m) h k l = omega int_laws

pub minutely-IsNext : IsNext minutely IsWhole
minutely-IsNext = record { fires = fires; later = later; least = least; apart = apart }
