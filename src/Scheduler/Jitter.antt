-- ===== src/Scheduler/Jitter.antt =====
-- Bounds on Jitter of internal/scheduler/scheduler.go.
use eks_ami_operator.Base.{
  ℕ, suc, ◌+◌, ◌-◌, ◌*◌, ◌/◌, ◌^◌, ◌≤◌, ◌<◌, ◌==◌, ◌≡◌, arith, ◌∙◌, if◌then◌else◌,
}
use eks_ami_operator.Base.Int.{pos, ◌+ℤ◌, ◌-ℤ◌}
use eks_ami_operator.Go.Time.{add64, sub64, add64_exact, sub64_exact}
use eks_ami_operator.World.{Env, IsRandom, World}
use eks_ami_operator.Scheduler.{jitter}

add64-pos : (m n : ℕ) → m + n < 2 ^ 63 → add64 (pos m) (pos n) ≡ pos (m + n)
unfolding ◌+ℤ◌
add64-pos m n h = add64_exact (pos m) (pos n) (ground arith) ∙ ground arith

sub64-pos : (m n : ℕ) → m < 2 ^ 63 → n ≤ m → sub64 (pos m) (pos n) ≡ pos (m - n)
unfolding ◌-ℤ◌
sub64-pos m n h k = sub64_exact (pos m) (pos n) (ground arith) ∙ ground arith

-- The number that `jitter` gives for a positive duration, by its two draws.
abbrev moved : ℕ → ℕ → ℕ → ℕ
moved n delta side = if n / 10 == 0 then n else if side == 0 then n - delta else n + delta

moved_bounds :
    (n delta side : ℕ)
    → 0 < n
    → (0 < n / 10 → delta < n / 10)
    → (0 < moved n delta side)
      × (9 * n < 10 * moved n delta side)
      × (10 * moved n delta side < 11 * n)
moved_bounds n delta side p h = ground arith

jitter-eq-moved :
    (env : Env) (n : ℕ) (w : World)
    → 0 < n
    → n + n / 10 < 2 ^ 63
    → (0 < n / 10 → env.int63n w.tick (n / 10) < n / 10)
    → (jitter env (pos n) w).0
      ≡ pos (moved n (env.int63n w.tick (n / 10)) (env.intn (suc w.tick) 2))
unfolding jitter
jitter-eq-moved env n w p room h =
    let delta = env.int63n w.tick (n / 10) in ground (arith, add64-pos n delta, sub64-pos n delta)

-- With generators that draw below their bound, a positive duration that has room for a tenth more
-- in an int64 is moved by less than a tenth, up or down, and stays positive.
pub jitter_bounds :
    (env : Env) (n : ℕ) (w : World)
    → IsRandom env
    → 0 < n
    → n + n / 10 < 2 ^ 63
    → (m : ℕ) × ((jitter env (pos n) w).0 ≡ pos m) × (0 < m) × (9 * n < 10 * m) × (10 * m < 11 * n)
jitter_bounds env n w random p room =
    let h = random.int63n-lt w.tick (n / 10) in
    let (positive, above, below) =
      moved_bounds n (env.int63n w.tick (n / 10)) (env.intn (suc w.tick) 2) p h in
    (_, jitter-eq-moved env n w p room h, positive, above, below)
