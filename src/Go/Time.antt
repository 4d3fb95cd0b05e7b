-- ===== src/Go/Time.antt =====
-- Go's time.Time and time.Duration. An instant is the number of nanoseconds since Go's zero time
-- (1 January of year 1, UTC), of any sign; a duration is a number of nanoseconds in an int64.
use eks_ami_operator.Base.{ℕ, ◌-◌, ◌*◌, ◌%◌, ◌^◌, ◌≡◌, Bool, arith, ltb, if◌then◌else◌}
use eks_ami_operator.Base.Int.{
  ℤ, pos, negsuc, ◌+ℤ◌, ◌-ℤ◌, ◌≤ℤ◌, ◌<ℤ◌, ltb_ℤ, leb_ℤ, eqb_ℤ, int_laws,
}

abbrev pub Time : Type 0
Time = ℤ

abbrev pub Duration : Type 0
Duration = ℤ

-- time.Nanosecond and its multiples.
abbrev pub nanosecond : Duration
nanosecond = pos 1

abbrev pub second : ℕ
second = 1_000_000_000

abbrev pub minute : ℕ
minute = 60 * second

abbrev pub hour : ℕ
hour = 60 * minute

abbrev pub max_duration : Duration
max_duration = pos (2 ^ 63 - 1)

abbrev pub min_duration : Duration
min_duration = negsuc (2 ^ 63 - 1)

abbrev pub zero_time : Time
zero_time = pos 0

-- Time.IsZero
abbrev pub is_zero : Time → Bool
is_zero t = eqb_ℤ t zero_time

-- Time.Before and Time.After
abbrev pub before : Time → Time → Bool
before t u = ltb_ℤ t u

abbrev pub after : Time → Time → Bool
after t u = ltb_ℤ u t

-- Time.Add: the sum is far inside the range of Go's instants, and is exact.
abbrev pub add : Time → Duration → Time
add t d = t +ℤ d

-- Time.Sub saturates.
abbrev saturate : ℤ → Duration
saturate z =
    if ltb_ℤ z min_duration then min_duration else if ltb_ℤ max_duration z then max_duration else z

unfoldable pub sub : Time → Time → Duration
sub t u = saturate (t -ℤ u)

-- int64 addition and subtraction wrap around.
abbrev to_word : ℤ → ℕ
to_word (pos n) = n % 2 ^ 64
to_word (negsuc n) = 2 ^ 64 - 1 - n % 2 ^ 64

abbrev of_word : ℕ → ℤ
of_word u = if ltb u (2 ^ 63) then pos u else negsuc (2 ^ 64 - 1 - u)

unfoldable pub add64 : Duration → Duration → Duration
add64 d e = of_word (to_word (d +ℤ e))

unfoldable pub sub64 : Duration → Duration → Duration
sub64 d e = of_word (to_word (d -ℤ e))

-- A value of an int64.
abbrev pub IsInt64 : ℤ → Type 0
IsInt64 z = (min_duration ≤ℤ z) × (z ≤ℤ max_duration)

pub sub-IsInt64 : (t u : Time) → IsInt64 (sub t u)
unfolding sub
sub-IsInt64 t u = ground arith

-- Inside the range the difference is exact.
pub sub_exact : (t u : Time) → IsInt64 (t -ℤ u) → sub t u ≡ t -ℤ u
unfolding sub
sub_exact t u h = ground arith

pub sub_pos : (t u : Time) → u <ℤ t → pos 0 <ℤ sub t u
unfolding sub
sub_pos t u h = grind int_laws

pub sub-le : (t u d : ℤ) → pos 0 ≤ℤ d → t ≤ℤ u +ℤ d → sub t u ≤ℤ d
unfolding sub
sub-le t u d h k = grind int_laws

-- A comparison with a bound that an int64 can hold is exact.
pub sub-le_iff :
    (t u d : ℤ) → min_duration ≤ℤ d → d <ℤ max_duration → leb_ℤ (sub t u) d ≡ leb_ℤ (t -ℤ u) d
unfolding sub
sub-le_iff t u d h k = ground arith

pub sub-lt_iff :
    (t u d : ℤ) → min_duration <ℤ d → d ≤ℤ max_duration → ltb_ℤ (sub t u) d ≡ ltb_ℤ (t -ℤ u) d
unfolding sub
sub-lt_iff t u d h k = ground arith

wrap_exact : (z : ℤ) → IsInt64 z → of_word (to_word z) ≡ z
wrap_exact (pos n) h = ground arith
wrap_exact (negsuc n) h = ground arith

pub add64_exact : (d e : Duration) → IsInt64 (d +ℤ e) → add64 d e ≡ d +ℤ e
unfolding add64
add64_exact d e h = wrap_exact _ h

pub sub64_exact : (d e : Duration) → IsInt64 (d -ℤ e) → sub64 d e ≡ d -ℤ e
unfolding sub64
sub64_exact d e h = wrap_exact _ h
