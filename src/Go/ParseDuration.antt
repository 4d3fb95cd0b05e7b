-- ===== src/Go/ParseDuration.antt =====
-- time.ParseDuration. The product of a fraction and its unit is taken in float64: it is a
-- parameter, `scale_fraction f unit scale` for uint64(float64(f) * (float64(unit) / scale)).
pub mod Fuel
pub mod Hours
use Prim.Native.Char.{Char, code}
use eks_ami_operator.Base.{
  ℕ, zero, suc, ◌+◌, ◌-◌, ◌*◌, ◌/◌, ◌%◌, ◌^◌, ◌≡◌, refl, Bool, true, false, not, ◌&&◌, ◌||◌, String,
  leb, ltb, ◌==◌, str_eq, if◌then◌else◌, Option, none, some,
}
use eks_ami_operator.Base.Int.{ℤ, pos, negsuc}
use eks_ami_operator.Go.Time.{Duration, second, minute, hour}
use eks_ami_operator.Go.Error.{Error, plain, Result, ok, err}
use eks_ami_operator.Go.Scan.{is_digit, take_sign}
use Prim.Native.String.{len}

-- leadingInt: `none` on overflow.
pub leading_int : ℕ → String → Option (ℕ × String)
leading_int x String.[] = some (x, String.[])
leading_int x (String.◌∷◌ c s) =
    let y = x * 10 + (code c - b'0') in
    let rest = leading_int y s in
    if not (is_digit c)
    then some (x, String.◌∷◌ c s)
    else if ltb (2 ^ 63 / 10) x
    then none
    else if ltb (2 ^ 63) y
    then none
    else rest

-- leadingFraction: digits that no longer fit are read and dropped.
pub leading_fraction : ℕ → ℕ → Bool → String → ℕ × ℕ × String
leading_fraction x scale overflow String.[] = (x, scale, String.[])
leading_fraction x scale overflow (String.◌∷◌ c s) =
    let y = x * 10 + (code c - b'0') in
    let dropped = leading_fraction x scale true s in
    let kept = leading_fraction y (scale * 10) false s in
    if not (is_digit c)
    then (x, scale, String.◌∷◌ c s)
    else if overflow || ltb ((2 ^ 63 - 1) / 10) x || ltb (2 ^ 63) y
    then dropped
    else kept

-- The unit at the head of a text: all up to the next dot or digit.
pub take_unit : String → String × String
take_unit String.[] = (String.[], String.[])
take_unit (String.◌∷◌ c s) =
    let (unit, rest) = take_unit s in
    if code c == b'.' || is_digit c then (String.[], String.◌∷◌ c s) else (String.◌∷◌ c unit, rest)

-- unitMap
abbrev pub unit_map : String → Option ℕ
unit_map u =
    if str_eq u "ns"
    then some 1
    else if str_eq u "us" || str_eq u "µs" || str_eq u "μs"
    then some 1_000
    else if str_eq u "ms"
    then some 1_000_000
    else if str_eq u "s"
    then some second
    else if str_eq u "m"
    then some minute
    else if str_eq u "h"
    then some hour
    else none

abbrev pub starts_number : String → Bool
starts_number String.[] = false
starts_number (String.◌∷◌ c _) = code c == b'.' || is_digit c

-- The part behind a dot: its digits, its scale, whether it has a digit, and what follows.
abbrev pub fraction : String → ℕ × ℕ × Bool × String
fraction String.[] = (0, 1, false, String.[])
fraction (String.◌∷◌ c s) =
    let (f, scale, rest) = leading_fraction 0 1 false s in
    if code c == b'.'
    then (f, scale, not (len s == len rest), rest)
    else (0, 1, false, String.◌∷◌ c s)

module _ (scale_fraction : ℕ → ℕ → ℕ → ℕ) where
  -- The value of one number with its unit, from its digits; `none` is an error.
  abbrev pub component : ℕ → ℕ → ℕ → ℕ → Option ℕ
  component v f scale unit =
      if ltb (2 ^ 63 / unit) v
      then none
      else if f == 0
      then some (v * unit)
      else (let w = (v * unit + scale_fraction f unit scale) % 2 ^ 64 in
          if ltb (2 ^ 63) w then none else some w)

  abbrev pub beside : String → Option ℕ → Option (ℕ × String)
  beside rest none = none
  beside rest (some w) = some (w, rest)

  abbrev pub by_unit : ℕ → ℕ → ℕ → String → Option ℕ → Option (ℕ × String)
  by_unit v f scale rest none = none
  by_unit v f scale rest (some unit) = beside rest (component v f scale unit)

  abbrev pub with_unit : ℕ → ℕ → ℕ → String × String → Option (ℕ × String)
  with_unit v f scale (u, rest) = if str_eq u "" then none else by_unit v f scale rest (unit_map u)

  abbrev pub after_int : String → ℕ × String → Option (ℕ × String)
  after_int s (v, t) =
      let (f, scale, post, rest) = fraction t in
      if not (len s == len t) || post then with_unit v f scale (take_unit rest) else none

  abbrev pub by_int : String → Option (ℕ × String) → Option (ℕ × String)
  by_int s none = none
  by_int s (some r) = after_int s r

  -- One round of the loop: [0-9]*(\.[0-9]*)? and a unit.
  pub one_component : String → Option (ℕ × String)
  unfolding leading_int leading_fraction take_unit
  one_component s = if starts_number s then by_int s (leading_int 0 s) else none

  -- What the loop makes of a round, with `later` for the rest of the loop.
  abbrev pub after_round : (ℕ → String → Option ℕ) → ℕ → Option (ℕ × String) → Option ℕ
  after_round later d none = none
  after_round later d (some (v, rest)) =
      let e = (d + v) % 2 ^ 64 in let k = later e rest in if ltb (2 ^ 63) e then none else k

  -- The loop over the components; the sum is a uint64. A round reads a character at least, so the length of the text
  -- is fuel enough.
  pub components : ℕ → ℕ → String → Option ℕ
  components fuel d String.[] = some d
  components zero d (String.◌∷◌ c s) = none
  components (suc fuel) d (String.◌∷◌ c s) =
      after_round (λ e rest. components fuel e rest) d (one_component (String.◌∷◌ c s))

  abbrev finish : Bool → Option ℕ → Result Duration
  finish neg none = err (plain "time: invalid duration")
  finish true (some d) = ok (if d == 0 then pos 0 else negsuc (d - 1))
  finish false (some d) =
      if ltb d (2 ^ 63) then ok (pos d) else err (plain "time: invalid duration")

  -- With `rounds` rounds of the loop at most.
  abbrev pub unsigned : ℕ → Bool × String → Result Duration
  unsigned rounds (neg, s) =
      if str_eq s "0"
      then ok (pos 0)
      else if str_eq s ""
      then err (plain "time: invalid duration")
      else finish neg (components rounds 0 s)

  -- As many rounds as the text is long.
  abbrev enough : Bool × String → Result Duration
  enough (neg, s) = unsigned (len s) (neg, s)

  unfoldable pub parse_duration : String → Result Duration
  unfolding one_component components
  parse_duration s = enough (take_sign s)
