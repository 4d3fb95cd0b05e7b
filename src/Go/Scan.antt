-- ===== src/Go/Scan.antt =====
-- fmt.Sscanf with the format "%d.%d", whose operands are Go ints of 64 bits.
pub mod Decimal
use Prim.Native.Char.{Char, code}
use eks_ami_operator.Base.{
  ℕ, ◌+◌, ◌-◌, ◌*◌, ◌^◌, Bool, true, false, ◌&&◌, String, leb, ltb, ◌==◌, if◌then◌else◌,
}
use eks_ami_operator.Base.Int.{ℤ, pos, negsuc}
use eks_ami_operator.Go.Text.{is_space}
use eks_ami_operator.Go.Error.{plain, Result, ok, err}

abbrev pub is_digit : Char → Bool
is_digit c = leb b'0' (code c) && leb (code c) b'9'

-- SkipSpace of package fmt, where a line feed is no space.
skip_space : String → Result String
skip_space String.[] = ok String.[]
skip_space (String.◌∷◌ c s) =
    let rest = skip_space s in
    if code c == b'\n'
    then err (plain "unexpected newline")
    else if is_space c
    then rest
    else ok (String.◌∷◌ c s)

-- The digits at the head of a text: their number, how many they are, and what follows.
pub take_digits : ℕ → ℕ → String → ℕ × ℕ × String
take_digits n k String.[] = (n, k, String.[])
take_digits n k (String.◌∷◌ c s) =
    let rest = take_digits (n * 10 + (code c - b'0')) (k + 1) s in
    if is_digit c then rest else (n, k, String.◌∷◌ c s)

-- The sign at the head of a text: whether it is a minus, and what follows.
abbrev pub take_sign : String → Bool × String
take_sign String.[] = (false, String.[])
take_sign (String.◌∷◌ c s) =
    if code c == b'-'
    then (true, s)
    else if code c == b'+'
    then (false, s)
    else (false, String.◌∷◌ c s)

abbrev negate : ℕ → ℤ
negate n = if n == 0 then pos 0 else negsuc (n - 1)

abbrev int64 : Bool → ℕ × ℕ × String → Result (ℤ × String)
int64 neg (n, k, rest) =
    if k == 0
    then err (plain "expected integer")
    else if neg
    then (if leb n (2 ^ 63) then ok (negate n, rest) else err (plain "integer overflow"))
    else if ltb n (2 ^ 63)
    then ok (pos n, rest)
    else err (plain "integer overflow")

abbrev signed : Bool × String → Result (ℤ × String)
signed (neg, s) = int64 neg (take_digits 0 0 s)

-- The verb %d.
abbrev scan_int : String → Result (ℤ × String)
scan_int s = elim (skip_space s) [ ok t ↦ signed (take_sign t) | err e ↦ err e ]

abbrev scan_dot : String → Result String
scan_dot String.[] = err (plain "unexpected EOF")
scan_dot (String.◌∷◌ c s) =
    if code c == b'.' then ok s else err (plain "input does not match format")

-- The second operand of "%d.%d"; what follows it is not read.
unfoldable pub sscanf_minor : String → Result ℤ
unfolding skip_space take_digits
sscanf_minor s = elim (scan_int s) [
  | ok (_, t) ↦ elim (scan_dot t) [
    | ok u ↦ elim (scan_int u) [ ok (minor, _) ↦ ok minor | err e ↦ err e ]
    | err e ↦ err e
  ]
  | err e ↦ err e
]
