-- ===== src/Go/ParseDuration/Hours.antt =====
-- time.ParseDuration on a printed number of hours, as in "24h".
use Prim.Native.Char.{Char}
use Prim.Native.String.len
use Prim.Native.String.{len}
use text.Mathlib.TextPositions.{len_utf8-pos}
use eks_ami_operator.Base.{
  ℕ, zero, suc, ◌+◌, ◌*◌, ◌/◌, ◌%◌, ◌^◌, ◌≤◌, ◌<◌, ◌≡◌, ◌∙◌, refl, sym, ap, arith, true, false,
  String, ◌==◌, str_eq, str_eq_sound, some, Bool-cases, inl, inr,
}
use eks_ami_operator.Base.Int.{pos}
use eks_ami_operator.Go.Time.{hour}
use eks_ami_operator.Go.Text.{◌<>◌}
use eks_ami_operator.Go.Error.{ok}
use eks_ami_operator.Go.Scan.Decimal.{
  digit, digit-code, emit, decimal, Digits, emit-Digits, decimal-emit, take_sign-Digits,
}
use eks_ami_operator.Go.ParseDuration.{
  leading_int, take_unit, starts_number, one_component, components, unsigned, parse_duration,
}

leading_int-digit :
    (x d : ℕ) (s : String)
    → d < 10
    → x * 10 + d ≤ 2 ^ 63
    → leading_int x (String.◌∷◌ (digit d) s) ≡ leading_int (x * 10 + d) s
unfolding leading_int
leading_int-digit x d s h fits = ground (arith, digit-code d)

-- The digits of `n` are read as `n`, without overflow.
leading_int-emit :
    (fuel n : ℕ) (out : String)
    → n ≤ fuel
    → n ≤ 2 ^ 63
    → leading_int 0 (emit fuel n out) ≡ leading_int n out
unfolding emit
leading_int-emit zero n out h fits = ground (arith, leading_int-digit 0 (n % 10) out)
leading_int-emit (suc fuel) n out h fits = elim (Bool-cases (n / 10 == 0)) [
  | inl last ↦ rw last (ground (arith, leading_int-digit 0 (n % 10) out))
  | inr more ↦
      let e =
        leading_int-emit fuel (n / 10) (String.◌∷◌ (digit (n % 10)) out) (ground arith)
          (omega arith) in
      rw more (e ∙ ground (arith, leading_int-digit (n / 10) (n % 10) out))
]

len-emit : (fuel n : ℕ) (out : String) → len out < len (emit fuel n out)
unfolding emit
len-emit zero n out =
    let (k, positive) = len_utf8-pos (digit (n % 10)) in
    let e = len.cons (digit (n % 10)) out in omega arith
len-emit (suc fuel) n out =
    let c = digit (n % 10) in
    let (k, positive) = len_utf8-pos c in
    let e = len.cons c out in
    elim (Bool-cases (n / 10 == 0)) [
      | inl last ↦ rw last (omega arith)
      | inr more ↦ rw more (omega (arith, len-emit fuel (n / 10) (String.◌∷◌ c out)))
    ]

starts_number-Digits : (s : String) → Digits s → starts_number s ≡ true
starts_number-Digits String.[] h = absurd h
starts_number-Digits (String.◌∷◌ c s) h = ground arith

-- A number of hours, behind its sign.
hours_component :
    (scale_fraction : ℕ → ℕ → ℕ → ℕ) (s : String) (n : ℕ)
    → Digits s
    → leading_int 0 s ≡ some (n, "h")
    → len "h" < len s
    → n * hour ≤ 2 ^ 63
    → one_component scale_fraction s ≡ some (n * hour, "")
unfolding one_component take_unit
hours_component scale s n digits read long fits =
    rw (starts_number-Digits s digits, read) (ground arith)

-- A text of one component.
one_component_round :
    (scale_fraction : ℕ → ℕ → ℕ → ℕ) (rounds n : ℕ) (c : Char) (s : String)
    → one_component scale_fraction (String.◌∷◌ c s) ≡ some (n, "")
    → n < 2 ^ 63
    → components scale_fraction (suc rounds) 0 (String.◌∷◌ c s) ≡ some n
unfolding components
one_component_round scale rounds n c s one fits = rw one (ground arith)

not_zero :
    (scale_fraction : ℕ → ℕ → ℕ → ℕ) (s : String) (r : ℕ × String)
    → one_component scale_fraction s ≡ some r
    → str_eq s "0" ≡ false
unfolding one_component leading_int take_unit
not_zero scale s r one = elim (Bool-cases (str_eq s "0")) [
  | inl zero' ↦ absurd (ground (arith, rw (str_eq_sound s "0" zero') at one))
  | inr other ↦ other
]

not_empty :
    (c : Char) (s : String) (k : ℕ)
    → len (String.◌∷◌ c s) ≡ suc k
    → str_eq (String.◌∷◌ c s) "" ≡ false
not_empty c s k long = elim (Bool-cases (str_eq (String.◌∷◌ c s) "")) [
  | inl empty ↦
      let e : suc k ≡ 0 = sym long ∙ ap len (str_eq_sound (String.◌∷◌ c s) "" empty) in
      absurd (omega arith)
  | inr other ↦ other
]

hours_components :
    (scale_fraction : ℕ → ℕ → ℕ → ℕ) (s : String) (n : ℕ)
    → Digits s
    → one_component scale_fraction s ≡ some (n, "")
    → n < 2 ^ 63
    → unsigned scale_fraction (len s) (false, s) ≡ ok (pos n)
hours_components scale String.[] n digits one fits = absurd digits
hours_components scale (String.◌∷◌ c s) n digits one fits =
    let (k, positive) = len_utf8-pos c in
    let e : len (String.◌∷◌ c s) ≡ suc (k + len s) =
      len.cons c s ∙ ap (λ x. x + len s) positive ∙ omega arith in
    let round = one_component_round scale (k + len s) n c s one fits in
    rw (not_zero scale (String.◌∷◌ c s) (n, "") one, not_empty c s (k + len s) e, e, round)
      (ground arith)

-- A number of hours that fits in a duration is read to it, printed with "h" behind it.
pub parse_duration-hours :
    (scale_fraction : ℕ → ℕ → ℕ → ℕ) (n : ℕ)
    → n * hour < 2 ^ 63
    → parse_duration scale_fraction (decimal n <> "h") ≡ ok (pos (n * hour))
unfolding parse_duration leading_int
parse_duration-hours scale n fits =
    let s = emit n n "h" in
    let d = emit-Digits n n "h" in
    let read = leading_int-emit n n "h" (omega arith) (omega arith) in
    let one = hours_component scale s n d (read ∙ refl) (len-emit n n "h") (omega arith) in
    rw (decimal-emit n "h", take_sign-Digits s d) (hours_components scale s (n * hour) d one fits)
