-- ===== src/Go/Scan/Decimal.antt =====
-- The decimal print of a number, and how the verb %d of package fmt reads it.
use Prim.Native.Char.{Char, code}
use Prim.Native.String.{char_at}
use text.Mathlib.TextLemmas.{nil-append, cons-append}
use eks_ami_operator.Base.{
  ℕ, zero, suc, ◌+◌, ◌*◌, ◌/◌, ◌%◌, ◌^◌, ◌≤◌, ◌<◌, ◌≡◌, ◌∙◌, refl, sym, ap, arith, true, false,
  String, ◌==◌, if◌then◌else◌, Bool-cases, inl, inr,
}
use eks_ami_operator.Base.Int.{pos}
use eks_ami_operator.Go.Text.{◌<>◌}
use eks_ami_operator.Go.Error.{ok}
use eks_ami_operator.Go.Scan.{
  int64, scan_int, sscanf_minor, is_digit, skip_space, take_digits, take_sign,
}

unfoldable pub digit : ℕ → Char
digit d = char_at "0123456789" d

-- The digits of `n` before `out`; `n` rounds are enough.
unfoldable pub emit : ℕ → ℕ → String → String
emit zero n out = String.◌∷◌ (digit (n % 10)) out
emit (suc fuel) n out =
    let rest = emit fuel (n / 10) (String.◌∷◌ (digit (n % 10)) out) in
    if n / 10 == 0 then String.◌∷◌ (digit (n % 10)) out else rest

unfoldable pub decimal : ℕ → String
decimal n = emit n n ""

pub digit-code : (d : ℕ) → d < 10 → code (digit d) ≡ b'0' + d
unfolding digit
digit-code zero h = refl
digit-code (suc zero) h = refl
digit-code (suc (suc zero)) h = refl
digit-code (suc (suc (suc zero))) h = refl
digit-code (suc (suc (suc (suc zero)))) h = refl
digit-code (suc (suc (suc (suc (suc zero))))) h = refl
digit-code (suc (suc (suc (suc (suc (suc zero)))))) h = refl
digit-code (suc (suc (suc (suc (suc (suc (suc zero))))))) h = refl
digit-code (suc (suc (suc (suc (suc (suc (suc (suc zero)))))))) h = refl
digit-code (suc (suc (suc (suc (suc (suc (suc (suc (suc zero))))))))) h = refl
digit-code (suc (suc (suc (suc (suc (suc (suc (suc (suc (suc d)))))))))) h = omega arith

-- A text that does not begin with a digit.
abbrev pub Stops : String → Type 0
Stops String.[] = Unit
Stops (String.◌∷◌ c s) = is_digit c ≡ false

take_digits_stop : (n k : ℕ) (s : String) → Stops s → take_digits n k s ≡ (n, k, s)
unfolding take_digits
take_digits_stop n k String.[] h = refl
take_digits_stop n k (String.◌∷◌ c s) h = rw h refl

take_digits-digit :
    (n k d : ℕ) (s : String)
    → d < 10
    → take_digits n k (String.◌∷◌ (digit d) s) ≡ take_digits (n * 10 + d) (k + 1) s
unfolding take_digits
take_digits-digit n k d s h = ground (arith, digit-code d)

-- The digits of `n` are read as `n`.
take_digits-emit :
    (fuel n k : ℕ) (out : String)
    → n ≤ fuel
    → (j : ℕ) × (take_digits 0 k (emit fuel n out) ≡ take_digits n (suc j) out)
unfolding emit
take_digits-emit zero n k out h = (k, ground (arith, take_digits-digit 0 k (n % 10) out))
take_digits-emit (suc fuel) n k out h = elim (Bool-cases (n / 10 == 0)) [
  | inl last ↦ rw last (k, ground (arith, take_digits-digit 0 k (n % 10) out))
  | inr more ↦
      let (j, e) =
        take_digits-emit fuel (n / 10) k (String.◌∷◌ (digit (n % 10)) out) (ground arith) in
      rw more (suc j, e ∙ ground (arith, take_digits-digit (n / 10) (suc j) (n % 10) out))
]

-- The print begins with a digit, so that neither space nor sign is read.
abbrev pub Digits : String → Type 0
Digits String.[] = ⊥
Digits (String.◌∷◌ c s) = is_digit c ≡ true

pub emit-Digits : (fuel n : ℕ) (out : String) → Digits (emit fuel n out)
unfolding emit
emit-Digits zero n out = ground (arith, digit-code (n % 10))
emit-Digits (suc fuel) n out = elim (Bool-cases (n / 10 == 0)) [
  | inl last ↦ rw last (ground (arith, digit-code (n % 10)))
  | inr more ↦ rw more (emit-Digits fuel (n / 10) _)
]

skip_space-Digits : (s : String) → Digits s → skip_space s ≡ ok s
unfolding skip_space
skip_space-Digits String.[] h = absurd h
skip_space-Digits (String.◌∷◌ c s) h = ground (arith, h)

pub take_sign-Digits : (s : String) → Digits s → take_sign s ≡ (false, s)
take_sign-Digits String.[] h = absurd h
take_sign-Digits (String.◌∷◌ c s) h = ground (arith, h)

-- What is printed before a text is printed before what follows it.
emit-append : (fuel n : ℕ) (a b : String) → emit fuel n (a <> b) ≡ emit fuel n a <> b
unfolding emit
emit-append zero n a b = sym (cons-append (digit (n % 10)) a b)
emit-append (suc fuel) n a b = elim (Bool-cases (n / 10 == 0)) [
  | inl last ↦ rw last (sym (cons-append (digit (n % 10)) a b))
  | inr more ↦
      let later = emit-append fuel (n / 10) (String.◌∷◌ (digit (n % 10)) a) b in
      rw more (rw cons-append at later)
]

int64-pos : (n j : ℕ) (rest : String) → n < 2 ^ 63 → int64 false (n, suc j, rest) ≡ ok (pos n, rest)
int64-pos n j rest h = ground arith

pub decimal-emit : (n : ℕ) (rest : String) → decimal n <> rest ≡ emit n n rest
unfolding decimal
decimal-emit n rest = rw nil-append at (sym (emit-append n n "" rest))

-- %d reads a printed number, and stops behind its digits.
scan_int-decimal :
    (n : ℕ) (rest : String)
    → n < 2 ^ 63
    → Stops rest
    → scan_int (decimal n <> rest) ≡ ok (pos n, rest)
scan_int-decimal n rest small stops =
    let d = emit-Digits n n rest in
    let (j, e) = take_digits-emit n n 0 rest (omega arith) in
    rw
      (
        decimal-emit n rest,
        scan_int,
        skip_space-Digits _ d,
        take_sign-Digits _ d,
        e,
        take_digits_stop n (suc j) rest stops,
      )
      (int64-pos n j rest small)

pub dot : (s : String) → "." <> s ≡ String.◌∷◌ (char_at "." 0) s
dot s = cons-append _ String.[] s ∙ ap (λ t. String.◌∷◌ (char_at "." 0) t) (nil-append s)

-- A printed version, with whatever follows its minor number, is read to that number.
pub sscanf_minor-decimal :
    (major minor : ℕ) (rest : String)
    → major < 2 ^ 63
    → minor < 2 ^ 63
    → Stops rest
    → sscanf_minor (decimal major <> "." <> decimal minor <> rest) ≡ ok (pos minor)
unfolding sscanf_minor
sscanf_minor-decimal major minor rest small small' stops =
    let u = decimal minor <> rest in
    let first = scan_int-decimal major (String.◌∷◌ (char_at "." 0) u) small refl in
    let second = scan_int-decimal minor rest small' stops in
    rw (dot, sscanf_minor) (ground (arith, first, second))
