-- ===== src/Go/ParseDuration/Fuel.antt =====
-- The fuel of ParseDuration's loop.
use Prim.Native.Char.{Char, code}
use Prim.Native.String.len
use Prim.Native.String.{len}
use text.Mathlib.TextPositions.{len_utf8-pos}
use eks_ami_operator.Base.{
  ℕ, zero, suc, ◌+◌, ◌-◌, ◌*◌, ◌%◌, ◌^◌, ltb, if◌then◌else◌, ◌≤◌, ◌<◌, ◌≡◌, refl, sym, ◌∙◌, Bool,
  true, false, not, String, Option, none, some, arith, Bool-cases, inl, inr, str_eq, ap, ◌==◌, ◌||◌,
}
use eks_ami_operator.Go.Scan.{is_digit, take_sign}
use eks_ami_operator.Go.ParseDuration.{
  after_round, beside, by_unit, by_int, leading_int, leading_fraction, take_unit, starts_number,
  fraction, unsigned, enough, parse_duration, with_unit, after_int, one_component, components,
  unit_map, component,
}

leading_int-le :
    (x : ℕ) (s : String) (v : ℕ) (t : String) → leading_int x s ≡ some (v, t) → len t ≤ len s
unfolding leading_int
leading_int-le x String.[] v t h =
    let same : 0 ≡ len t = sym len.nil ∙ ap (λ o. elim o [ none ↦ 0 | some r ↦ len r.1 ]) h in
    omega arith
leading_int-le x (String.◌∷◌ c s) v t h =
    ground (arith, h, len.cons c s, len.cons c t, leading_int-le (x * 10 + (code c - b'0')) s v t)

leading_fraction-le :
    (x scale : ℕ) (o : Bool) (s : String) → len (leading_fraction x scale o s).2 ≤ len s
unfolding leading_fraction
leading_fraction-le x scale o String.[] = omega arith
leading_fraction-le x scale o (String.◌∷◌ c s) = ground (
  arith,
  len.cons c s,
  leading_fraction-le x scale true s,
  leading_fraction-le (x * 10 + (code c - b'0')) (scale * 10) false s,
)

take_unit-len : (s : String) → len (take_unit s).0 + len (take_unit s).1 ≡ len s
unfolding take_unit
take_unit-len String.[] = refl
take_unit-len (String.◌∷◌ c s) = elim (Bool-cases (code c == b'.' || is_digit c)) [
  | inl stops ↦ rw stops (omega arith)
  | inr goes ↦ rw goes (ground (arith, len.cons c s, len.cons c (take_unit s).0, take_unit-len s))
]

fraction-le : (s : String) → len (fraction s).3 ≤ len s
fraction-le String.[] = omega arith
fraction-le (String.◌∷◌ c s) = ground (arith, len.cons c s, leading_fraction-le 0 1 false s)

len-pos : (u : String) → str_eq u "" ≡ false → 0 < len u
len-pos String.[] h = ground (arith, h)
len-pos (String.◌∷◌ c u) h =
    let (k, positive) = len_utf8-pos c in let e = len.cons c u in omega arith

no_fuel : (c : Char) (s : String) → ¬ (len (String.◌∷◌ c s) ≤ 0)
no_fuel c s h = let (k, positive) = len_utf8-pos c in let e = len.cons c s in omega arith

-- The module's rounds read a character at least.
module _ (scale_fraction : ℕ → ℕ → ℕ → ℕ) where
  with_unit-rest :
      (v f scale : ℕ) (u r : String) (w : ℕ) (rest : String)
      → with_unit scale_fraction v f scale (u, r) ≡ some (w, rest)
      → (str_eq u "" ≡ false) × (r ≡ rest)
  with_unit-rest v f scale u r w rest h = elim (Bool-cases (str_eq u "")) [
    | inl empty ↦ absurd (ground (arith, rw empty at h))
    | inr named ↦ (named, go (unit_map u) (rw named at h))
  ]
    where
      valued : (o : Option ℕ) → beside scale_fraction r o ≡ some (w, rest) → r ≡ rest
      valued none h = ground (arith, h)
      valued (some x) h = ap (λ o. elim o [ none ↦ r | some y ↦ y.1 ]) h

      go : (o : Option ℕ) → by_unit scale_fraction v f scale r o ≡ some (w, rest) → r ≡ rest
      go none h = ground (arith, h)
      go (some unit) h = valued (component scale_fraction v f scale unit) h

  with_unit-lt :
      (v f scale : ℕ) (s : String) (w : ℕ) (rest : String)
      → with_unit scale_fraction v f scale (take_unit s) ≡ some (w, rest)
      → len rest < len s
  with_unit-lt v f scale s w rest h =
      let (named, same) = with_unit-rest v f scale _ _ w rest h in
      let p = len-pos (take_unit s).0 named in
      let total = take_unit-len s in
      let e : len (take_unit s).1 ≡ len rest = ap len same in omega arith

  after_int-lt :
      (s : String) (v : ℕ) (t : String) (w : ℕ) (rest : String)
      → after_int scale_fraction s (v, t) ≡ some (w, rest)
      → len rest < len t
  after_int-lt s v t w rest h = elim (Bool-cases (not (len s == len t) || (fraction t).2)) [
    | inl digits ↦
        (let less = with_unit-lt v _ _ _ w rest (rw digits at h) in
          let le = fraction-le t in omega arith)
    | inr bare ↦ absurd (ground (arith, rw bare at h))
  ]

  one_component-lt :
      (s : String) (w : ℕ) (rest : String)
      → one_component scale_fraction s ≡ some (w, rest)
      → len rest < len s
  unfolding one_component
  one_component-lt s w rest h = elim (Bool-cases (starts_number s)) [
    | inl number ↦ go (leading_int 0 s) refl (rw number at h)
    | inr other ↦ absurd (ground (arith, rw other at h))
  ]
    where
      go :
          (o : Option (ℕ × String))
          → leading_int 0 s ≡ o
          → by_int scale_fraction s o ≡ some (w, rest)
          → len rest < len s
      go none e h = absurd (ground (arith, h))
      go (some (v, t)) e h =
          let less = after_int-lt s v t w rest h in let le = leading_int-le 0 s v t e in omega arith

  after_round_agree :
      (f g : ℕ → String → Option ℕ) (d : ℕ) (o : Option (ℕ × String))
      → ((v : ℕ) (rest : String) → o ≡ some (v, rest) → (e : ℕ) → f e rest ≡ g e rest)
      → after_round scale_fraction f d o ≡ after_round scale_fraction g d o
  after_round_agree f g d none h = refl
  after_round_agree f g d (some (v, rest)) h =
      ap (λ k. if ltb (2 ^ 63) ((d + v) % 2 ^ 64) then none else k)
        (h v rest refl ((d + v) % 2 ^ 64))

  components-round :
      (fuel d : ℕ) (c : Char) (s : String)
      → components scale_fraction (suc fuel) d (String.◌∷◌ c s)
        ≡ after_round scale_fraction
            (components scale_fraction fuel)
            d
            (one_component scale_fraction (String.◌∷◌ c s))
  unfolding components
  components-round fuel d c s = refl

  -- A round reads at least a character, so all fuels from the length of the text on give the same.
  pub components-fuel :
      (m n d : ℕ) (s : String)
      → len s ≤ m
      → len s ≤ n
      → components scale_fraction m d s ≡ components scale_fraction n d s
  unfolding components
  components-fuel m n d String.[] h k = refl
  components-fuel zero n d (String.◌∷◌ c s) h k = absurd (no_fuel c s h)
  components-fuel (suc m) zero d (String.◌∷◌ c s) h k = absurd (no_fuel c s k)
  components-fuel (suc m) (suc n) d (String.◌∷◌ c s) h k =
      let t = String.◌∷◌ c s in
      components-round m d c s
      ∙ after_round_agree (components scale_fraction m) (components scale_fraction n) d
          (one_component scale_fraction t)
          (λ v rest one e.
            let less = one_component-lt t v rest one in
            components-fuel m n e rest (omega arith) (omega arith))
      ∙ sym (components-round n d c s)

  enough-unsigned :
      (rounds : ℕ) (r : Bool × String)
      → len r.1 ≤ rounds
      → enough scale_fraction r ≡ unsigned scale_fraction rounds r
  enough-unsigned rounds (neg, s) h = rw (components-fuel (len s) rounds 0 s (omega arith) h) refl

  -- The length of the text is enough rounds: more of them change nothing.
  pub parse_duration-rounds :
      (rounds : ℕ) (s : String)
      → len (take_sign s).1 ≤ rounds
      → parse_duration scale_fraction s ≡ unsigned scale_fraction rounds (take_sign s)
  unfolding parse_duration
  parse_duration-rounds rounds s h = enough-unsigned rounds (take_sign s) h
