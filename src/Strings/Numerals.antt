-- ===== src/Strings/Numerals.antt =====
-- `itoa`: the digits of a number in a base, as text.
use native.Mathlib.Nat.{pow-suc}
use jslk.Base.{
  ℕ, zero, suc, refl, ap, inl, inr, true, List, [], arith, ltb, leb, ==→eq, eq→==, Bool-cases,
  length, ◌+◌, ◌-◌, ◌*◌, ◌/◌, ◌%◌, ◌^◌, ◌≤◌, ◌<◌, ◌≡◌, ◌∙◌, ◌⊎◌, ◌&&◌, ◌∷◌, ◌==◌, if◌then◌else◌,
}

abbrev pub digit_char : ℕ → ℕ
digit_char remainder = if ltb remainder 10 then remainder + 0x30 else remainder + 0x61 - 10

-- The do-while loop: the digits of `ud`, the lowest first.
unfoldable pub itoa_digits : (rounds divisor ud : ℕ) → List ℕ
itoa_digits zero divisor ud = []
itoa_digits (suc n) divisor ud =
    let remainder = ud % divisor in
    let digit = digit_char remainder in
    let rest = itoa_digits n divisor (ud / divisor) in
    if ud / divisor == 0 then digit ∷ [] else digit ∷ rest

-- The reversal of the buffer in place.
unfoldable pub reverse_onto : (c c2 : List ℕ) → List ℕ
reverse_onto [] c2 = c2
reverse_onto (d ∷ c) c2 = reverse_onto c (d ∷ c2)

abbrev pub divisor_of : ℕ → ℕ
divisor_of base = if base == 120 then 16 else 10

-- What `itoa` writes to its buffer, up to the zero byte. `d` is an `int`, given as its word:
-- negative from 2^31 on. The base is the character 'd' (100) or 'x' (120), and any other number is
-- 10.
unfoldable pub itoa : (base d : ℕ) → List ℕ
unfolding itoa_digits reverse_onto
itoa base d =
    let divisor = divisor_of base in
    if (base == 100) && leb (2 ^ 31) d
    then 0x2D ∷ reverse_onto (itoa_digits 32 10 (2 ^ 32 - d)) []
    else reverse_onto (itoa_digits 32 divisor d) []

-- The number that a text of digits stands for, read from the left, in a base.
abbrev pub digit_value : ℕ → ℕ
digit_value c = if leb 0x61 c then c - 0x61 + 10 else c - 0x30

unfoldable pub value : (base : ℕ) → List ℕ → (read : ℕ) → ℕ
value base [] read = read
value base (c ∷ cs) read = value base cs (read * base + digit_value c)

digit_value-digit_char : (r : ℕ) → r < 16 → digit_value (digit_char r) ≡ r
digit_value-digit_char r lt = ground arith

-- What a division by a base leaves.
base_division :
    (divisor ud p : ℕ)
    → (divisor ≡ 10) ⊎ (divisor ≡ 16)
    → ud < p * 10
    → (ud / divisor * divisor + ud % divisor ≡ ud) × (ud % divisor < 16) × (ud / divisor < p)
base_division divisor ud p (inl e) small = rw e (omega arith, omega arith, omega arith)
base_division divisor ud p (inr e) small = rw e (omega arith, omega arith, omega arith)

reverse_onto-value :
    (rounds divisor ud : ℕ) (c2 : List ℕ)
    → (divisor ≡ 10) ⊎ (divisor ≡ 16)
    → ud < 10 ^ rounds
    → value divisor (reverse_onto (itoa_digits rounds divisor ud) c2) 0 ≡ value divisor c2 ud
unfolding reverse_onto value itoa_digits
reverse_onto-value zero divisor ud c2 base small =
    ap (λ (t : ℕ). value divisor c2 t) {x = 0} {y = ud} (omega arith)
reverse_onto-value (suc n) divisor ud c2 base small =
    let power = pow-suc 10 n in
    let (whole, digit, smaller) = base_division divisor ud (10 ^ n) base (omega arith) in
    let back = digit_value-digit_char (ud % divisor) digit in
    let r = digit_char (ud % divisor) in
    elim (Bool-cases (ud / divisor == 0)) [
      | inl e ↦
          let top = ==→eq (ud / divisor) 0 e in
          let last : 0 * divisor + ud % divisor ≡ ud = rw top at whole in
          rw e (
            ap (λ (t : ℕ). value divisor c2 t) {x = 0 * divisor + digit_value r} {y = ud}
              (rw back last))
      | inr e ↦ rw e (
          reverse_onto-value n divisor (ud / divisor) (r ∷ c2) base smaller
          ∙ ap (λ (t : ℕ). value divisor c2 t) {x = ud / divisor * divisor + digit_value r} {y = ud}
              (rw back whole))
    ]

value_end : (base read : ℕ) → value base [] read ≡ read
unfolding value
value_end base read = refl

base_cases : (base : ℕ) → ((divisor_of base) ≡ 10) ⊎ ((divisor_of base) ≡ 16)
base_cases base = elim (Bool-cases (base == 120)) [
  | inl e ↦ rw e (inr refl)
  | inr e ↦ rw e (inl refl)
]

-- The text that `itoa` makes of a word reads back as the number: in base 16 for 'x', and in base 10
-- for any other base but 'd'. For 'd' a word from 2^31 on is a minus sign and the text of 2^32 less
-- the word.
pub itoa-value :
    (base d : ℕ)
    → d < 2 ^ 32
    → if (base == 100) && leb (2 ^ 31) d
      then ((t : List ℕ) × (itoa base d ≡ 0x2D ∷ t) × (value 10 t 0 ≡ 2 ^ 32 - d))
      else value (divisor_of base) (itoa base d) 0 ≡ d
unfolding itoa
itoa-value base d small = elim (Bool-cases ((base == 100) && leb (2 ^ 31) d)) [
  | inl e ↦ rw e (
    _,
    refl,
    reverse_onto-value 32 10 (2 ^ 32 - d) [] (inl refl) (omega arith) ∙ value_end 10 (2 ^ 32 - d),
  )
  | inr e ↦
      rw e (
        reverse_onto-value 32 (divisor_of base) d [] (base_cases base) (omega arith)
        ∙ value_end _ d)
]

length-reverse_onto : (c c2 : List ℕ) → length (reverse_onto c c2) ≡ length c + length c2
unfolding reverse_onto
length-reverse_onto [] c2 = omega arith
length-reverse_onto (d ∷ c) c2 = omega (arith, length-reverse_onto c (d ∷ c2))

length-itoa_digits :
    (k rounds divisor ud : ℕ)
    → (divisor ≡ 10) ⊎ (divisor ≡ 16)
    → ud < 10 ^ suc k
    → length (itoa_digits rounds divisor ud) ≤ suc k
unfolding itoa_digits
length-itoa_digits k zero divisor ud base small = omega arith
length-itoa_digits zero (suc n) divisor ud base small =
    let low : ud < 10 = omega arith in
    let none_left : (ud / divisor == 0) ≡ true = (elim base [
      | inl e ↦ rw e (eq→== (ud / 10) 0 (omega arith))
      | inr e ↦ rw e (eq→== (ud / 16) 0 (omega arith))
    ]) in
    rw none_left (omega arith)
length-itoa_digits (suc k) (suc n) divisor ud base small =
    let power = pow-suc 10 (suc k) in
    let (_, _, smaller) = base_division divisor ud (10 ^ suc k) base (omega arith) in
    let rest = length-itoa_digits k n divisor (ud / divisor) base smaller in
    elim (Bool-cases (ud / divisor == 0)) [
      | inl e ↦ rw e (omega arith)
      | inr e ↦ rw e (omega arith)
    ]

-- The text that `itoa` makes of a word has at most eleven characters, so that with its zero byte it
-- fits into the twenty that `kprintf` gives it.
pub length-itoa : (base d : ℕ) → d < 2 ^ 32 → length (itoa base d) ≤ 11
unfolding itoa
length-itoa base d small = elim (Bool-cases ((base == 100) && leb (2 ^ 31) d)) [
  | inl e ↦ rw e (
      omega (
        arith,
        length-reverse_onto (itoa_digits 32 10 (2 ^ 32 - d)) [],
        length-itoa_digits 9 32 10 (2 ^ 32 - d) (inl refl) (ground arith),
      ))
  | inr e ↦
      let divisor = divisor_of base in
      rw e (
        omega (
          arith,
          length-reverse_onto (itoa_digits 32 divisor d) [],
          length-itoa_digits 9 32 divisor d (base_cases base) (omega arith),
        ))
]
