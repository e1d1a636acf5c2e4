-- ===== src/Console/Numbers.antt =====
-- `kernelPrintDec` and `kernelPrintHex`: the digits that are printed.
use native.Mathlib.Nat.{pow-suc, div-div-eq-div-mul}
use jslk.Base.Bits.{bit_and_mask}
use jslk.Base.{
  ltb→lt, ==→eq, inr, ◌∙◌, inl, inl, inl, sym, Bool-cases, ap, refl, arith, ◌≡◌, ◌*◌, ◌<◌, ◌++◌, ℕ,
  zero, suc, bit_and, Bool, true, false, List, [], ltb, leb, ◌+◌, ◌-◌, ◌/◌, ◌%◌, ◌^◌, ◌&&◌, ◌∷◌,
  ◌==◌, if◌then◌else◌,
}
use jslk.Console.{Console, kputc, kprint}

-- The digits of `acc`, the lowest first. The loop ends at 0, so `acc` is a positive `int32_t` in
-- it.
unfoldable pub dec_digits : (rounds acc : ℕ) → List ℕ
dec_digits zero acc = []
dec_digits (suc n) acc =
    let rest = dec_digits n (acc / 10) in if acc == 0 then [] else (0x30 + acc % 10) ∷ rest

-- The copy of `c` to `c2` in reverse.
unfoldable pub copy_back : (c c2 : List ℕ) → List ℕ
copy_back [] c2 = c2
copy_back (d ∷ c) c2 = copy_back c (d ∷ c2)

-- A number of 2^31 and more is negative as an `int32_t`, and the loop does not start.
unfoldable pub kernel_print_dec : ℕ → Console → Console
unfolding dec_digits copy_back
kernel_print_dec n s =
    if n == 0
    then kputc 0x30 s
    else kprint (copy_back (if ltb n (2 ^ 31) then dec_digits 10 n else []) []) s

unfoldable pub hex_char : ℕ → ℕ
hex_char tmp = if leb 0xA tmp then tmp - 0xA + 0x61 else tmp + 0x30

-- The loop over the digits above the lowest, the next of which is the digit `n`.
unfoldable pub print_hex_digits : (n : ℕ) → (no_zeroes : Bool) → (number : ℕ) → Console → Console
print_hex_digits zero no_zeroes number s = s
print_hex_digits (suc n) no_zeroes number s =
    let tmp = bit_and (number / 16 ^ suc n) 0xF in
    let skipped = print_hex_digits n no_zeroes number s in
    let printed = print_hex_digits n false number (kputc (hex_char tmp) s) in
    if (tmp == 0) && no_zeroes then skipped else printed

unfoldable pub kernel_print_hex : ℕ → Console → Console
kernel_print_hex n s =
    kputc (hex_char (bit_and n 0xF)) (print_hex_digits 7 true n (kprint (0x30 ∷ 0x78 ∷ []) s))

-- The number that a text of digits stands for, read from the left, in a base.
unfoldable pub value : (base : ℕ) → (digit : ℕ → ℕ) → List ℕ → (read : ℕ) → ℕ
value base digit [] read = read
value base digit (c ∷ cs) read = value base digit cs (read * base + digit c)

abbrev pub hex_digit : ℕ → ℕ
hex_digit c = if leb 0x61 c then c - 0x61 + 10 else c - 0x30

abbrev pub dec_digit : ℕ → ℕ
dec_digit c = c - 0x30

hex_digit-hex_char : (d : ℕ) → d < 16 → hex_digit (hex_char d) ≡ d
unfolding hex_char
hex_digit-hex_char d lt = ground arith

kprint-append : (cs ds : List ℕ) (s : Console) → kprint (cs ++ ds) s ≡ kprint ds (kprint cs s)
unfolding kprint
kprint-append [] ds s = refl
kprint-append (c ∷ cs) ds s = kprint-append cs ds (kputc c s)

value-append :
    (base : ℕ) (digit : ℕ → ℕ) (cs ds : List ℕ) (read : ℕ)
    → value base digit (cs ++ ds) read ≡ value base digit ds (value base digit cs read)
unfolding value
value-append base digit [] ds read = refl
value-append base digit (c ∷ cs) ds read = value-append base digit cs ds (read * base + digit c)

kprint_one : (c : ℕ) (s : Console) → kprint (c ∷ []) s ≡ kputc c s
unfolding kprint
kprint_one c s = refl

value_one :
    (base : ℕ) (digit : ℕ → ℕ) (c read : ℕ) → value base digit (c ∷ []) read ≡ read * base + digit c
unfolding value
value_one base digit c read = refl

value_none : (base : ℕ) (digit : ℕ → ℕ) (read : ℕ) → value base digit [] read ≡ read
unfolding value
value_none base digit read = refl

-- One more digit of a number.
next_digit :
    (n number : ℕ) → number / 16 ^ suc (suc n) * 16 + number / 16 ^ suc n % 16 ≡ number / 16 ^ suc n
next_digit n number =
    let power : 16 ^ suc (suc n) ≡ 16 ^ suc n * 16 = pow-suc 16 (suc n) in
    rw (power, sym (div-div-eq-div-mul number (16 ^ suc n) 16)) (omega arith)

-- The digits `n` to 1 are printed as a text. Read after the digits above them, it gives the number
-- without its lowest digit. Zeros are skipped only while the digits above are all zero.
print_hex_digits-value :
    (n number read : ℕ) (no_zeroes : Bool) (s : Console)
    → read ≡ number / 16 ^ suc n
    → (no_zeroes ≡ true → read ≡ 0)
    → (text : List ℕ) × (print_hex_digits n no_zeroes number s ≡ kprint text s)
      × (value 16 hex_digit text read ≡ number / 16)
unfolding print_hex_digits kprint value
print_hex_digits-value zero number read no_zeroes s e start = ([], refl, e)
print_hex_digits-value (suc n) number read no_zeroes s e start =
    let tmp = bit_and (number / 16 ^ suc n) 0xF in
    let tmp_eq : tmp ≡ number / 16 ^ suc n % 16 = bit_and_mask (number / 16 ^ suc n) 4 in
    let next : read * 16 + tmp ≡ number / 16 ^ suc n = rw (e, tmp_eq) (next_digit n number) in
    elim (Bool-cases ((tmp == 0) && no_zeroes)) [
      | inl skip ↦
          let none_yet : no_zeroes ≡ true = ground arith in
          let zero_digit : tmp ≡ 0 = ground arith in
          let (text, run, read_back) =
            print_hex_digits-value n number read no_zeroes s (let r = start none_yet in omega arith)
              start in
          (text, rw skip run, read_back)
      | inr print ↦
          let digit : hex_digit (hex_char tmp) ≡ tmp = hex_digit-hex_char tmp (omega arith) in
          let (text, run, read_back) =
            print_hex_digits-value n number (read * 16 + tmp) false (kputc (hex_char tmp) s) next
              (λ e. absurd (ground arith)) in
          (hex_char tmp ∷ text, rw print run, rw digit read_back)
    ]

-- For a number of 32 bits, `kernelPrintHex` prints "0x" and then a text of hexadecimal digits whose
-- value is the number.
pub kernel_print_hex-value :
    (n : ℕ) (s : Console)
    → n < 2 ^ 32
    → (text : List ℕ) × (kernel_print_hex n s ≡ kprint (0x30 ∷ 0x78 ∷ text) s)
      × (value 16 hex_digit text 0 ≡ n)
unfolding kernel_print_hex
kernel_print_hex-value n s small =
    let s' = kprint (0x30 ∷ 0x78 ∷ []) s in
    let low = bit_and n 0xF in
    let low_eq : low ≡ n % 16 = bit_and_mask n 4 in
    let digit : hex_digit (hex_char low) ≡ low = hex_digit-hex_char low (omega arith) in
    let (text, run, read_back) = print_hex_digits-value 7 n 0 true s' (omega arith) (λ e. refl) in
    let all = text ++ (hex_char low ∷ []) in
    (
      all,
      ap (kputc (hex_char low)) run
          ∙ sym (
              kprint-append text (hex_char low ∷ []) s'
              ∙ kprint_one (hex_char low) (kprint text s'))
          ∙ sym (kprint-append (0x30 ∷ 0x78 ∷ []) all s),
      value-append 16 hex_digit text (hex_char low ∷ []) 0
          ∙ value_one 16 hex_digit (hex_char low) (value 16 hex_digit text 0)
          ∙ rw (read_back, digit, low_eq) (omega arith),
    )

-- The text that the digits make when they are copied back, in front of `c2`.
copy_back-value :
    (rounds acc : ℕ) (c2 : List ℕ)
    → acc < 10 ^ rounds
    → value 10 dec_digit (copy_back (dec_digits rounds acc) c2) 0 ≡ value 10 dec_digit c2 acc
unfolding dec_digits copy_back value
copy_back-value zero acc c2 small =
    ap (λ (t : ℕ). value 10 dec_digit c2 t) {x = 0} {y = acc} (omega arith)
copy_back-value (suc n) acc c2 small =
    let power = pow-suc 10 n in
    let smaller : acc / 10 < 10 ^ n = omega arith in
    elim (Bool-cases (acc == 0)) [
      | inl e ↦
          rw e (ap (λ (t : ℕ). value 10 dec_digit c2 t) {x = 0} {y = acc} (sym (==→eq acc 0 e)))
      | inr e ↦ rw e (
          copy_back-value n (acc / 10) ((0x30 + acc % 10) ∷ c2) smaller
          ∙ ap (λ (t : ℕ). value 10 dec_digit c2 t) {x = acc / 10 * 10 + (0x30 + acc % 10 - 0x30)}
              {y = acc} (omega arith))
    ]

-- `kernelPrintDec` prints a text of decimal digits whose value is the number, for the numbers below
-- 2^31, and prints nothing for the others.
pub kernel_print_dec-value :
    (n : ℕ) (s : Console)
    → (text : List ℕ) × (kernel_print_dec n s ≡ kprint text s)
      × (if ltb n (2 ^ 31) then value 10 dec_digit text 0 ≡ n else text ≡ [])
unfolding kernel_print_dec
kernel_print_dec-value n s = elim (Bool-cases (n == 0)) [
  | inl e ↦ (
    0x30 ∷ [],
    rw e (sym (kprint_one 0x30 s)),
    (let same = ==→eq n 0 e in rw same (value_one 10 dec_digit 0x30 0)),
  )
  | inr e ↦ elim (Bool-cases (ltb n (2 ^ 31))) [
    | inl f ↦ (
      copy_back (dec_digits 10 n) [],
      rw (e, f) refl,
      rw f (
          copy_back-value 10 n [] (let lt = ltb→lt n (2 ^ 31) f in omega arith)
          ∙ value_none 10 dec_digit n),
    )
    | inr f ↦ ([], rw (e, f) refl, rw f refl)
  ]
]
