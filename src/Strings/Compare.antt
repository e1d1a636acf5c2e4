-- ===== src/Strings/Compare.antt =====
-- `strcmp` and `strcpy` on the texts that stand in memory.
use jslk.Base.{
  ℕ, zero, suc, refl, sym, inl, inr, false, List, [], arith, ==→eq, ==→ne, eq→==, ne→==, Bool-cases,
  length, ◌+◌, ◌≤◌, ◌<◌, ◌≡◌, ◌∙◌, ◌≢◌, ◌∷◌, ◌==◌, if◌then◌else◌,
}
use jslk.Base.Memory.{Memory, Apart, store8, store8_outside}
use jslk.Base.Outcome.{done}
use jslk.Strings.{strcmp, strcpy, memcpy}
use jslk.Strings.Append.{HoldsText}

-- The bytes at the first place where two texts differ, a text's end being a zero byte.
unfoldable pub first_difference : List ℕ → List ℕ → ℕ × ℕ
first_difference [] [] = (0, 0)
first_difference [] (d ∷ ds) = (0, d)
first_difference (c ∷ cs) [] = (c, 0)
first_difference (c ∷ cs) (d ∷ ds) =
    let rest = first_difference cs ds in if c == d then rest else (c, d)

-- `strcmp` of two texts, with more rounds than the first is long, returns the difference of the
-- bytes at the first place where they differ, and of two zero bytes where they are the same.
pub strcmp-first_difference :
    (t1 t2 : List ℕ) (rounds i : ℕ) (m : Memory) (s1 s2 : ℕ)
    → HoldsText m (s1 + i) t1
    → HoldsText m (s2 + i) t2
    → length t1 < rounds
    → strcmp rounds i m s1 s2 ≡ done (first_difference t1 t2)
unfolding HoldsText strcmp first_difference
strcmp-first_difference t1 t2 zero i m s1 s2 h1 h2 lt = absurd (omega arith)
strcmp-first_difference [] [] (suc n) i m s1 s2 h1 h2 lt = rw (h1, h2) refl
strcmp-first_difference [] (d ∷ ds) (suc n) i m s1 s2 h1 h2 lt =
    let ne : (0 == d) ≡ false = ne→== _ _ (λ e. h2.1 (sym e)) in rw (h1, h2.0, ne) refl
strcmp-first_difference (c ∷ cs) [] (suc n) i m s1 s2 h1 h2 lt =
    let ne : (c == 0) ≡ false = ne→== _ _ h1.1 in rw (h1.0, h2, ne) refl
strcmp-first_difference (c ∷ cs) (d ∷ ds) (suc n) i m s1 s2 h1 h2 lt =
    let next1 : s1 + i + 1 ≡ s1 + (i + 1) = omega arith in
    let next2 : s2 + i + 1 ≡ s2 + (i + 1) = omega arith in
    let tail1 : HoldsText m (s1 + (i + 1)) cs = rw next1 at h1.2 in
    let tail2 : HoldsText m (s2 + (i + 1)) ds = rw next2 at h2.2 in
    let rest = strcmp-first_difference cs ds n (i + 1) m s1 s2 tail1 tail2 (omega arith) in
    let ne : (c == 0) ≡ false = ne→== _ _ h1.1 in
    elim (Bool-cases (c == d)) [
      | inl e ↦ rw (h1.0, h2.0, e, ne) rest
      | inr e ↦ rw (h1.0, h2.0, e) refl
    ]

-- No character is zero, as in each text that stands in memory.
unfoldable pub NoZero : List ℕ → Type 0
NoZero [] = Unit {0}
NoZero (c ∷ cs) = (c ≢ 0) × NoZero cs

pub HoldsText-NoZero : (m : Memory) (a : ℕ) (text : List ℕ) → HoldsText m a text → NoZero text
unfolding HoldsText NoZero
HoldsText-NoZero m a [] h = tt
HoldsText-NoZero m a (c ∷ cs) h = (h.1, HoldsText-NoZero m (a + 1) cs h.2)

-- Two texts that no place tells apart are the same.
pub first_difference-same :
    (t1 t2 : List ℕ)
    → NoZero t1
    → NoZero t2
    → (first_difference t1 t2).0 ≡ (first_difference t1 t2).1
    → t1 ≡ t2
unfolding first_difference NoZero
first_difference-same [] [] z1 z2 e = refl
first_difference-same [] (d ∷ ds) z1 z2 e = absurd (z2.0 (sym e))
first_difference-same (c ∷ cs) [] z1 z2 e = absurd (z1.0 e)
first_difference-same (c ∷ cs) (d ∷ ds) z1 z2 e = elim (Bool-cases (c == d)) [
  | inl f ↦ let e' = rw f at e in rw (==→eq _ _ f, first_difference-same cs ds z1.1 z2.1 e') refl
  | inr f ↦ let e' = rw f at e in absurd (==→ne _ _ f e')
]

pub first_difference_self : (t : List ℕ) → (first_difference t t).0 ≡ (first_difference t t).1
unfolding first_difference
first_difference_self [] = refl
first_difference_self (c ∷ cs) = rw (eq→== c c refl) (first_difference_self cs)

-- A text stands where the memory keeps its characters and the zero byte behind them.
pub HoldsText-kept :
    (text : List ℕ) (m m' : Memory) (a : ℕ)
    → HoldsText m a text
    → ((j : ℕ) → a ≤ j → j ≤ a + length text → m' j ≡ m j)
    → HoldsText m' a text
unfolding HoldsText
HoldsText-kept [] m m' a h same = same a (omega arith) (omega arith) ∙ h
HoldsText-kept (c ∷ cs) m m' a h same = (
  same a (omega arith) (omega arith) ∙ h.0,
  h.1,
  HoldsText-kept cs m m' (a + 1) h.2 (λ j lo hi. same j (omega arith) (omega arith)),
)

-- `strcpy` of a text that is not empty copies its characters and no zero byte behind them, as
-- `memcpy` of the text's length does, if source and destination lie apart and there are as many
-- rounds as characters.
pub strcpy-memcpy :
    (c : ℕ) (cs : List ℕ) (rounds : ℕ) (m : Memory) (dest src : ℕ)
    → HoldsText m src (c ∷ cs)
    → Apart dest (length (c ∷ cs)) src (length (c ∷ cs) + 1)
    → length cs < rounds
    → strcpy rounds m dest src ≡ done (memcpy m dest src (length (c ∷ cs)))
unfolding HoldsText strcpy memcpy
strcpy-memcpy c cs zero m dest src h apart lt = absurd (omega arith)
strcpy-memcpy c [] (suc n) m dest src h apart lt =
    let end = store8_outside m dest (m src) (src + 1) (omega arith) ∙ h.2 in rw end refl
strcpy-memcpy c (d ∷ ds) (suc n) m dest src h apart lt =
    let m' = store8 m dest (m src) in
    let tail : HoldsText m' (src + 1) (d ∷ ds) =
      HoldsText-kept (d ∷ ds) m m' (src + 1) h.2
        (λ j lo hi. store8_outside m dest (m src) j (omega arith)) in
    let more : (m' (src + 1) == 0) ≡ false = ne→== _ _ (λ e. tail.1 (sym tail.0 ∙ e)) in
    rw more (strcpy-memcpy d ds n m' (dest + 1) (src + 1) tail (omega arith) (omega arith))
