-- ===== src/Strings/Append.antt =====
-- `append` and `strlen` on the text that stands in memory.
use jslk.Base.{
  ℕ, zero, suc, refl, sym, ap, false, List, [], arith, eq→==, ne→==, length, ◌+◌, ◌<◌, ◌≡◌, ◌∙◌,
  ◌≢◌, ◌∷◌, ◌++◌, ◌==◌,
}
use jslk.Base.Memory.{Memory, store8, store8_self, store8_outside}
use jslk.Base.Outcome.{done}
use jslk.Strings.{strlen_from, strlen, append}

-- The characters `text`, none of them zero, stand at `a`, with a zero byte behind them.
unfoldable pub HoldsText : Memory → (a : ℕ) → List ℕ → Type 0
HoldsText m a [] = m a ≡ 0
HoldsText m a (c ∷ cs) = (m a ≡ c) × (c ≢ 0) × HoldsText m (a + 1) cs

pub strlen_from-HoldsText :
    (text : List ℕ) (rounds len : ℕ) (m : Memory) (str : ℕ)
    → HoldsText m (str + len) text
    → length text < rounds
    → strlen_from rounds len m str ≡ done (len + length text)
unfolding HoldsText strlen_from
strlen_from-HoldsText text zero len m str h lt = absurd (omega arith)
strlen_from-HoldsText [] (suc n) len m str h lt = rw (eq→== _ _ h) (ap done (omega arith))
strlen_from-HoldsText (c ∷ cs) (suc n) len m str h lt =
    let ne : (m (str + len) == 0) ≡ false = ne→== _ _ (λ e. h.1 (sym h.0 ∙ e)) in
    let next : str + len + 1 ≡ str + (len + 1) = omega arith in
    let tail : HoldsText m (str + (len + 1)) cs = rw next at h.2 in
    let rest = strlen_from-HoldsText cs n (len + 1) m str tail (omega arith) in
    rw ne (rest ∙ ap done (omega arith))

-- Writes behind the text change it in the way that `append` wants.
HoldsText-append :
    (text : List ℕ) (c a : ℕ) (m m' : Memory)
    → HoldsText m a text
    → c ≢ 0
    → ((j : ℕ) → j < a + length text → m' j ≡ m j)
    → m' (a + length text) ≡ c
    → m' (a + length text + 1) ≡ 0
    → HoldsText m' a (text ++ (c ∷ []))
unfolding HoldsText
HoldsText-append [] c a m m' h ne same at end =
    let here : a + 0 ≡ a = omega arith in (rw here at at, ne, rw here at end)
HoldsText-append (d ∷ ds) c a m m' h ne same at end =
    let here : a + suc (length ds) ≡ a + 1 + length ds = omega arith in
    (
      same a (omega arith) ∙ h.0,
      h.1,
      HoldsText-append ds c (a + 1) m m' h.2 ne (λ j lt. same j (omega arith)) (rw here at at)
          (rw here at end),
    )

-- `append` of a character to a text, with at least one round more than the text is long, leaves the
-- text with the character at its end, and changes no byte in front of that end.
pub append-HoldsText :
    (text : List ℕ) (rounds : ℕ) (m : Memory) (str c : ℕ)
    → HoldsText m str text
    → c ≢ 0
    → length text < rounds
    → (m' : Memory) × (append rounds m str c ≡ done m')
      × HoldsText m' str (text ++ (c ∷ []))
      × ((j : ℕ) → j < str + length text → m' j ≡ m j)
unfolding append
append-HoldsText text rounds m str c h ne lt =
    let start : str + 0 ≡ str = omega arith in
    let len : strlen rounds m str ≡ done (0 + length text) =
      strlen_from-HoldsText text rounds 0 m str (rw start h) lt in
    let len' : strlen rounds m str ≡ done (length text) = len ∙ ap done (omega arith) in
    let n = str + length text in
    let m1 = store8 m n c in
    let m2 = store8 m1 (n + 1) 0 in
    let same : (j : ℕ) → j < n → m2 j ≡ m j = λ j lt.
      store8_outside m1 (n + 1) 0 j (λ e. absurd (omega arith))
      ∙ store8_outside m n c j (λ e. absurd (omega arith)) in
    (
      m2,
      rw len' refl,
      HoldsText-append text c str m m2 h ne same
          (store8_outside m1 (n + 1) 0 n (λ e. absurd (omega arith)) ∙ store8_self m n c)
          (store8_self m1 (n + 1) 0),
      same,
    )
