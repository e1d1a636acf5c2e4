-- ===== src/Strings/Tests.antt =====
-- The theorems at a text of two characters.
use jslk.Base.{ℕ, refl, List, [], arith, length, ◌-◌, ◌^◌, ◌≤◌, ◌≡◌, ◌∷◌, ◌==◌, if◌then◌else◌}
use jslk.Base.Memory.{Memory}
use jslk.Base.Outcome.{done}
use jslk.Strings.{strcmp}
use jslk.Strings.Append.{HoldsText}
use jslk.Strings.Numerals.{itoa, value, itoa-value, length-itoa}
use jslk.Strings.Compare.{first_difference, strcmp-first_difference}

abbrev hi : Memory
hi = λ j. if j == 100 then 0x68 else if j == 101 then 0x69 else 0

hi-HoldsText : HoldsText hi 100 (0x68 ∷ 0x69 ∷ [])
unfolding HoldsText
hi-HoldsText = (refl, (λ e. absurd (omega arith)), (refl, (λ e. absurd (omega arith)), refl))

itoa-value_example : (t : List ℕ) × (itoa 100 (2 ^ 32 - 25) ≡ 0x2D ∷ t) × (value 10 t 0 ≡ 25)
itoa-value_example = itoa-value 100 (2 ^ 32 - 25) (omega arith)

length-itoa_example : length (itoa 120 (2 ^ 32 - 1)) ≤ 11
length-itoa_example = length-itoa 120 (2 ^ 32 - 1) (omega arith)

strcmp-first_difference_example : strcmp 8 0 hi 100 100 ≡ done (0, 0)
unfolding first_difference
strcmp-first_difference_example =
    strcmp-first_difference (0x68 ∷ 0x69 ∷ []) (0x68 ∷ 0x69 ∷ []) 8 0 hi 100 100 hi-HoldsText
      hi-HoldsText (omega arith)
