-- ===== src/Strings/Blocks.antt =====
-- `memset` and `memcpy` byte by byte.
use jslk.Base.{
  ℕ, zero, suc, ap, inl, inr, true, false, arith, ltb, leb, ==→eq, ==→ne, Bool-cases, ◌+◌, ◌-◌, ◌%◌,
  ◌≡◌, ◌∙◌, ◌&&◌, ◌==◌, if◌then◌else◌,
}
use jslk.Base.Memory.{Memory, Apart, store8, store8_self, store8_outside}
use jslk.Strings.{memset, memcpy}

-- `memset` leaves the low byte of its value in each of the `n` bytes, and every other byte as it
-- was.
pub memset_byte :
    (m : Memory) (dest c n j : ℕ)
    → memset m dest c n j ≡ (if leb dest j && ltb j (dest + n) then c % 256 else m j)
unfolding memset store8
memset_byte m dest c zero j = ground arith
memset_byte m dest c (suc n) j =
    ground (arith, memset_byte (store8 m dest (c % 256)) (dest + 1) c n j)

-- `memcpy` between blocks that do not overlap leaves the source's bytes in the destination, and
-- every other byte as it was.
pub memcpy_byte :
    (m : Memory) (dest src len j : ℕ)
    → Apart dest len src len
    → memcpy m dest src len j
      ≡ (if leb dest j && ltb j (dest + len) then m (src + j - dest) else m j)
unfolding memcpy
memcpy_byte m dest src zero j apart = ground arith
memcpy_byte m dest src (suc n) j apart =
    let m' = store8 m dest (m src) in
    let rest = memcpy_byte m' (dest + 1) (src + 1) n j (omega arith) in
    elim (Bool-cases (leb (dest + 1) j && ltb j (dest + 1 + n))) [
      | inl e ↦
          let inside : (leb dest j && ltb j (dest + suc n)) ≡ true = ground arith in
          let same : src + 1 + j - (dest + 1) ≡ src + j - dest = ground arith in
          rw inside (
            rest
            ∙ rw e (
                store8_outside m dest (m src) (src + 1 + j - (dest + 1))
                  (λ e'. absurd (ground arith))
                ∙ ap m same))
      | inr e ↦ elim (Bool-cases (j == dest)) [
        | inl here ↦
            let at = ==→eq j dest here in
            let inside : (leb dest j && ltb j (dest + suc n)) ≡ true = ground arith in
            let same : src ≡ src + j - dest = omega arith in
            rw inside (rest ∙ rw e (rw at (store8_self m dest (m src)) ∙ ap m same))
        | inr away ↦
            let ne = ==→ne j dest away in
            let outside : (leb dest j && ltb j (dest + suc n)) ≡ false = ground arith in
            rw outside (rest ∙ rw e (store8_outside m dest (m src) j ne))
      ]
    ]
