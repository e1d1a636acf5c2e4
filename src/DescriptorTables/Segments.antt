-- ===== src/DescriptorTables/Segments.antt =====
-- Segment descriptors, read the way the processor reads them.
use jslk.Base.{
  ℕ, bit_and, bit_or, refl, ap, false, arith, le→ltb, write, write_self, write_ne, ◌+◌, ◌*◌, ◌/◌,
  ◌%◌, ◌^◌, ◌≤◌, ◌<◌, ◌≡◌, ◌∙◌, ◌≢◌,
}
use jslk.Base.Bits.{bit-le-one, bit_and_mask, bit, bit-bit_or, bit-bit_and}
use jslk.Base.Outcome.{done}
use jslk.DescriptorTables.{GdtEntry, Gdt, gdt_set_gate}

-- The base and the limit of a descriptor, put together from its parts.
abbrev pub segment_base : GdtEntry → ℕ
segment_base e = e.base_low + 2 ^ 16 * e.base_middle + 2 ^ 24 * e.base_high

abbrev pub segment_limit : GdtEntry → ℕ
segment_limit e = e.limit_low + 2 ^ 16 * (e.gran % 16)

low_bit :
    (a b j : ℕ)
    → bit 0x0F j ≡ 1
    → bit 0xF0 j ≡ 0
    → bit (bit_or (bit_and a 0x0F) (bit_and b 0xF0)) j ≡ bit a j
low_bit a b j one unset =
    bit-bit_or (bit_and a 0x0F) (bit_and b 0xF0) j
    ∙ (rw (bit-bit_and a 0x0F j, bit-bit_and b 0xF0 j, one, unset)
        (let le = bit-le-one a j in omega arith))

gran_low :
    (limit granularity : ℕ)
    → bit_or (bit_and limit 0x0F) (bit_and granularity 0xF0) % 16 ≡ limit % 16
unfolding bit
gran_low limit granularity =
    let x = bit_or (bit_and limit 0x0F) (bit_and granularity 0xF0) in
    omega (
      arith,
      low_bit limit granularity 0 refl refl,
      low_bit limit granularity 1 refl refl,
      low_bit limit granularity 2 refl refl,
      low_bit limit granularity 3 refl refl,
    )

-- For the segments 0 to 2, not marked as taken, and a base of 32 bits: the descriptor that
-- `gdt_set_gate` writes reads back as the base that was given and the low 20 bits of the limit,
-- with the access byte as its flags, and no other descriptor changes.
pub gdt_set_gate_reads_back :
    (num base limit access granularity : ℕ) (g : Gdt)
    → num ≤ 2
    → g.segment_status num ≡ false
    → base < 2 ^ 32
    → (g' : Gdt) × (gdt_set_gate num base limit access granularity g ≡ done g')
      × (segment_base (g'.gdt_entries num) ≡ base)
      × (segment_limit (g'.gdt_entries num) ≡ limit % 2 ^ 20)
      × ((g'.gdt_entries num).flags ≡ access)
      × ((k : ℕ) → k ≢ num → g'.gdt_entries k ≡ g.gdt_entries k)
unfolding gdt_set_gate
gdt_set_gate_reads_back num base limit access granularity g small unused low =
    let gran = bit_or (bit_and (limit / 2 ^ 16) 0x0F) (bit_and granularity 0xF0) in
    let base_low : bit_and base 0xFFFF ≡ base % 2 ^ 16 = bit_and_mask base 16 in
    let base_middle : bit_and (base / 2 ^ 16) 0xFF ≡ base / 2 ^ 16 % 2 ^ 8 =
      bit_and_mask (base / 2 ^ 16) 8 in
    let base_high : bit_and (base / 2 ^ 24) 0xFF ≡ base / 2 ^ 24 % 2 ^ 8 =
      bit_and_mask (base / 2 ^ 24) 8 in
    let limit_low : bit_and limit 0xFFFF ≡ limit % 2 ^ 16 = bit_and_mask limit 16 in
    let gran_eq : gran % 16 ≡ limit / 2 ^ 16 % 16 = gran_low (limit / 2 ^ 16) granularity in
    let entry : GdtEntry = record {
      limit_low = bit_and limit 0xFFFF;
      base_low = bit_and base 0xFFFF;
      base_middle = bit_and (base / 2 ^ 16) 0xFF;
      flags = access;
      gran = gran;
      base_high = bit_and (base / 2 ^ 24) 0xFF;
    } in
    let self = write_self g.gdt_entries num entry in
    (
      record g { gdt_entries = write g.gdt_entries num entry },
      rw (le→ltb 2 num small, unused) refl,
      ap segment_base self ∙ rw (base_low, base_middle, base_high) (omega arith),
      ap segment_limit self ∙ rw (limit_low, gran_eq) (omega arith),
      ap (λ (e : GdtEntry). e.flags) self,
      λ k ne. write_ne g.gdt_entries num k entry ne,
    )
