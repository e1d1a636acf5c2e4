-- ===== src/Frames.antt =====
-- hal/x86/memory/paging.c, first part: the bitmap of physical frames and the pages that hold them.
pub mod Bitmap
pub mod Search
pub mod Alloc
mod Tests
use jslk.Base.{
  ℕ, zero, suc, ◌+◌, ◌-◌, ◌*◌, ◌/◌, ◌%◌, ◌^◌, bit_and, bit_or, Bool, true, false, Option, none,
  some, ◌==◌, if◌then◌else◌, write,
}
use jslk.Base.Outcome.{Outcome, done, panic}

-- The file's statics. `frames` is the memory behind the pointer `frames`, a 32-bit word at a time.
pub record FrameMap : Type 0 where
  pub frames : ℕ → ℕ
  pub nframes : ℕ
  pub used_frames : ℕ

-- `page_t`, its bit fields as numbers.
pub record Page : Type 0 where
  pub present : ℕ
  pub rw : ℕ
  pub user : ℕ
  pub accessed : ℕ
  pub dirty : ℕ
  pub unused : ℕ
  pub frame : ℕ

abbrev pub page_size : ℕ
page_size = 0x1000

-- INDEX_FROM_BIT and OFFSET_FROM_BIT
abbrev pub index_from_bit : ℕ → ℕ
index_from_bit a = a / 32

abbrev pub offset_from_bit : ℕ → ℕ
offset_from_bit a = a % 32

-- `~(0x1 << off)` as a 32-bit word
abbrev pub not_bit : ℕ → ℕ
not_bit off = 2 ^ 32 - 1 - 2 ^ off

unfoldable pub set_frame : FrameMap → (frame_addr : ℕ) → FrameMap
set_frame m frame_addr =
    let frame = frame_addr / page_size in
    let index = index_from_bit frame in
    record m { frames = write m.frames index (bit_or (m.frames index) (2 ^ offset_from_bit frame)) }

unfoldable pub clear_frame : FrameMap → (frame_addr : ℕ) → FrameMap
clear_frame m frame_addr =
    let frame = frame_addr / page_size in
    let idx = index_from_bit frame in
    record m {
      frames = write m.frames idx (bit_and (m.frames idx) (not_bit (offset_from_bit frame)));
    }

unfoldable pub test_frame : FrameMap → (frame_addr : ℕ) → ℕ
test_frame m frame_addr =
    let frame = frame_addr / page_size in
    bit_and (m.frames (index_from_bit frame)) (2 ^ offset_from_bit frame)

-- The loop over `j`, with `n` rounds left.
unfoldable pub first_clear : (word n j : ℕ) → Option ℕ
first_clear word zero j = none
first_clear word (suc n) j =
    let rest = first_clear word n (j + 1) in if bit_and word (2 ^ j) == 0 then some j else rest

-- The loop over `i`, with `n` rounds left.
unfoldable pub first_in_words : (ℕ → ℕ) → (n i : ℕ) → Option ℕ
first_in_words frames zero i = none
first_in_words frames (suc n) i =
    let rest = first_in_words frames n (i + 1) in
    if frames i == 0xFFFFFFFF then rest else elim (first_clear (frames i) 32 0) [
      | some j ↦ some ((i * 4 * 8 + j) % 2 ^ 32)
      | none ↦ rest
    ]

-- `none`: control falls off the end of the function.
unfoldable pub first_frame : FrameMap → Option ℕ
first_frame m = first_in_words m.frames (index_from_bit m.nframes) 0

-- What `alloc_frame` returns; `no_value` where control falls off its end.
pub data Status : Type 0 where
  out_of_memory has_frame no_value : Status

-- `undefined` is the value that the caller reads where `first_frame` returns none.
unfoldable pub alloc_frame :
    (undefined : ℕ)
    → FrameMap
    → Page
    → (is_kernel is_writeable : Bool) → Outcome (FrameMap × Page × Status)
alloc_frame undefined m page is_kernel is_writeable =
    if m.used_frames == m.nframes
    then done (m, page, out_of_memory)
    else if page.frame == 0
    then (let idx : ℕ = elim (first_frame m) [ some i ↦ i | none ↦ undefined ] in
        if idx == 2 ^ 32 - 1
        then panic
        else done (
          set_frame m (idx * 0x1000 % 2 ^ 32),
          record page {
            present = 1;
            rw = if is_writeable then 1 else 0;
            user = if is_kernel then 0 else 1;
            frame = idx % 2 ^ 20;
          },
          no_value,
        ))
    else done (m, page, has_frame)

unfoldable pub free_frame : FrameMap → Page → FrameMap × Page
free_frame m page =
    if page.frame == 0 then (m, page) else (clear_frame m page.frame, record page { frame = 0 })

unfoldable pub get_total_frames : FrameMap → ℕ
get_total_frames m = m.nframes
