-- ===== src/Frames/Tests.antt =====
-- Runs of the bitmap, and the theorems at a map of 64 frames.
use jslk.Base.{ℕ, ◌<◌, ◌≡◌, refl, true, false, none, some, arith, ◌==◌, if◌then◌else◌}
use jslk.Base.Outcome.{done}
use jslk.Frames.{
  FrameMap, Page, no_value, set_frame, first_clear, first_in_words, first_frame, alloc_frame,
}
use jslk.Frames.Bitmap.{used}
use jslk.Frames.Search.{FirstFree, first_frame-FirstFree}
use jslk.Frames.Alloc.{mapped, alloc_frame-FirstFree}

-- The first word full, frame 32 used.
abbrev half : FrameMap
half = record {
  frames = λ i. if i == 0 then 0xFFFFFFFF else if i == 1 then 1 else 0;
  nframes = 64;
  used_frames = 1;
}

abbrev full : FrameMap
full = record { frames = λ i. 0xFFFFFFFF; nframes = 64; used_frames = 1 }

abbrev blank : Page
blank = record { present = 0; rw = 0; user = 0; accessed = 0; dirty = 0; unused = 0; frame = 0 }

half_first : first_frame half ≡ some 33
unfolding first_frame first_in_words first_clear
half_first = refl

full_first : first_frame full ≡ none
unfolding first_frame first_in_words first_clear
full_first = refl

first_frame-FirstFree_example : FirstFree half 0 64 (first_frame half)
first_frame-FirstFree_example = first_frame-FirstFree half (omega arith)

alloc_frame-FirstFree_example :
    (m : FrameMap) × (alloc_frame 0 half blank false true
      ≡ done (m, mapped blank 33 false true, no_value))
    × (used half 33 ≡ 0)
    × (33 < half.nframes)
    × ((n : ℕ) → used m n ≡ (if n == 33 then 1 else used half n))
alloc_frame-FirstFree_example =
    alloc_frame-FirstFree 0 33 half blank false true (omega arith) refl (omega arith) half_first

alloc_frame_exhausted_run :
    alloc_frame 7 full blank false true
    ≡ done (set_frame full 0x7000, mapped blank 7 false true, no_value)
unfolding alloc_frame first_frame first_in_words first_clear
alloc_frame_exhausted_run = refl
