-- ===== src/Frames/Alloc.antt =====
-- `alloc_frame` and `free_frame`.
use jslk.Base.{
  true, ◌||◌, not, ℕ, ◌-◌, ◌*◌, ◌/◌, ◌%◌, ◌^◌, ◌≤◌, ◌<◌, ◌≡◌, ◌≢◌, refl, ◌∙◌, Bool, false, none,
  some, arith, ◌==◌, if◌then◌else◌, ne→==,
}
use jslk.Base.Outcome.{done, panic}
use jslk.Frames.{
  FrameMap, Page, page_size, Status, out_of_memory, has_frame, no_value, set_frame, first_frame,
  alloc_frame, free_frame,
}
use jslk.Frames.Bitmap.{used, used-set_frame, used-clear_frame}
use jslk.Frames.Search.{FirstFree, first_frame-FirstFree}

-- The entry that `alloc_frame` writes.
abbrev pub mapped : Page → ℕ → (is_kernel is_writeable : Bool) → Page
mapped page idx is_kernel is_writeable = record page {
  present = 1;
  rw = if is_writeable then 1 else 0;
  user = if is_kernel then 0 else 1;
  frame = idx;
}

-- Given a page with no frame, memory left by the count, and a lowest free frame `idx` among the
-- whole words of the bitmap, `alloc_frame` marks that frame, which was free, marks no other, and
-- maps the page to it with the flags asked for.
pub alloc_frame-FirstFree :
    (undefined idx : ℕ) (m : FrameMap) (page : Page) (k w : Bool)
    → m.used_frames ≢ m.nframes
    → page.frame ≡ 0
    → m.nframes ≤ 2 ^ 20
    → first_frame m ≡ some idx
    → (m' : FrameMap) × (alloc_frame undefined m page k w
        ≡ done (m', mapped page idx k w, no_value))
      × (used m idx ≡ 0)
      × (idx < m.nframes)
      × ((n : ℕ) → used m' n ≡ (if n == idx then 1 else used m n))
unfolding alloc_frame
alloc_frame-FirstFree undefined idx m page k w left no_frame small found =
    let free : FirstFree m 0 (m.nframes / 32 * 32) (some idx) =
      rw found at (first_frame-FirstFree m (omega arith)) in
    let addr : idx * 0x1000 % 2 ^ 32 / page_size ≡ idx = omega arith in
    (
      set_frame m (idx * 0x1000 % 2 ^ 32),
      ground arith,
      free.2,
      omega arith,
      (λ n. used-set_frame m (idx * 0x1000 % 2 ^ 32) n ∙ rw addr),
    )

-- Where no frame is left by the count, or the page has a frame, `alloc_frame` changes nothing. It
-- reports no memory in the first case, whatever the page, and returns 0 in the second.
pub alloc_frame_early :
    (undefined : ℕ) (m : FrameMap) (page : Page) (k w : Bool)
    → (m.used_frames == m.nframes) || not (page.frame == 0) ≡ true
    → alloc_frame undefined m page k w
      ≡ done (m, page, if m.used_frames == m.nframes then out_of_memory else has_frame)
unfolding alloc_frame
alloc_frame_early undefined m page k w early = ground arith

-- With every frame of the whole words used, `alloc_frame` goes on with an undefined value: it
-- panics only if that value happens to be 2^32 - 1, and else marks and maps whatever frame the
-- value names.
pub alloc_frame_exhausted :
    (undefined : ℕ) (m : FrameMap) (page : Page) (k w : Bool)
    → m.used_frames ≢ m.nframes
    → page.frame ≡ 0
    → first_frame m ≡ none
    → alloc_frame undefined m page k w ≡ (
        if undefined == 2 ^ 32 - 1
        then panic
        else done (
          set_frame m (undefined * 0x1000 % 2 ^ 32),
          mapped page (undefined % 2 ^ 20) k w,
          no_value,
        ))
unfolding alloc_frame
alloc_frame_exhausted undefined m page k w left no_frame full = ground arith

-- `alloc_frame` never counts the frames that it hands out.
pub used_frames-alloc_frame :
    (undefined : ℕ) (m : FrameMap) (page : Page) (k w : Bool) {m' : FrameMap} {page' : Page}
    {s : Status}
    → alloc_frame undefined m page k w ≡ done (m', page', s)
    → (m'.used_frames ≡ m.used_frames) × (m'.nframes ≡ m.nframes)
unfolding alloc_frame set_frame
used_frames-alloc_frame undefined m page k w h = ground arith

-- `free_frame` passes a frame number where `clear_frame` takes an address. So the frame that is
-- unmarked is number `frame / 0x1000`, and no other; the page itself loses its frame.
pub used-free_frame :
    (m : FrameMap) (page : Page) (n : ℕ)
    → page.frame ≢ 0
    → (used (free_frame m page).0 n ≡ (if n == page.frame / page_size then 0 else used m n))
      × ((free_frame m page).1.frame ≡ 0)
unfolding free_frame
used-free_frame m page n h =
    let e : (page.frame == 0) ≡ false = ne→== _ _ h in rw e (used-clear_frame m page.frame n, refl)

-- With frames left by the count, at most 2^20 frames in all, and a free frame other than 0 found:
-- the frame that `alloc_frame` gives to a page with no frame is still marked once `free_frame` has
-- taken it from the page.
pub free_frame_leaks :
    (undefined idx : ℕ) (m : FrameMap) (page : Page) (k w : Bool)
    → m.used_frames ≢ m.nframes
    → page.frame ≡ 0
    → m.nframes ≤ 2 ^ 20
    → first_frame m ≡ some idx
    → 0 < idx
    → (m' : FrameMap) × (page' : Page) × (alloc_frame undefined m page k w
        ≡ done (m', page', no_value))
      × (page'.frame ≡ idx)
      × (used (free_frame m' page').0 idx ≡ 1)
free_frame_leaks undefined idx m page k w left no_frame small found pos =
    let (m', run, _, _, marks) =
      alloc_frame-FirstFree undefined idx m page k w left no_frame small found in
    (
      m',
      mapped page idx k w,
      run,
      refl,
      (let freed = used-free_frame m' (mapped page idx k w) idx (omega arith) in
          ground (arith, freed.0, marks idx)),
    )
