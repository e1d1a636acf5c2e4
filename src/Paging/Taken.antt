-- ===== src/Paging/Taken.antt =====
-- A frame that is taken for the copy of a page, and what it means that a page is copied.
use jslk.Base.{
  ℕ, refl, sym, ap, inl, inr, Bool, false, Option, none, some, List, [], arith, eq→==, ne→==,
  Bool-cases, ◌-◌, ◌*◌, ◌/◌, ◌%◌, ◌^◌, ◌≤◌, ◌<◌, ◌≡◌, ◌∙◌, ◌≢◌, ◌⊎◌, ◌∷◌, ◌++◌, ◌==◌, if◌then◌else◌,
}
use jslk.Base.Outcome.{Returns}
use jslk.Frames.{FrameMap, Page, no_value, first_frame, set_frame, alloc_frame, page_size}
use jslk.Frames.Alloc.{mapped}
use mathlib.Core.List.{append_assoc}
use jslk.Paging.Step.{used_taken, nframes_kept}
use jslk.Frames.Bitmap.{used, used-set_frame}
use jslk.Frames.Search.{FirstFree, first_frame-FirstFree}
use jslk.Paging.{blank_page, join_flags}

-- The count leaves frames, there are at most 2^20 of them, and the value that is read where
-- `first_frame` has none is not -1.
pub record IsReady (undefined : ℕ) (m : FrameMap) : Type 0 where
  pub left : m.used_frames ≢ m.nframes
  pub small : m.nframes ≤ 2 ^ 20
  pub defined : undefined ≢ 2 ^ 32 - 1

-- A copy of a page of memory is among those that have been made.
abbrev pub IsCopied : (from to : ℕ) → (copies : List (ℕ × ℕ)) → Type 0
IsCopied from to copies =
    (later : List (ℕ × ℕ)) × (earlier : List (ℕ × ℕ)) × (copies ≡ later ++ (from, to) ∷ earlier)

-- The frame was free and is now used, or every frame of the whole words is in use.
abbrev pub IsTaken : (m m' : FrameMap) (idx : ℕ) → Type 0
IsTaken m m' idx =
    ((used m idx ≡ 0) × (used m' idx ≡ 1)) ⊎ ((k : ℕ) → k < m.nframes / 32 * 32 → used m' k ≡ 1)

-- What an entry of a table becomes in the copy, between two states of the frames. A source with a
-- frame has its page of memory copied to that of the frame taken for the copy.
abbrev pub IsCopy : (m m' : FrameMap) (copies : List (ℕ × ℕ)) (source copy : Page) → Type 0
IsCopy m m' copies source copy =
    if source.frame == 0
    then copy ≡ blank_page
    else ((idx : ℕ) × (copy ≡ join_flags source (mapped blank_page idx false false))
        × IsTaken m m' idx
        × IsCopied (source.frame * 0x1000) (idx * 0x1000) copies)

-- Frames are only taken, and copies only added.
pub record IsLater (m m' : FrameMap) (copies copies' : List (ℕ × ℕ)) : Type 0 where
  pub kept : (k : ℕ) → used m k ≡ 1 → used m' k ≡ 1
  pub free_before : (k : ℕ) → used m' k ≡ 0 → used m k ≡ 0
  pub nframes_eq : m'.nframes ≡ m.nframes
  pub added : (new : List (ℕ × ℕ)) × (copies' ≡ new ++ copies)

pub IsLater-refl : (m : FrameMap) (copies : List (ℕ × ℕ)) → IsLater m m copies copies
IsLater-refl m copies = record {
  kept = λ k e. e;
  free_before = λ k e. e;
  nframes_eq = refl;
  added = ([], refl);
}

pub IsLater-trans :
    {m m' m'' : FrameMap} {c c' c'' : List (ℕ × ℕ)}
    → IsLater m m' c c'
    → IsLater m' m'' c' c''
    → IsLater m m'' c c''
IsLater-trans {c} a b =
    let (new, e) = a.added in
    let (new', e') = b.added in
    record {
      kept = λ k u. b.kept k (a.kept k u);
      free_before = λ k u. a.free_before k (b.free_before k u);
      nframes_eq = b.nframes_eq ∙ a.nframes_eq;
      added = (new' ++ new, e' ∙ ap (λ l. new' ++ l) e ∙ sym (append_assoc new' new c));
    }

-- A copy that is made between two states is one between any states around them.
pub IsCopy-later :
    {m0 m m' m'' : FrameMap} {c0 c c' c'' : List (ℕ × ℕ)} (source copy : Page)
    → IsLater m0 m c0 c
    → IsLater m' m'' c' c''
    → m'.nframes ≡ m.nframes
    → IsCopy m m' c' source copy
    → IsCopy m0 m'' c'' source copy
IsCopy-later source copy before after same = elim (Bool-cases (source.frame == 0)) [
  | inl e ↦ rw e λ v. v
  | inr e ↦ rw e λ v.
      let (idx, is, took, (later, earlier, at)) = v in
      let (new, more) = after.added in
      (
        idx,
        is,
        elim took [
          | inl (free, now) ↦ inl (before.free_before idx free, after.kept idx now)
          | inr full ↦ inr (λ k lt. after.kept k (full k (rw before.nframes_eq lt)))
        ],
        (new ++ later, earlier, more ∙ ap (λ l. new ++ l) at ∙ sym (append_assoc new later _)),
      )
]

module _ (undefined : ℕ) where
  IsReady-set_frame :
      (m : FrameMap) (a : ℕ) → IsReady undefined m → IsReady undefined (set_frame m a)
  unfolding set_frame
  IsReady-set_frame m a v = record { left = v.left; small = v.small; defined = v.defined }

  idx_defined :
      (m : FrameMap) (o : Option ℕ)
      → IsReady undefined m
      → FirstFree m 0 (m.nframes / 32 * 32) o
      → (elim o [ some i ↦ i | none ↦ undefined ]) ≢ 2 ^ 32 - 1
  idx_defined m none v h = v.defined
  idx_defined m (some i) v h = λ e. absurd (omega (arith, h.1, v.small))

  set_frame-IsLater :
      (m : FrameMap) (a : ℕ) (copies : List (ℕ × ℕ)) → IsLater m (set_frame m a) copies copies
  set_frame-IsLater m a copies = record {
    kept = λ k u.
        used-set_frame m a k
        ∙ (elim (Bool-cases (k == a / page_size)) [ inl e ↦ rw e refl | inr e ↦ rw e u ]);
    free_before = λ k u.
        let marked = sym u ∙ used-set_frame m a k in
        elim (Bool-cases (k == a / page_size)) [
          | inl e ↦ let one = rw e at marked in absurd (omega (arith, one))
          | inr e ↦ sym (rw e at marked)
        ];
    nframes_eq = (nframes_kept m a).0;
    added = ([], refl);
  }

  idx-IsTaken :
      (m : FrameMap) (o : Option ℕ)
      → m.nframes ≤ 2 ^ 20
      → FirstFree m 0 (m.nframes / 32 * 32) o
      → let idx : ℕ = elim o [ some i ↦ i | none ↦ undefined ] in
        IsTaken m (set_frame m (idx * 0x1000 % 2 ^ 32)) (idx % 2 ^ 20)
  idx-IsTaken m none small full = inr (λ k lt.
      (set_frame-IsLater m (undefined * 0x1000 % 2 ^ 32) []).kept k (full k (omega arith) lt))
  idx-IsTaken m (some i) small (lo, hi, free, _) =
      let low : i % 2 ^ 20 ≡ i = omega arith in
      rw low (inl (free, used_taken m i i (omega arith) ∙ rw (eq→== i i refl) refl))

  -- `alloc_frame` for a page without a frame does not panic, and takes a frame.
  pub alloc_frame-IsReady :
      (m : FrameMap) (page : Page) (k w : Bool)
      → IsReady undefined m
      → page.frame ≡ 0
      → Returns
          (λ (m', page', _).
            ((idx : ℕ) × (page' ≡ mapped page idx k w) × IsTaken m m' idx)
            × IsReady undefined m'
            × IsLater m m' [] [])
          (alloc_frame undefined m page k w)
  unfolding alloc_frame
  alloc_frame-IsReady m page k w v no_frame =
      let left = ne→== m.used_frames m.nframes v.left in
      let found = first_frame-FirstFree m (omega (arith, v.small)) in
      let idx : ℕ = elim (first_frame m) [ some i ↦ i | none ↦ undefined ] in
      let below : (idx == 2 ^ 32 - 1) ≡ false =
        ne→== idx (2 ^ 32 - 1) (idx_defined m (first_frame m) v found) in
      let a = idx * 0x1000 % 2 ^ 32 in
      (
        (set_frame m a, mapped page (idx % 2 ^ 20) k w, no_value),
        rw (left, no_frame) (rw below refl),
        (
          (idx % 2 ^ 20, refl, idx-IsTaken m (first_frame m) v.small found),
          IsReady-set_frame m a v,
          set_frame-IsLater m a [],
        ),
      )
