-- ===== src/Paging/Copy.antt =====
-- The entries that `clone_table` copies.
use jslk.Base.{
  ℕ, zero, suc, refl, ap, inl, inr, false, [], arith, ==→eq, ==→ne, Bool-cases, ◌+◌, ◌*◌, ◌≤◌, ◌<◌,
  ◌≡◌, ◌∙◌, ◌≢◌, ◌∷◌, ◌==◌,
}
use jslk.Base.Outcome.{Returns, Returns-bind}
use jslk.Frames.{Page}
use jslk.Frames.Alloc.{mapped}
use jslk.Paging.{
  Allocator, PagePtr, Paging, blank_page, write_page, join_flags, alloc_frame_at, clone_entry,
  clone_entries,
}
use jslk.Paging.Map.{write_page_self, write_page_table, write_page_index}
use jslk.Paging.Taken.{
  IsReady, IsCopy, IsLater, IsLater-refl, IsLater-trans, IsCopy-later, alloc_frame-IsReady,
}

-- What the copying of entries leaves alone.
pub record SameBut {A : Type 0} (undefined table : ℕ) (s s' : Paging A) : Type 0 where
  pub ready : IsReady undefined s'.frame_map
  pub other : (t i : ℕ) → t ≢ table → s'.pages t i ≡ s.pages t i
  pub directories_eq : s'.directories ≡ s.directories
  pub kernel_eq : s'.kernel_directory ≡ s.kernel_directory
  pub allocator_eq : s'.allocator ≡ s.allocator
  pub later : IsLater s.frame_map s'.frame_map s.copies s'.copies

module _ {A : Type 0} (kmalloc : Allocator A) (undefined : ℕ) where
  clone_entry-IsCopy :
      (src table i : ℕ) (s : Paging A)
      → IsReady undefined s.frame_map
      → src ≢ table
      → s.pages table i ≡ blank_page
      → Returns
          (λ s'.
            SameBut undefined table s s'
            × IsCopy s.frame_map s'.frame_map s'.copies (s.pages src i) (s'.pages table i)
            × ((j : ℕ) → j ≢ i → s'.pages table j ≡ s.pages table j))
          (clone_entry kmalloc undefined src table i s)
  unfolding clone_entry alloc_frame_at
  clone_entry-IsCopy src table i s v ne blank = elim (Bool-cases ((s.pages src i).frame == 0)) [
    | inl e ↦ rw e (
      s,
      refl,
      (
        record {
          ready = v;
          other = λ t j z. refl;
          directories_eq = refl;
          kernel_eq = refl;
          allocator_eq = refl;
          later = IsLater-refl s.frame_map s.copies;
        },
        blank,
        λ j z. refl,
      ),
    )
    | inr e ↦
        let no_frame : (s.pages table i).frame ≡ 0 = ap (λ (x : Page). x.frame) blank in
        let ((m', page', st), run, ((idx, is, took), ready, later)) =
          alloc_frame-IsReady undefined s.frame_map (s.pages table i) false false v no_frame in
        let p : PagePtr = record { table = table; index = i } in
        let s0 : Paging A = record s { frame_map = m' } in
        let s1 = write_page p page' s0 in
        let source = s1.pages src i in
        let copy = s1.pages table i in
        let s2 = write_page p (join_flags source copy) s1 in
        let source_eq : source ≡ s.pages src i = write_page_table p page' s0 src i ne in
        let copy_eq : copy ≡ mapped blank_page idx false false =
          write_page_self p page' s0 ∙ is ∙ ap (λ (x : Page). mapped x idx false false) blank in
        let final = write_page_self p (join_flags source copy) s1 in
        let to : (s2.pages table i).frame ≡ idx =
          ap (λ (x : Page). x.frame) final ∙ ap (λ (x : Page). x.frame) copy_eq in
        let from : (s2.pages src i).frame ≡ (s.pages src i).frame =
          ap (λ (x : Page). x.frame)
            (write_page_table p (join_flags source copy) s1 src i ne ∙ source_eq) in
        let pair : ((s2.pages src i).frame * 0x1000, (s2.pages table i).frame * 0x1000)
            ≡ ((s.pages src i).frame * 0x1000, idx * 0x1000) =
          rw (from, to) refl in
        rw e (
          record s2 {
            copies =
                ((s2.pages src i).frame * 0x1000, (s2.pages table i).frame * 0x1000) ∷ s2.copies;
          },
          rw run refl,
          (
            record {
              ready = ready;
              other = λ t j z.
                  write_page_table p (join_flags source copy) s1 t j z
                  ∙ write_page_table p page' s0 t j z;
              directories_eq = refl;
              kernel_eq = refl;
              allocator_eq = refl;
              later = record {
                kept = later.kept;
                free_before = later.free_before;
                nframes_eq = later.nframes_eq;
                added = (_ ∷ [], refl);
              };
            },
            (
              idx,
              write_page_self p (join_flags source copy) s1
                  ∙ ap (λ (x : Page). join_flags x copy) source_eq
                  ∙ ap (λ (x : Page). join_flags (s.pages src i) x) copy_eq,
              took,
              ([], s.copies, ap (λ c. c ∷ s.copies) pair),
            ),
            λ j z.
                write_page_index p (join_flags source copy) s1 j z
                ∙ write_page_index p page' s0 j z,
          ),
        )
  ]

  SameBut-trans :
      {table : ℕ} {s s' s'' : Paging A}
      → SameBut undefined table s s'
      → SameBut undefined table s' s''
      → SameBut undefined table s s''
  SameBut-trans a b = record {
    ready = b.ready;
    other = λ t i z. b.other t i z ∙ a.other t i z;
    directories_eq = b.directories_eq ∙ a.directories_eq;
    kernel_eq = b.kernel_eq ∙ a.kernel_eq;
    allocator_eq = b.allocator_eq ∙ a.allocator_eq;
    later = IsLater-trans a.later b.later;
  }

  pub clone_entries-IsCopy :
      (n src table i : ℕ) (s : Paging A)
      → IsReady undefined s.frame_map
      → src ≢ table
      → ((j : ℕ) → i ≤ j → s.pages table j ≡ blank_page)
      → Returns
          (λ s'.
            SameBut undefined table s s'
            × ((j : ℕ)
                → i ≤ j
                → j < i + n
                → IsCopy s.frame_map s'.frame_map s'.copies (s.pages src j) (s'.pages table j))
            × ((j : ℕ) → j < i → s'.pages table j ≡ s.pages table j))
          (clone_entries kmalloc undefined n src table i s)
  unfolding clone_entries
  clone_entries-IsCopy zero src table i s v ne blank = (
    s,
    refl,
    (
      record {
        ready = v;
        other = λ t j z. refl;
        directories_eq = refl;
        kernel_eq = refl;
        allocator_eq = refl;
        later = IsLater-refl s.frame_map s.copies;
      },
      (λ j le lt. absurd (omega arith)),
      λ j z. refl,
    ),
  )
  clone_entries-IsCopy (suc n) src table i s v ne blank =
      Returns-bind (clone_entry-IsCopy src table i s v ne (blank i (omega arith)))
        λ s1 (same, copied, kept).
          let (s2, run, (same', rest, before)) =
            clone_entries-IsCopy n src table (i + 1) s1 same.ready ne
              (λ j le. kept j (λ z. absurd (omega arith)) ∙ blank j (omega arith)) in
          (
            s2,
            run,
            (
              SameBut-trans same same',
              (λ j le lt. elim (Bool-cases (j == i)) [
                | inl e ↦
                    let at = ==→eq j i e in
                    rw (at, before i (omega arith))
                      (IsCopy-later (s.pages src i) (s1.pages table i)
                        (IsLater-refl s.frame_map s.copies) same'.later same.later.nframes_eq
                        copied)
                | inr e ↦
                    let apart = ==→ne j i e in
                    rw (← same.other src j ne) (
                      IsCopy-later (s1.pages src j) (s2.pages table j) same.later
                        (IsLater-refl s2.frame_map s2.copies) same'.later.nframes_eq
                        (rest j (omega arith) (omega arith)))
              ]),
              λ j lt. before j (omega arith) ∙ kept j (λ z. absurd (omega arith)),
            ),
          )
