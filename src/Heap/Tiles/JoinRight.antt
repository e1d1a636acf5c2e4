-- ===== src/Heap/Tiles/JoinRight.antt =====
-- What `free` does when a hole stands behind the block: it takes the hole's size into the block's
-- header and the hole out of the index.
use jslk.Base.{
  ℕ, zero, suc, refl, ap, inl, inr, Bool, true, false, not, some, arith, ==→eq, eq→==, ne→==,
  Bool-cases, ◌+◌, ◌-◌, ◌^◌, ◌≤◌, ◌<◌, ◌≡◌, ◌∙◌, ◌&&◌, ◌==◌,
}
use jslk.Base.Memory.{
  Memory, Apart, store8, store8_outside, store32_outside, load32-store32_self, load32-store32-Apart,
}
use jslk.Base.Outcome.{Outcome, done}
use jslk.OrderedArray
use jslk.OrderedArray.View.{items, occurrences}
use jslk.Heap.{
  Heap, heap_magic, header_magic, header_is_hole, header_size, set_header_size, u32, sub32,
}
use jslk.Heap.Layout.{IsHeader}
use jslk.Heap.Free.{Joined, index_of, unify_right, mark_hole-IsHeader}
use jslk.Heap.Tiles.{IsHeader-same}

-- A value that stands in the cells is found.
pub index_of_found :
    (array : ℕ → ℕ) (v n i : ℕ)
    → 0 < occurrences v (items array i n)
    → (it : ℕ) × (index_of array v n i ≡ some it) × (array it ≡ v) × (it < i + n)
unfolding index_of items occurrences
index_of_found array v zero i h = absurd (omega arith)
index_of_found array v (suc n) i h = elim (Bool-cases (array i == v)) [
  | inl here ↦ (i, rw here refl, ==→eq _ _ here, omega arith)
  | inr other ↦
      let later : 0 < occurrences v (items array (i + 1) n) = ground arith in
      let (it, run, e, lt) = index_of_found array v n (i + 1) later in
      (it, rw other run, e, omega arith)
]

set_header_size_outside :
    (m : Memory) (a size j : ℕ) → Apart a 12 j 1 → set_header_size m a size j ≡ m j
unfolding set_header_size
set_header_size_outside m a size j apart = store32_outside m (a + 8) size j (omega arith)

module _ (m : Memory) (pos n k : ℕ) where
  -- The memory after the block is marked as a hole and has taken in the hole behind it.
  abbrev pub grown : Memory
  grown = set_header_size (store8 m (pos + 4) 1) pos (n + k)

  pub grown_outside : (j : ℕ) → Apart pos 12 j 1 → grown j ≡ m j
  unfolding set_header_size
  grown_outside j apart =
      store32_outside _ (pos + 8) (n + k) j (omega arith)
      ∙ store8_outside m (pos + 4) 1 j (omega arith)

  pub grown-IsHeader : n + k < 2 ^ 32 → IsHeader m pos 0 n → IsHeader grown pos 1 (n + k)
  unfolding header_magic header_is_hole header_size set_header_size
  grown-IsHeader low v =
      let marked = mark_hole-IsHeader v in
      record {
        magic = load32-store32-Apart _ (pos + 8) (n + k) pos (inr (omega arith)) ∙ marked.magic;
        hole = store32_outside _ (pos + 8) (n + k) (pos + 4) (inr (omega arith)) ∙ marked.hole;
        size_eq = load32-store32_self _ (pos + 8) (n + k) low;
      }

-- What `unify_right` does with the header behind the block, at `test`, when that is a hole.
abbrev taken_in : (j : Joined) (h : Heap) (it test : ℕ) → Outcome (Joined × Heap)
taken_in j h it test =
    let m =
      set_header_size h.memory j.header
        (u32 (header_size h.memory j.header + header_size h.memory test)) in
    done (
      record j { footer = sub32 (u32 (test + header_size m test)) 8 },
      record h { memory = m; index = OrderedArray.remove it h.index },
    )

unify_right_step :
    (j : Joined) (h : Heap) (it : ℕ)
    → ((header_magic h.memory (u32 (j.footer + 8)) == heap_magic)
        && not (header_is_hole h.memory (u32 (j.footer + 8)) == 0))
      ≡ true
    → index_of h.index.array (u32 (j.footer + 8)) h.index.size 0 ≡ some it
    → unify_right j h ≡ taken_in j h it (u32 (j.footer + 8))
unfolding unify_right
unify_right_step j h it cond found = rw cond (rw found refl)

-- `unify_right` of a block in front of a hole of the index.
pub unify_right_joins :
    (h : Heap) (m : Memory) (pos n k it : ℕ) (add : Bool)
    → IsHeader (store8 m (pos + 4) 1) pos 1 n
    → IsHeader (store8 m (pos + 4) 1) (pos + n) 1 k
    → 20 ≤ n
    → pos + n + k < 2 ^ 32
    → 20 ≤ k
    → index_of h.index.array (pos + n) h.index.size 0 ≡ some it
    → unify_right
        (record { header = pos; footer = pos + n - 8; do_add = add })
        (record h { memory = store8 m (pos + 4) 1 })
      ≡ done (
        record { header = pos; footer = pos + n + k - 8; do_add = add },
        record h { memory = grown m pos n k; index = OrderedArray.remove it h.index },
      )
unfolding unify_right
unify_right_joins h m pos n k it add own next large low large_k found =
    let m1 = store8 m (pos + 4) 1 in
    let test : u32 (pos + n - 8 + 8) ≡ pos + n = omega arith in
    let magic : (header_magic m1 (pos + n) == heap_magic) ≡ true = eq→== _ _ next.magic in
    let next' : IsHeader (grown m pos n k) (pos + n) 1 k =
      IsHeader-same (λ j p q. set_header_size_outside m1 pos (n + k) j (inl (omega arith))) next in
    let is_hole : (header_is_hole m1 (pos + n) == 0) ≡ false =
      ne→== _ _ λ e. absurd (omega (arith, next.hole, e)) in
    let cond : ((header_magic m1 (u32 (pos + n - 8 + 8)) == heap_magic)
          && not (header_is_hole m1 (u32 (pos + n - 8 + 8)) == 0))
        ≡ true =
      rw test (rw (magic, is_hole) refl) in
    let j : Joined = record { header = pos; footer = pos + n - 8; do_add = add } in
    let found' : index_of h.index.array (u32 (pos + n - 8 + 8)) h.index.size 0 ≡ some it =
      ap (λ a. index_of h.index.array a h.index.size 0) test ∙ found in
    let h1 : Heap = record h { memory = m1 } in
    let e1 : u32 (header_size m1 pos + header_size m1 (pos + n)) ≡ n + k =
      omega (arith, own.size_eq, next.size_eq) in
    let e2 : sub32 (u32 (pos + n + header_size (grown m pos n k) (pos + n))) 8 ≡ pos + n + k - 8 =
      omega (arith, next'.size_eq) in
    unify_right_step j h1 it cond found'
    ∙ ap (taken_in j h1 it) test
    ∙ ap
        (λ z. done (
          record j {
            footer = sub32 (u32 (pos + n + header_size (set_header_size m1 pos z) (pos + n))) 8;
          },
          record h1 { memory = set_header_size m1 pos z; index = OrderedArray.remove it h.index },
        ))
        e1
    ∙ ap
        (λ z. done (
          record j { footer = z },
          record h1 { memory = grown m pos n k; index = OrderedArray.remove it h.index },
        ))
        e2
