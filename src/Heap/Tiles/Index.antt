-- ===== src/Heap/Tiles/Index.antt =====
-- The index of the heap next to its row of blocks.
use jslk.OrderedArray
use jslk.Base.{
  ℕ, refl, sym, ap, some, List, arith, length, length-append, ◌+◌, ◌*◌, ◌^◌, ◌≤◌, ◌<◌, ◌≡◌, ◌∷◌,
  ◌++◌,
}
use jslk.Base.Outcome.{no_fuel, panic, Outcome, done, ◌>>=◌}
use jslk.OrderedArray.{OrderedArray}
use jslk.OrderedArray.Contents.{Holds, Holds-insert, Holds-move, Holds-eq}
use jslk.Heap.Tiles.{Tile, hole_addresses, hole_addresses_few, total, IsRow, IsTiled}
use jslk.Heap.{Heap, header_t_less_than, index_insert}

-- The memory and the bounds of a heap are those of another, whose index has one hole less.
pub record SameHeap (h h' : Heap) : Type 0 where
  pub same_memory : h'.memory ≡ h.memory
  pub same_start : h'.start_address ≡ h.start_address
  pub same_end : h'.end_address ≡ h.end_address
  pub same_max : h'.index.max_size ≡ h.index.max_size
  pub one_more : h'.index.size ≡ h.index.size + 1

index_small :
    (h : Heap) (item : ℕ) (ls rs : List ℕ) (tiles : List Tile)
    → IsRow h.memory h.start_address h.end_address tiles
    → hole_addresses h.start_address tiles ≡ ls ++ item ∷ rs
    → Holds h.index (ls ++ rs)
    → h.index.size + 1 < 2 ^ 32
index_small h item ls rs tiles row e v =
    let few = hole_addresses_few h.memory h.end_address h.start_address tiles row.tiled in
    let count : 20 * length (ls ++ item ∷ rs) ≤ total tiles = rw e at few in
    omega
      (arith, count, v.count, row.whole, row.low, length-append ls (item ∷ rs), length-append ls rs)

index_max : Outcome Heap → ℕ
index_max (done h) = h.index.max_size
index_max panic = 0
index_max no_fuel = 0

index_insert_max :
    (h : Heap) (item : ℕ) (h' : Heap)
    → index_insert h item ≡ done h'
    → h'.index.max_size ≡ h.index.max_size
unfolding index_insert OrderedArray.insert index_max
index_insert_max h item h' run = sym (ap index_max run)

-- The hole that the index lacks, and only it, is put in: the heap is a row of blocks again.
pub index_insert-IsTiled :
    (h : Heap) (item : ℕ) (ls rs : List ℕ) (tiles : List Tile)
    → IsRow h.memory h.start_address h.end_address tiles
    → hole_addresses h.start_address tiles ≡ ls ++ item ∷ rs
    → Holds h.index (ls ++ rs)
    → (h' : Heap) × (index_insert h item ≡ done h') × SameHeap h h' × IsTiled h' tiles
unfolding index_insert
index_insert-IsTiled h item ls rs tiles row e v =
    let lt = header_t_less_than h.memory in
    let a : OrderedArray = record (h.index) { less_than = some lt } in
    let small = index_small h item ls rs tiles row e v in
    let (index, run, holds) =
      Holds-insert {a = a} lt item refl small (record { count = v.count; each = v.each }) in
    let insert = ap (λ m. m >>= λ index'. done (record h { index = index' })) run in
    (
      record h { index = index },
      insert,
      record {
        same_memory = refl;
        same_start = refl;
        same_end = refl;
        same_max = index_insert_max h item (record h { index = index }) insert;
        one_more = omega (arith, holds.count, v.count);
      },
      record { row = row; indexed = Holds-eq e (Holds-move item ls rs holds) },
    )
