-- ===== src/Heap/Tiles.antt =====
-- The heap of kernel/heap.c as a row of blocks: from `start_address` to `end_address` the memory is
-- cut into blocks in use and holes, each with its header and footer, and the index has every hole
-- once.
pub mod Row
pub mod Index
pub mod Start
pub mod Place
pub mod Serve
pub mod Join
pub mod GiveBack
pub mod Release
pub mod JoinRight
pub mod Stale
use jslk.Base.{
  ℕ, zero, suc, min, max, bit_and, bit_or, refl, sym, ap, fun_ext, inl, inr, Bool, true, false, not,
  Option, none, some, List, [], map, arith, ltb, leb, ltb→lt, ltb→le, lt→ltb, le→ltb, ==→eq, ==→ne,
  eq→==, ne→==, Bool-cases, tests, write, write_self, write_ne, length, get_or, length-append, ◌+◌,
  ◌-◌, ◌*◌, ◌/◌, ◌%◌, ◌^◌, ◌≤◌, ◌<◌, ◌≡◌, ◌∙◌, ◌≢◌, ◌↔◌, ◌⊎◌, ◌&&◌, ◌||◌, ◌∷◌, ◌++◌, ◌==◌,
  if◌then◌else◌,
}
use jslk.Base.Memory.{Memory, load32_same}
use jslk.OrderedArray.Contents.{Holds}
use jslk.OrderedArray.View.{items, occurrences}
use jslk.Heap.{
  Heap, heap_magic, header_magic, header_is_hole, header_size, footer_magic, footer_header,
}
use jslk.Heap.Layout.{IsHeader, IsFooter}

-- A block in use or a hole, with its size.
pub data Tile : Type 0 where
  used : ℕ → Tile
  hole : ℕ → Tile

abbrev pub tile_size : Tile → ℕ
tile_size (used n) = n
tile_size (hole n) = n

unfoldable pub total : List Tile → ℕ
total [] = 0
total (t ∷ ts) = tile_size t + total ts

-- The addresses of the holes of a row that begins at `a`.
unfoldable pub hole_addresses : ℕ → List Tile → List ℕ
hole_addresses a [] = []
hole_addresses a (used n ∷ ts) = hole_addresses (a + n) ts
hole_addresses a (hole n ∷ ts) = a ∷ hole_addresses (a + n) ts

-- What stands at `a` in memory. The hole at the end of the heap may lack its footer: `create_heap`
-- writes none.
unfoldable pub IsTile : Memory → (end a : ℕ) → Tile → Type 0
IsTile m end a (used n) = IsHeader m a 0 n × IsFooter m (a + n - 8) a × (20 ≤ n)
IsTile m end a (hole n) = IsHeader m a 1 n × ((a + n ≡ end) ⊎ IsFooter m (a + n - 8) a) × (20 ≤ n)

unfoldable pub AreTiles : Memory → (end a : ℕ) → List Tile → Type 0
unfolding IsTile
AreTiles m end a [] = Unit
AreTiles m end a (t ∷ ts) = IsTile m end a t × AreTiles m end (a + tile_size t) ts

-- The memory from `start` to `end` consists of these blocks and holes, and the word that `free`
-- reads in front of the first is not the magic number of a footer.
pub record IsRow (m : Memory) (start end : ℕ) (tiles : List Tile) : Type 0 where
  pub tiled : AreTiles m end start tiles
  pub whole : start + total tiles ≡ end
  pub above : 8 ≤ start
  pub low : end < 2 ^ 32
  pub guard : footer_magic m (start - 8) ≢ heap_magic

-- The heap consists of these blocks and holes, and its index has every hole exactly once.
pub record IsTiled (h : Heap) (tiles : List Tile) : Type 0 where
  pub row : IsRow h.memory h.start_address h.end_address tiles
  pub indexed : Holds h.index (hole_addresses h.start_address tiles)

-- Memory that is the same from `a` to `b`.
abbrev pub SameBetween : (a b : ℕ) → Memory → Memory → Type 0
SameBetween a b m m' = (j : ℕ) → a ≤ j → j < b → m' j ≡ m j

pub IsHeader-same :
    {m m' : Memory} {a is_hole size : ℕ}
    → SameBetween a (a + 12) m m'
    → IsHeader m a is_hole size
    → IsHeader m' a is_hole size
unfolding header_magic header_is_hole header_size
IsHeader-same {m} {m'} {a} same v = record {
  magic = load32_same m m' a (λ j p q. same j (omega arith) (omega arith)) ∙ v.magic;
  hole = same (a + 4) (omega arith) (omega arith) ∙ v.hole;
  size_eq = load32_same m m' (a + 8) (λ j p q. same j (omega arith) (omega arith)) ∙ v.size_eq;
}

pub IsFooter-same :
    {m m' : Memory} {a header : ℕ}
    → SameBetween a (a + 8) m m'
    → IsFooter m a header
    → IsFooter m' a header
unfolding footer_magic footer_header
IsFooter-same {m} {m'} {a} same v = record {
  magic = load32_same m m' a (λ j p q. same j (omega arith) (omega arith)) ∙ v.magic;
  owner = load32_same m m' (a + 4) (λ j p q. same j (omega arith) (omega arith)) ∙ v.owner;
}

IsTile-same :
    {m m' : Memory} (end a : ℕ) (t : Tile)
    → SameBetween a (a + tile_size t) m m'
    → IsTile m end a t
    → IsTile m' end a t
unfolding IsTile
IsTile-same end a (used n) same (header, footer, large) = (
  IsHeader-same (λ j p q. same j p (omega arith)) header,
  IsFooter-same (λ j p q. same j (omega arith) (omega arith)) footer,
  large,
)
IsTile-same end a (hole n) same (header, inl last, large) =
    (IsHeader-same (λ j p q. same j p (omega arith)) header, inl last, large)
IsTile-same end a (hole n) same (header, inr footer, large) = (
  IsHeader-same (λ j p q. same j p (omega arith)) header,
  inr (IsFooter-same (λ j p q. same j (omega arith) (omega arith)) footer),
  large,
)

-- A row of blocks survives any change of memory outside it.
pub AreTiles-same :
    {m m' : Memory} (end a : ℕ) (ts : List Tile)
    → SameBetween a (a + total ts) m m'
    → AreTiles m end a ts
    → AreTiles m' end a ts
unfolding AreTiles total
AreTiles-same end a [] same v = tt
AreTiles-same end a (t ∷ ts) same (v, vs) = (
  IsTile-same end a t (λ j p q. same j p (omega arith)) v,
  AreTiles-same end (a + tile_size t) ts (λ j p q. same j (omega arith) (omega arith)) vs,
)

-- A row is a row followed by another.
module _ (m : Memory) (end : ℕ) where
  pub AreTiles-at : {a b : ℕ} (ts : List Tile) → a ≡ b → AreTiles m end a ts → AreTiles m end b ts
  AreTiles-at ts e v = rw (← e) v

  pub AreTiles-append :
      (a : ℕ) (ts us : List Tile)
      → AreTiles m end a ts
      → AreTiles m end (a + total ts) us
      → AreTiles m end a (ts ++ us)
  unfolding AreTiles total
  AreTiles-append a [] us v w = AreTiles-at us (omega arith) w
  AreTiles-append a (t ∷ ts) us (v, vs) w =
      (v, AreTiles-append (a + tile_size t) ts us vs (AreTiles-at us (omega arith) w))

  pub AreTiles-split :
      (a : ℕ) (ts us : List Tile)
      → AreTiles m end a (ts ++ us)
      → AreTiles m end a ts × AreTiles m end (a + total ts) us
  unfolding AreTiles total
  AreTiles-split a [] us v = (tt, AreTiles-at us (omega arith) v)
  AreTiles-split a (t ∷ ts) us (v, vs) =
      let (w, ws) = AreTiles-split (a + tile_size t) ts us vs in
      ((v, w), AreTiles-at us (omega arith) ws)

pub total-append : (ts us : List Tile) → total (ts ++ us) ≡ total ts + total us
unfolding total
total-append [] us = omega arith
total-append (t ∷ ts) us = omega (arith, total-append ts us)

pub hole_addresses-append :
    (a : ℕ) (ts us : List Tile)
    → hole_addresses a (ts ++ us) ≡ hole_addresses a ts ++ hole_addresses (a + total ts) us
unfolding hole_addresses total
hole_addresses-append a [] us = ap (λ b. hole_addresses b us) (omega arith)
hole_addresses-append a (used n ∷ ts) us =
    hole_addresses-append (a + n) ts us
    ∙ ap (λ b. hole_addresses (a + n) ts ++ hole_addresses b us) (omega arith)
hole_addresses-append a (hole n ∷ ts) us =
    ap (λ l. a ∷ l)
      (hole_addresses-append (a + n) ts us
        ∙ ap (λ b. hole_addresses (a + n) ts ++ hole_addresses b us) (omega arith))

pub tile_positive : (m : Memory) (end a : ℕ) (t : Tile) → IsTile m end a t → 20 ≤ tile_size t
unfolding IsTile
tile_positive m end a (used n) v = v.2
tile_positive m end a (hole n) v = v.2

-- There are at most as many holes as fit.
pub hole_addresses_few :
    (m : Memory) (end a : ℕ) (ts : List Tile)
    → AreTiles m end a ts
    → 20 * length (hole_addresses a ts) ≤ total ts
unfolding AreTiles IsTile total hole_addresses
hole_addresses_few m end a [] v = omega arith
hole_addresses_few m end a (used n ∷ ts) (v, vs) =
    omega (arith, hole_addresses_few m end (a + n) ts vs)
hole_addresses_few m end a (hole n ∷ ts) ((header, footer, large), vs) =
    omega (arith, large, hole_addresses_few m end (a + n) ts vs)

-- An address among those of the holes is where one of the holes stands.
pub hole_at :
    (p a : ℕ) (ts : List Tile)
    → 0 < occurrences p (hole_addresses a ts)
    → (ls rs : List Tile) × (n : ℕ) × (ts ≡ ls ++ hole n ∷ rs) × (a + total ls ≡ p)
unfolding hole_addresses total occurrences
hole_at p a [] h = absurd (omega arith)
hole_at p a (used k ∷ ts) h =
    let (ls, rs, n, e, at) = hole_at p (a + k) ts h in
    (used k ∷ ls, rs, n, ap (λ l. used k ∷ l) e, omega arith)
hole_at p a (hole k ∷ ts) h = elim (Bool-cases (p == a)) [
  | inl here ↦ ([], ts, k, refl, ground arith)
  | inr other ↦
      let (ls, rs, n, e, at) = hole_at p (a + k) ts (ground arith) in
      (hole k ∷ ls, rs, n, ap (λ l. hole k ∷ l) e, omega arith)
]
