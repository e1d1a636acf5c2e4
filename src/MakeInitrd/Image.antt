-- ===== src/MakeInitrd/Image.antt =====
-- The image that make_initrd.c writes: the number of files, their headers, and their contents.
use jslk.Base.{
  ℕ, zero, suc, min, refl, ap, true, Option, some, List, [], arith, ltb, lt→ltb, length, get_or,
  length-append, ◌+◌, ◌*◌, ◌^◌, ◌≤◌, ◌<◌, ◌≡◌, ◌∙◌, ◌∷◌, ◌++◌,
}
use jslk.MakeInitrd.{make_initrd, copy_files, read_file, Argument, make_headers}
use jslk.MakeInitrd.Headers.{
  make_headers-HaveHeaders, load32-moved, Source, arguments, AreSources, total_bytes,
  IsHeaderOf-kept, HaveHeaders,
}
use jslk.Base.Memory.{Memory, load32, store32, load32-store32_self}
use jslk.OrderedArray.View.{items}
use jslk.OrderedArray.Remove.{items-get_or}

unfoldable pub all_bytes : List Source → List ℕ
all_bytes [] = []
all_bytes (f ∷ fs) = f.bytes ++ all_bytes fs

-- The contents of the files stand one behind the other from `a` on.
abbrev pub HaveBytes : Memory → (a : ℕ) → List Source → Type 0
HaveBytes m a [] = Unit
HaveBytes m a (f ∷ fs) =
    ((k : ℕ) → k < length f.bytes → m (a + k) ≡ get_or f.bytes k 0)
    × HaveBytes m (a + length f.bytes) fs

-- A ramdisk at `location` in memory.
pub record IsRamdisk (m : Memory) (location : ℕ) (fs : List Source) : Type 0 where
  pub count : load32 m location ≡ length fs
  pub headers : HaveHeaders m (location + 4) 4868 fs
  pub contents : HaveBytes m (location + 4868) fs

-- The image has been read into memory.
abbrev pub IsLoaded : Memory → (location : ℕ) → List ℕ → Type 0
IsLoaded m location image = (j : ℕ) → j < length image → m (location + j) ≡ get_or image j 0

get_or-append_left :
    (xs ys : List ℕ) (i d : ℕ) → i < length xs → get_or (xs ++ ys) i d ≡ get_or xs i d
get_or-append_left [] ys i d h = absurd (omega arith)
get_or-append_left (x ∷ xs) ys zero d h = refl
get_or-append_left (x ∷ xs) ys (suc i) d h = get_or-append_left xs ys i d (omega arith)

get_or-append_right :
    (xs ys : List ℕ) (i j d : ℕ) → j ≡ length xs + i → get_or (xs ++ ys) j d ≡ get_or ys i d
get_or-append_right [] ys i j d e = ap (λ k. get_or ys k d) (omega arith)
get_or-append_right (x ∷ xs) ys i zero d e = absurd (omega arith)
get_or-append_right (x ∷ xs) ys i (suc j) d e = get_or-append_right xs ys i j d (omega arith)

length-items : (f : ℕ → ℕ) (s n : ℕ) → length (items f s n) ≡ n
unfolding items
length-items f s zero = refl
length-items f s (suc n) = omega (arith, length-items f (s + 1) n)

-- Cells that hold the elements of a list are that list.
items-list :
    (xs : List ℕ) (f : ℕ → ℕ) (s : ℕ)
    → ((k : ℕ) → k < length xs → f (s + k) ≡ get_or xs k 0)
    → items f s (length xs) ≡ xs
unfolding items
items-list [] f s same = refl
items-list (x ∷ xs) f s same =
    let at : s + 0 ≡ s = omega arith in
    let first : f s ≡ x = rw at at (same 0 (omega arith)) in
    rw first (
      ap (λ ys. x ∷ ys)
        (items-list xs f (s + 1) λ k lt.
          let next : s + suc k ≡ s + 1 + k = omega arith in
          rw next at (same (suc k) (omega arith))))

read_file-bytes :
    (fresh : Memory) (bytes : List ℕ)
    → items (read_file fresh (length bytes) bytes) 0 (length bytes) ≡ bytes
unfolding read_file
read_file-bytes fresh bytes = items-list bytes (read_file fresh (length bytes) bytes) 0 λ k lt.
    let at : 0 + k ≡ k = omega arith in
    let inside : ltb k (min (length bytes) (length bytes)) ≡ true = lt→ltb _ _ (omega arith) in
    rw at (rw inside refl)

-- The second loop copies the files whose headers the first has made.
copy_files-all_bytes :
    (fopen : List ℕ → Option (List ℕ)) (fresh headers : Memory) (fs : List Source) (i off : ℕ)
    → AreSources fopen fs
    → HaveHeaders headers (76 * i) off fs
    → copy_files fopen fresh headers (arguments fs) i ≡ all_bytes fs
unfolding copy_files all_bytes
copy_files-all_bytes fopen fresh headers [] i off v h = refl
copy_files-all_bytes fopen fresh headers (f ∷ fs) i off (v, vs) (h, hs) =
    let rest : HaveHeaders headers (76 * (i + 1)) (off + length f.bytes) fs =
      let at : 76 * (i + 1) ≡ 76 * i + 76 = omega arith in rw at hs in
    let own = read_file-bytes fresh f.bytes in
    rw (copy_files, v.found)
      (rw (h.size, own)
        (ap (λ ys. f.bytes ++ ys)
          (copy_files-all_bytes fopen fresh headers fs (i + 1) (off + length f.bytes) vs rest)))

length-all_bytes : (fs : List Source) → length (all_bytes fs) ≡ total_bytes fs
unfolding all_bytes total_bytes
length-all_bytes [] = refl
length-all_bytes (f ∷ fs) = omega (arith, length-append f.bytes (all_bytes fs), length-all_bytes fs)

all_bytes-HaveBytes :
    (m : Memory) (a : ℕ) (fs : List Source) → IsLoaded m a (all_bytes fs) → HaveBytes m a fs
unfolding all_bytes
all_bytes-HaveBytes m a [] same = tt
all_bytes-HaveBytes m a (f ∷ fs) same =
    let long = length-append f.bytes (all_bytes fs) in
    (
      (λ k lt. same k (omega arith) ∙ get_or-append_left f.bytes (all_bytes fs) k 0 lt),
      all_bytes-HaveBytes m (a + length f.bytes) fs (λ j lt.
          let at : a + (length f.bytes + j) ≡ a + length f.bytes + j = omega arith in
          rw at at (same (length f.bytes + j) (omega arith))
          ∙ get_or-append_right f.bytes (all_bytes fs) j (length f.bytes + j) 0 refl),
    )

-- Headers that are copied to another place are headers there.
HaveHeaders-moved :
    (fopen : List ℕ → Option (List ℕ)) (m m' : Memory) (a b off : ℕ) (fs : List Source)
    → AreSources fopen fs
    → ((j : ℕ) → j < 76 * length fs → m' (b + j) ≡ m (a + j))
    → HaveHeaders m a off fs
    → HaveHeaders m' b off fs
HaveHeaders-moved fopen m m' a b off [] v same h = tt
HaveHeaders-moved fopen m m' a b off (f ∷ fs) (v, vs) same (h, hs) = (
  IsHeaderOf-kept m m' a b off f v.short (λ j lt. same j (omega arith)) h,
  HaveHeaders-moved fopen m m' (a + 76) (b + 76) (off + length f.bytes) fs vs
      (λ j lt.
        let at : b + (76 + j) ≡ b + 76 + j = omega arith in
        let at' : a + (76 + j) ≡ a + 76 + j = omega arith in
        rw (at, at') at (same (76 + j) (omega arith)))
      hs,
)

-- The image in three parts, loaded at `location`.
IsLoaded-parts :
    (m : Memory) (location : ℕ) (word headers : Memory) (rest : List ℕ)
    → IsLoaded m location (items word 0 4 ++ (items headers 0 4864 ++ rest))
    → ((k : ℕ) → k < 4 → m (location + k) ≡ word (0 + k))
      × ((k : ℕ) → k < 4864 → m (location + 4 + k) ≡ headers (0 + k))
      × IsLoaded m (location + 4868) rest
IsLoaded-parts m location word headers rest same =
    let xs = items word 0 4 in
    let ys = items headers 0 4864 in
    let n_xs = length-items word 0 4 in
    let n_ys = length-items headers 0 4864 in
    let n = length-append xs (ys ++ rest) in
    let n' = length-append ys rest in
    (
      (λ k lt.
          same k (omega arith)
          ∙ get_or-append_left xs (ys ++ rest) k 0 (omega arith)
          ∙ items-get_or word 0 4 k 0 lt),
      (λ k lt.
          let at : location + (4 + k) ≡ location + 4 + k = omega arith in
          rw at at (same (4 + k) (omega arith))
          ∙ get_or-append_right xs (ys ++ rest) k (4 + k) 0 (omega arith)
          ∙ get_or-append_left ys rest k 0 (omega arith)
          ∙ items-get_or headers 0 4864 k 0 lt),
      (λ k lt.
          let at : location + (4868 + k) ≡ location + 4868 + k = omega arith in
          rw at at (same (4868 + k) (omega arith))
          ∙ get_or-append_right xs (ys ++ rest) (4864 + k) (4868 + k) 0 (omega arith)
          ∙ get_or-append_right ys rest k (4864 + k) 0 (omega arith)),
    )

length-arguments : (fs : List Source) → length (arguments fs) ≡ length fs
length-arguments [] = refl
length-arguments (f ∷ fs) = ap suc (length-arguments fs)

make_initrd_run :
    (fopen : List ℕ → Option (List ℕ)) (fresh stack headers : Memory) (args : List Argument)
    (off : ℕ)
    → make_headers fopen args 0 4868 stack ≡ some (headers, off)
    → make_initrd fopen fresh stack args
      ≡ some (
          items (store32 (λ j. 0) 0 (length args)) 0 4
          ++ (items headers 0 4864 ++ copy_files fopen fresh headers args 0))
unfolding make_initrd
make_initrd_run fopen fresh stack headers args off run = rw (make_initrd, run) refl

-- For at most 64 files that are found, with names of fewer than 64 characters and contents that end
-- below 2^32, the program writes an image, whatever the stack and the fresh memory held. Loaded
-- anywhere into memory, it is the number of the files; for each file, in their order, a header with
-- its name as a text, the offset of its contents and their length; and behind the 64 headers the
-- contents.
pub make_initrd-IsRamdisk :
    (fopen : List ℕ → Option (List ℕ)) (fresh stack : Memory) (fs : List Source)
    → AreSources fopen fs
    → length fs ≤ 64
    → 4868 + total_bytes fs < 2 ^ 32
    → (image : List ℕ) × (make_initrd fopen fresh stack (arguments fs) ≡ some image)
      × (length image ≡ 4868 + total_bytes fs)
      × ((m : Memory) (location : ℕ) → IsLoaded m location image → IsRamdisk m location fs)
make_initrd-IsRamdisk fopen fresh stack fs v few low =
    let (headers, run, made, _) = make_headers-HaveHeaders fopen fs 0 4868 stack v low in
    let copied = copy_files-all_bytes fopen fresh headers fs 0 4868 v made in
    let word = store32 (λ j. 0) 0 (length fs) in
    let count = length-arguments fs in
    (
      items word 0 4 ++ (items headers 0 4864 ++ all_bytes fs),
      make_initrd_run fopen fresh stack headers (arguments fs) (4868 + total_bytes fs) run
          ∙ ap
              (λ n. some (
                items (store32 (λ j. 0) 0 n) 0 4
                ++ (items headers 0 4864 ++ copy_files fopen fresh headers (arguments fs) 0)))
              count
          ∙ ap (λ ys. some (items word 0 4 ++ (items headers 0 4864 ++ ys))) copied,
      omega (
        arith,
        length-append (items word 0 4) (items headers 0 4864 ++ all_bytes fs),
        length-append (items headers 0 4864) (all_bytes fs),
        length-items word 0 4,
        length-items headers 0 4864,
        length-all_bytes fs,
      ),
      (λ m location loaded.
          let (first, second, third) =
            IsLoaded-parts m location word headers (all_bytes fs) loaded in
          record {
            count =
                load32-moved word m 0 location first
                ∙ load32-store32_self (λ j. 0) 0 (length fs) (omega arith);
            headers =
                HaveHeaders-moved fopen headers m 0 (location + 4) 4868 fs v
                  (λ j lt. second j (omega arith)) made;
            contents = all_bytes-HaveBytes m (location + 4868) fs third;
          }),
    )
