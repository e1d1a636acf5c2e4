-- ===== src/MakeInitrd.antt =====
-- initrd/make_initrd.c: the program on the host that makes the image of the ramdisk.
pub mod Headers
pub mod Image
pub mod Nodes
pub mod Boot
pub mod RoundTrip
mod Tests
use jslk.Base.{
  ℕ, zero, suc, min, max, bit_and, bit_or, refl, sym, ap, fun_ext, inl, inr, Bool, true, false, not,
  Option, none, some, List, [], map, arith, ltb, leb, ltb→lt, ltb→le, lt→ltb, le→ltb, ==→eq, ==→ne,
  eq→==, ne→==, Bool-cases, tests, write, write_self, write_ne, length, get_or, length-append, ◌+◌,
  ◌-◌, ◌*◌, ◌/◌, ◌%◌, ◌^◌, ◌≤◌, ◌<◌, ◌≡◌, ◌∙◌, ◌≢◌, ◌↔◌, ◌⊎◌, ◌&&◌, ◌||◌, ◌∷◌, ◌++◌, ◌==◌,
  if◌then◌else◌,
}
use jslk.Base.Memory.{load32, Memory, store8, store32}
use jslk.OrderedArray.View.{items}

-- A pair of arguments: the path of a file, and its name on the ramdisk.
pub record Argument : Type 0 where
  pub path : List ℕ
  pub name : List ℕ

-- `sizeof(struct initrd_header)`: a byte, a name of 64 bytes, three bytes of padding, two words.
abbrev pub image_header_bytes : ℕ
image_header_bytes = 76

abbrev pub max_headers : ℕ
max_headers = 64

-- `argv[i * 2 + 1]` and `argv[i * 2 + 2]` for each header.
unfoldable pub argument_pairs : List (List ℕ) → List Argument
argument_pairs [] = []
argument_pairs (path ∷ []) = []
argument_pairs (path ∷ name ∷ args) = record { path = path; name = name } ∷ argument_pairs args

-- `strcpy` from a text that lies apart from its destination.
unfoldable pub put_text : Memory → (a : ℕ) → List ℕ → Memory
put_text m a [] = store8 m a 0
put_text m a (c ∷ cs) = put_text (store8 m a c) (a + 1) cs

-- The writes to `headers[i]` for a file of `len` bytes whose contents go to `off` in the image.
unfoldable pub put_header : Memory → (i off len : ℕ) → (name : List ℕ) → Memory
unfolding put_text
put_header m i off len name =
    store8 (store32 (store32 (put_text m (76 * i + 1) name) (76 * i + 68) off) (76 * i + 72) len)
      (76 * i) 0xBF

-- What `fread` of `n` bytes into a fresh buffer leaves in it.
unfoldable pub read_file : (fresh : Memory) → (n : ℕ) → List ℕ → Memory
read_file fresh n bytes j = if ltb j (min n (length bytes)) then get_or bytes j 0 else fresh j

-- `fopen` gives the bytes of the file, or none.
module _ (fopen : List ℕ → Option (List ℕ)) where
  -- The first loop. The array `headers` is on the stack, at address 0 of its own memory, and has 64
  -- elements; the loop does not look at that. `none`: the program reports a file that is not found
  -- and returns 1.
  unfoldable pub make_headers : List Argument → (i off : ℕ) → Memory → Option (Memory × ℕ)
  unfolding put_header
  make_headers [] i off m = some (m, off)
  make_headers (a ∷ args) i off m = elim (fopen a.path) [
    | none ↦ none
    | some bytes ↦
        make_headers args (i + 1) ((off + length bytes) % 2 ^ 32)
          (put_header m i off (length bytes) a.name)
  ]

  -- The second loop: each file is opened again, and as many bytes as its header says are copied.
  -- A file that is no longer there is not noticed; `fopen` is the same in both loops. `fresh` is
  -- what `malloc` returns.
  unfoldable pub copy_files : (fresh headers : Memory) → List Argument → (i : ℕ) → List ℕ
  unfolding read_file
  copy_files fresh headers [] i = []
  copy_files fresh headers (a ∷ args) i =
      let n = load32 headers (76 * i + 72) in
      let rest = copy_files fresh headers args (i + 1) in
      elim (fopen a.path) [
        | none ↦ items fresh 0 n ++ rest
        | some bytes ↦ items (read_file fresh n bytes) 0 n ++ rest
      ]

  -- `main` for the pairs of arguments, with what the stack holds. The image is the number of headers, the 64 headers, and the
  -- contents.
  unfoldable pub make_initrd : (fresh stack : Memory) → List Argument → Option (List ℕ)
  unfolding make_headers copy_files
  make_initrd fresh stack args =
      elim (make_headers args 0 (image_header_bytes * max_headers + 4) stack) [
        | none ↦ none
        | some (headers, off) ↦ some (
            items (store32 (λ j. 0) 0 (length args)) 0 4
            ++ (items headers 0 (image_header_bytes * max_headers)
                ++ copy_files fresh headers args 0))
      ]

  -- `main`, where `args` are the arguments behind the name of the program. `nheaders` is half of
  -- their number: one that has no partner is passed over.
  unfoldable pub main : (fresh stack : Memory) → (args : List (List ℕ)) → Option (List ℕ)
  unfolding make_initrd argument_pairs
  main fresh stack args = make_initrd fresh stack (argument_pairs args)
