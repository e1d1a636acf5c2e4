-- ===== src/MakeInitrd/Tests.antt =====
-- The theorems at an image of one file, with the name a and the bytes AB.
use jslk.Base.{
  ℕ, refl, ap, inr, Option, none, some, List, [], arith, length, get_or, ◌+◌, ◌-◌, ◌*◌, ◌<◌, ◌≡◌,
  ◌∙◌, ◌∷◌,
}
use jslk.Base.Memory.{Memory, load32}
use jslk.Base.Outcome.{done}
use jslk.Initrd.{Initrd, make_nodes, initrd_read}
use jslk.Initrd.Read.{available}
use jslk.Strings.Compare.{NoZero}
use jslk.MakeInitrd.{make_initrd}
use jslk.MakeInitrd.Headers.{Source, arguments, AreSources, total_bytes}
use jslk.MakeInitrd.Image.{IsLoaded, IsRamdisk, make_initrd-IsRamdisk}
use jslk.MakeInitrd.RoundTrip.{make_initrd_then_read}

abbrev one_file : Source
one_file = record { path = 0x66 ∷ []; name = 0x61 ∷ []; bytes = 0x41 ∷ 0x42 ∷ [] }

abbrev host : List ℕ → Option (List ℕ)
host path = some (0x41 ∷ 0x42 ∷ [])

abbrev nothing : Memory
nothing j = 0

one_file-AreSources : AreSources host (one_file ∷ [])
unfolding NoZero
one_file-AreSources =
    (record { found = refl; short = omega arith; text = ((λ e. absurd (omega arith)), tt) }, tt)

one_file_total : 4868 + total_bytes (one_file ∷ []) ≡ 4870
unfolding total_bytes
one_file_total = refl

make_initrd-IsRamdisk_example :
    (image : List ℕ) × (make_initrd host nothing nothing (arguments (one_file ∷ [])) ≡ some image)
    × (length image ≡ 4868 + total_bytes (one_file ∷ []))
    × ((m : Memory) (location : ℕ)
        → IsLoaded m location image
        → IsRamdisk m location (one_file ∷ []))
make_initrd-IsRamdisk_example =
    make_initrd-IsRamdisk host nothing nothing (one_file ∷ []) one_file-AreSources (omega arith)
      (omega (arith, one_file_total))

abbrev image_or : Option (List ℕ) → List ℕ
image_or none = []
image_or (some image) = image

-- The image at 0x1000, the nodes at 0x10000.
abbrev booted : Initrd
booted = record {
  memory = λ j.
      get_or (image_or (make_initrd host nothing nothing (arguments (one_file ∷ [])))) (j - 0x1000)
        0;
  file_headers = 0x1004;
  initrd_root = 0;
  initrd_dev = 0;
  root_nodes = 0x10000;
  nroot_nodes = 0;
  dirent = 0;
  dev_text = 0;
  initrd_text = 0;
}

booted-IsLoaded :
    (image : List ℕ)
    → make_initrd host nothing nothing (arguments (one_file ∷ [])) ≡ some image
    → IsLoaded booted.memory 0x1000 image
booted-IsLoaded image e j lt =
    let at : 0x1000 + j - 0x1000 ≡ j = omega arith in
    ap (λ k. get_or (image_or (make_initrd host nothing nothing (arguments (one_file ∷ [])))) k 0)
      at
    ∙ ap (λ o. get_or (image_or o) j 0) e

make_initrd_then_read_example :
    (s' : Initrd) × (make_nodes 8 (load32 booted.memory 0x1000) 0 0x1000 7 booted ≡ done s')
    × (let (n, s'') = initrd_read (0x10000 + 156 * length {A = Source} []) 1 8 0x20000 s' in
        (n ≡ available 2 1 8)
        × ((k : ℕ) → k < n → s''.memory (0x20000 + k) ≡ get_or (0x41 ∷ 0x42 ∷ []) (1 + k) 0))
make_initrd_then_read_example =
    make_initrd_then_read host nothing nothing [] [] one_file 8 0x1000 7 1 8 0x20000 booted
      one_file-AreSources (omega arith, omega arith, omega arith, tt) (omega arith)
      (omega (arith, one_file_total)) (omega arith) booted-IsLoaded refl
      (inr (omega (arith, one_file_total))) (inr (omega (arith, one_file_total)))
      (inr (omega arith)) (omega arith)
