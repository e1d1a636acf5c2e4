-- ===== src/MakeInitrd/Boot.antt =====
-- From the image of make_initrd.c to what `initrd_read` reads.
use jslk.Base.{ℕ, suc, refl, inr, List, [], arith, length, ◌+◌, ◌*◌, ◌^◌, ◌≤◌, ◌<◌, ◌≡◌, ◌∙◌, ◌∷◌}
use jslk.Base.Memory.{Memory, Apart, load32, load32_same, store32, store32_outside}
use jslk.Base.Outcome.{done}
use jslk.Heap.{u32}
use jslk.Strings.{strcpy, memcpy}
use jslk.Strings.Append.{HoldsText}
use jslk.Strings.Compare.{HoldsText-kept, strcpy-memcpy}
use jslk.Initrd.{Initrd, make_nodes}
use jslk.MakeInitrd.Headers.{Source, IsHeaderOf, IsHeaderOf-kept, HaveHeaders, total_bytes}
use jslk.MakeInitrd.Nodes.{IsNodeOf, with_node, with_node_outside, with_node-IsNodeOf}

-- Every file has a name, shorter than its field.
abbrev pub HaveNames : (rounds : ℕ) → List Source → Type 0
HaveNames rounds [] = Unit
HaveNames rounds (f ∷ fs) =
    (0 < length f.name) × (length f.name < 64) × (length f.name ≤ rounds) × HaveNames rounds fs

-- The nodes from `node` on are those of the files from number `i` on.
abbrev pub HaveNodes : Memory → (a node i base volume : ℕ) → List Source → Type 0
HaveNodes m a node i base volume [] = Unit
HaveNodes m a node i base volume (f ∷ fs) =
    IsNodeOf m a node i base volume f
    × HaveNodes m (a + 76) (node + 156) (i + 1) (base + length f.bytes) volume fs

strcpy_name :
    (text : List ℕ) (rounds : ℕ) (m : Memory) (dest src : ℕ)
    → 0 < length text
    → length text ≤ rounds
    → HoldsText m src text
    → Apart dest (length text) src (length text + 1)
    → strcpy rounds m dest src ≡ done (memcpy m dest src (length text))
strcpy_name [] rounds m dest src pos le h apart = absurd (omega arith)
strcpy_name (c ∷ cs) rounds m dest src pos le h apart =
    strcpy-memcpy c cs rounds m dest src h apart (omega arith)

-- A round of the loop over the files.
make_nodes_step :
    (f : Source) (rounds n i location volume off : ℕ) (s : Initrd)
    → let a = s.file_headers + 76 * i in
      let node = s.root_nodes + 156 * i in
      0 < length f.name
      → length f.name < 64
      → length f.name ≤ rounds
      → IsHeaderOf s.memory a off f
      → Apart node 156 a 76
      → make_nodes rounds (suc n) i location volume s
        ≡ make_nodes rounds n
            (i + 1)
            location
            volume
            (record s { memory = with_node s.memory a node i location volume (length f.name) })
unfolding make_nodes
make_nodes_step f rounds n i location volume off s pos short le v apart =
    let a = s.file_headers + 76 * i in
    let node = s.root_nodes + 156 * i in
    let m0 = store32 s.memory (a + 68) (u32 (load32 s.memory (a + 68) + location)) in
    let there : HoldsText m0 (a + 1) f.name =
      HoldsText-kept f.name s.memory m0 (a + 1) v.text
        (λ j p q. store32_outside s.memory (a + 68) _ j (inr (omega arith))) in
    let run = strcpy_name f.name rounds m0 node (a + 1) pos le there (omega arith) in
    rw (make_nodes, run) refl

IsNodeOf-kept :
    (m m' : Memory) (a node i base volume : ℕ) (f : Source)
    → length f.name < 64
    → ((j : ℕ) → node ≤ j → j < node + 156 → m' j ≡ m j)
    → ((j : ℕ) → a ≤ j → j < a + 76 → m' j ≡ m j)
    → IsNodeOf m a node i base volume f
    → IsNodeOf m' a node i base volume f
IsNodeOf-kept m m' a node i base volume f short same same' v = record {
  offset = load32_same m m' (a + 68) (λ j p q. same' j (omega arith) (omega arith)) ∙ v.offset;
  size = load32_same m m' (a + 72) (λ j p q. same' j (omega arith) (omega arith)) ∙ v.size;
  name = λ k lt. same (node + k) (omega arith) (omega arith) ∙ v.name k lt;
  node_length =
      load32_same m m' (node + 128) (λ j p q. same j (omega arith) (omega arith)) ∙ v.node_length;
  node_type = same (node + 132) (omega arith) (omega arith) ∙ v.node_type;
  ino = load32_same m m' (node + 136) (λ j p q. same j (omega arith) (omega arith)) ∙ v.ino;
  node_volume =
      load32_same m m' (node + 140) (λ j p q. same j (omega arith) (omega arith)) ∙ v.node_volume;
}

HaveHeaders-kept :
    (rounds : ℕ) (m m' : Memory) (a off : ℕ) (fs : List Source)
    → HaveNames rounds fs
    → ((j : ℕ) → a ≤ j → j < a + 76 * length fs → m' j ≡ m j)
    → HaveHeaders m a off fs
    → HaveHeaders m' a off fs
HaveHeaders-kept rounds m m' a off [] names same h = tt
HaveHeaders-kept rounds m m' a off (f ∷ fs) (_, short, _, names) same (h, hs) = (
  IsHeaderOf-kept m m' a a off f short (λ j lt. same (a + j) (omega arith) (omega arith)) h,
  HaveHeaders-kept rounds m m' (a + 76) (off + length f.bytes) fs names
      (λ j p q. same j (omega arith) (omega arith)) hs,
)

-- The nodes that the loop makes, from file `i` on.
pub make_nodes-HaveNodes :
    (fs : List Source) (rounds i location volume off : ℕ) (s : Initrd)
    → let a = s.file_headers + 76 * i in
      let node = s.root_nodes + 156 * i in
      HaveNames rounds fs
      → HaveHeaders s.memory a off fs
      → Apart node (156 * length fs) a (76 * length fs)
      → off + location + total_bytes fs < 2 ^ 32
      → i + length fs < 2 ^ 32
      → volume < 2 ^ 32
      → (m' : Memory) × (make_nodes rounds (length fs) i location volume s
          ≡ done (record s { memory = m' }))
        × HaveNodes m' a node i (off + location) volume fs
        × ((j : ℕ)
            → Apart node (156 * length fs) j 1
            → Apart a (76 * length fs) j 1
            → m' j ≡ s.memory j)
unfolding total_bytes make_nodes
make_nodes-HaveNodes [] rounds i location volume off s names h apart low low_i low_v =
    (s.memory, refl, tt, (λ j p q. refl))
make_nodes-HaveNodes (f ∷ fs) rounds i location volume off s (pos, short, le, names) (h, hs) apart
      low low_i low_v =
    let a = s.file_headers + 76 * i in
    let node = s.root_nodes + 156 * i in
    let n = length f.bytes in
    let m1 = with_node s.memory a node i location volume (length f.name) in
    let s1 : Initrd = record s { memory = m1 } in
    let outside = with_node_outside s.memory a node location off f short (omega arith) i volume in
    let at : s.file_headers + 76 * (i + 1) ≡ a + 76 = omega arith in
    let at' : s.root_nodes + 156 * (i + 1) ≡ node + 156 = omega arith in
    let later : HaveHeaders m1 (s.file_headers + 76 * (i + 1)) (off + n) fs = rw at (
      HaveHeaders-kept rounds s.memory m1 (a + 76) (off + n) fs names
        (λ j p q. outside j (omega arith) (omega arith)) hs) in
    let (m', run, nodes, same) =
      make_nodes-HaveNodes fs rounds (i + 1) location volume (off + n) s1 names later
        (rw (at, at') (omega arith)) (omega arith) (omega arith) low_v in
    let own =
      with_node-IsNodeOf s.memory a node location off f short (omega arith) i volume (omega arith)
        (omega arith) (omega arith) low_v h in
    let base : off + n + location ≡ off + location + n = omega arith in
    (
      m',
      make_nodes_step f rounds (length fs) i location volume off s pos short le h (omega arith)
          ∙ run,
      (
        IsNodeOf-kept m1 m' a node i (off + location) volume f short
            (λ j p q. same j (omega arith) (omega arith))
            (λ j p q. same j (omega arith) (omega arith)) own,
        rw (at, at', base) at nodes,
      ),
      (λ j p q. same j (omega arith) (omega arith) ∙ outside j (omega arith) (omega arith)),
    )
