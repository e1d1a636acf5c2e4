-- ===== src/MakeInitrd/Nodes.antt =====
-- `initialise_initrd` makes a node for each file of a ramdisk in memory.
use jslk.Base.{
  ℕ, zero, suc, refl, ap, inl, inr, true, false, List, [], arith, ltb, leb, length, get_or, ◌+◌,
  ◌-◌, ◌^◌, ◌<◌, ◌≡◌, ◌∙◌, ◌&&◌, ◌∷◌,
}
use jslk.Base.Memory.{
  Memory, Apart, load32, store8, store32, load32_same, load32-store8-Apart, load32-store32-Apart,
  load32-store32_self, store8_self, store8_outside, store32_outside,
}
use jslk.Heap.{u32}
use jslk.Strings.{memcpy}
use jslk.Strings.Append.{HoldsText}
use jslk.Strings.Blocks.{memcpy_byte}
use jslk.MakeInitrd.Headers.{Source, IsHeaderOf}

memcpy_outside :
    (m : Memory) (dest src n j : ℕ)
    → Apart dest n src n
    → Apart dest n j 1
    → memcpy m dest src n j ≡ m j
memcpy_outside m dest src n j apart out =
    let outside : (leb dest j && ltb j (dest + n)) ≡ false = ground arith in
    memcpy_byte m dest src n j apart ∙ rw outside refl

HoldsText-char :
    (m : Memory) (a k : ℕ) (text : List ℕ)
    → HoldsText m a text
    → k < length text
    → m (a + k) ≡ get_or text k 0
unfolding HoldsText
HoldsText-char m a k [] h lt = absurd (omega arith)
HoldsText-char m a zero (c ∷ cs) h lt = ap m (omega arith) ∙ h.0
HoldsText-char m a (suc k) (c ∷ cs) h lt =
    ap m (omega arith) ∙ HoldsText-char m (a + 1) k cs h.2 (omega arith)

-- The header at `a` and the node at `node` of file `i`, once they are ready: the header has the
-- address of the contents.
pub record IsNodeOf (m : Memory) (a node i base volume : ℕ) (f : Source) : Type 0 where
  pub offset : load32 m (a + 68) ≡ base
  pub size : load32 m (a + 72) ≡ length f.bytes
  pub name : (k : ℕ) → k < length f.name → m (node + k) ≡ get_or f.name k 0
  pub node_length : load32 m (node + 128) ≡ length f.bytes
  pub node_type : m (node + 132) ≡ 1
  pub ino : load32 m (node + 136) ≡ i
  pub node_volume : load32 m (node + 140) ≡ volume

-- The four fields of a node that are written behind its name.
abbrev with_fields : (m : Memory) (node i volume len : ℕ) → Memory
with_fields m node i volume len =
    store32 (store8 (store32 (store32 m (node + 128) len) (node + 136) i) (node + 132) 1)
      (node + 140) volume

module _ (m : Memory) (node i volume len : ℕ) where
  with_fields_outside :
      (j : ℕ) → Apart (node + 128) 16 j 1 → with_fields m node i volume len j ≡ m j
  with_fields_outside j h =
      store32_outside _ (node + 140) volume j (omega arith)
      ∙ store8_outside _ (node + 132) 1 j (omega arith)
      ∙ store32_outside _ (node + 136) i j (omega arith)
      ∙ store32_outside m (node + 128) len j (omega arith)

  with_fields-length : len < 2 ^ 32 → load32 (with_fields m node i volume len) (node + 128) ≡ len
  with_fields-length low =
      load32-store32-Apart _ (node + 140) volume (node + 128) (inr (omega arith))
      ∙ load32-store8-Apart _ (node + 132) 1 (node + 128) (inr (omega arith))
      ∙ load32-store32-Apart _ (node + 136) i (node + 128) (inr (omega arith))
      ∙ load32-store32_self m (node + 128) len low

  with_fields-type : with_fields m node i volume len (node + 132) ≡ 1
  with_fields-type =
      store32_outside _ (node + 140) volume (node + 132) (inr (omega arith))
      ∙ store8_self _ (node + 132) 1

  with_fields-ino : i < 2 ^ 32 → load32 (with_fields m node i volume len) (node + 136) ≡ i
  with_fields-ino low =
      load32-store32-Apart _ (node + 140) volume (node + 136) (inr (omega arith))
      ∙ load32-store8-Apart _ (node + 132) 1 (node + 136) (inl (omega arith))
      ∙ load32-store32_self _ (node + 136) i low

  with_fields-volume :
      volume < 2 ^ 32 → load32 (with_fields m node i volume len) (node + 140) ≡ volume
  with_fields-volume low = load32-store32_self _ (node + 140) volume low

-- The memory once the offset is an address and the name is copied, and after all the writes for
-- file `i`.
abbrev pub with_name : (m : Memory) (a node location len : ℕ) → Memory
with_name m a node location len =
    memcpy (store32 m (a + 68) (u32 (load32 m (a + 68) + location))) node (a + 1) len

abbrev pub with_node : (m : Memory) (a node i location volume len : ℕ) → Memory
with_node m a node i location volume len =
    let m1 = with_name m a node location len in with_fields m1 node i volume (load32 m1 (a + 72))

module _ (m : Memory) (a node location off : ℕ) (f : Source) where
  module _ (short : length f.name < 64) (apart : Apart node 156 a 76) where
    abbrev named : Memory
    named = with_name m a node location (length f.name)

    named_outside : (j : ℕ) → Apart node 156 j 1 → Apart (a + 68) 4 j 1 → named j ≡ m j
    named_outside j h h' =
        memcpy_outside _ node (a + 1) (length f.name) j (omega arith) (omega arith)
        ∙ store32_outside m (a + 68) _ j h'

    named-size : load32 named (a + 72) ≡ load32 m (a + 72)
    named-size =
        load32_same m named (a + 72) λ j p q. named_outside j (omega arith) (inl (omega arith))

    named-offset :
        off + location < 2 ^ 32 → load32 m (a + 68) ≡ off → load32 named (a + 68) ≡ off + location
    named-offset low e =
        let m0 = store32 m (a + 68) (u32 (load32 m (a + 68) + location)) in
        let sum : u32 (load32 m (a + 68) + location) ≡ off + location = omega arith in
        load32_same m0 named (a + 68)
          (λ j p q. memcpy_outside m0 node (a + 1) (length f.name) j (omega arith) (omega arith))
        ∙ load32-store32_self m (a + 68) (u32 (load32 m (a + 68) + location)) (omega arith)
        ∙ sum

    named-name :
        HoldsText m (a + 1) f.name
        → (k : ℕ) → k < length f.name
        → named (node + k) ≡ get_or f.name k 0
    named-name h k lt =
        let m0 = store32 m (a + 68) (u32 (load32 m (a + 68) + location)) in
        let inside : (leb node (node + k) && ltb (node + k) (node + length f.name)) ≡ true =
          ground arith in
        let at : a + 1 + (node + k) - node ≡ a + 1 + k = omega arith in
        let copied : named (node + k) ≡ m0 (a + 1 + k) =
          rw (inside, at) at
            (memcpy_byte m0 node (a + 1) (length f.name) (node + k) (omega arith)) in
        copied
        ∙ store32_outside m (a + 68) _ (a + 1 + k) (inr (omega arith))
        ∙ HoldsText-char m (a + 1) k f.name h lt

    module _ (i volume : ℕ) where
      -- What the writes leave alone.
      pub with_node_outside :
          (j : ℕ)
          → Apart node 156 j 1
          → Apart (a + 68) 4 j 1
          → with_node m a node i location volume (length f.name) j ≡ m j
      with_node_outside j h h' =
          with_fields_outside named node i volume (load32 named (a + 72)) j (omega arith)
          ∙ named_outside j h h'

      pub with_node-IsNodeOf :
          off + location < 2 ^ 32
          → length f.bytes < 2 ^ 32
          → i < 2 ^ 32
          → volume < 2 ^ 32
          → IsHeaderOf m a off f
          → IsNodeOf
              (with_node m a node i location volume (length f.name))
              a
              node
              i
              (off + location)
              volume
              f
      with_node-IsNodeOf low low_n low_i low_v v =
          let n = load32 named (a + 72) in
          let size : n ≡ length f.bytes = named-size ∙ v.size in
          let m' = with_node m a node i location volume (length f.name) in
          record {
            offset =
                load32_same named m' (a + 68)
                  (λ j p q. with_fields_outside named node i volume n j (omega arith))
                ∙ named-offset low v.offset;
            size =
                load32_same named m' (a + 72)
                  (λ j p q. with_fields_outside named node i volume n j (omega arith))
                ∙ size;
            name = λ k lt.
                with_fields_outside named node i volume n (node + k) (inr (omega arith))
                ∙ named-name v.text k lt;
            node_length = with_fields-length named node i volume n (omega arith) ∙ size;
            node_type = with_fields-type named node i volume n;
            ino = with_fields-ino named node i volume n low_i;
            node_volume = with_fields-volume named node i volume n low_v;
          }
