-- ===== src/Initrd/Entries.antt =====
-- The directory entries of `initrd_readdir`.
use jslk.Base.{
  ℕ, suc, refl, ap, true, false, List, [], arith, ltb, leb, length, ◌+◌, ◌-◌, ◌*◌, ◌^◌, ◌≤◌, ◌<◌,
  ◌≡◌, ◌∙◌, ◌&&◌, ◌∷◌, ◌==◌,
}
use jslk.Base.Memory.{
  Memory, Apart, load32, store8, store32, store8_self, store8_outside, store32_outside,
  load32-store32_self, load32_same, load32-store8-Apart,
}
use jslk.Base.Outcome.{done}
use jslk.Heap.{sub32}
use jslk.Strings.{memcpy, strlen}
use jslk.Strings.Append.{HoldsText, strlen_from-HoldsText}
use jslk.Strings.Blocks.{memcpy_byte}
use jslk.Strings.Compare.{HoldsText-kept, strcpy-memcpy}
use jslk.Initrd.{Initrd, file_bytes, file_ino_at, initrd_readdir}

-- A text that is copied, with a zero byte set behind it, stands in its new place.
HoldsText-copied :
    (text : List ℕ) (m m' : Memory) (src dest : ℕ)
    → HoldsText m src text
    → ((k : ℕ) → k < length text → m' (dest + k) ≡ m (src + k))
    → m' (dest + length text) ≡ 0
    → HoldsText m' dest text
unfolding HoldsText
HoldsText-copied [] m m' src dest h same end =
    let at : dest + 0 ≡ dest = omega arith in rw at at end
HoldsText-copied (c ∷ cs) m m' src dest h same end =
    let at : dest + 0 ≡ dest = omega arith in
    let at' : src + 0 ≡ src = omega arith in
    let first = rw (at, at') at (same 0 (omega arith)) in
    let last : dest + suc (length cs) ≡ dest + 1 + length cs = omega arith in
    (
      first ∙ h.0,
      h.1,
      HoldsText-copied cs m m' (src + 1) (dest + 1) h.2
          (λ k lt.
            let d : dest + 1 + k ≡ dest + (k + 1) = omega arith in
            let e : src + 1 + k ≡ src + (k + 1) = omega arith in
            rw (d, e) (same (k + 1) (omega arith)))
          (rw last at end),
    )

entry_byte :
    (m : Memory) (dirent entry n k : ℕ)
    → Apart dirent 132 entry file_bytes
    → n < 128
    → k < n
    → store8 (memcpy m dirent entry n) (dirent + n) 0 (dirent + k) ≡ m (entry + k)
entry_byte m dirent entry n k apart short lt =
    let inside : (leb dirent (dirent + k) && ltb (dirent + k) (dirent + n)) ≡ true = ground arith in
    let at : entry + (dirent + k) - dirent ≡ entry + k = omega arith in
    store8_outside (memcpy m dirent entry n) (dirent + n) 0 (dirent + k) (omega arith)
    ∙ memcpy_byte m dirent entry n (dirent + k) (omega arith)
    ∙ rw (inside, at) refl

entry_kept :
    (m : Memory) (dirent entry n j : ℕ)
    → Apart dirent 132 entry file_bytes
    → n < 128
    → entry ≤ j
    → j < entry + file_bytes
    → memcpy m dirent entry n j ≡ m j
entry_kept m dirent entry n j apart short lo hi =
    let outside : (leb dirent j && ltb j (dirent + n)) ≡ false = ground arith in
    memcpy_byte m dirent entry n j (omega arith) ∙ rw outside refl

-- The memory in which the entry is ready, `m'` being what the copy of the name leaves.
entry_stored :
    (c : ℕ) (cs : List ℕ) (m m' : Memory) (dirent entry ino : ℕ)
    → Apart dirent 132 entry file_bytes
    → length (c ∷ cs) < 128
    → HoldsText m entry (c ∷ cs)
    → m' ≡ memcpy m dirent entry (length (c ∷ cs))
    → HoldsText
        (store32 (store8 m' (dirent + length (c ∷ cs)) 0) (dirent + 128) ino)
        dirent
        (c ∷ cs)
entry_stored c cs m m' dirent entry ino apart short h e =
    let n = length (c ∷ cs) in
    let m'' = store8 (memcpy m dirent entry n) (dirent + n) 0 in
    let copied =
      HoldsText-copied (c ∷ cs) m m'' entry dirent h
        (λ k lt. entry_byte m dirent entry n k apart short lt)
        (store8_self (memcpy m dirent entry n) (dirent + n) 0) in
    rw e (
      HoldsText-kept (c ∷ cs) m'' (store32 m'' (dirent + 128) ino) dirent copied
        (λ j lo hi. store32_outside m'' (dirent + 128) ino j (omega arith)))

-- `initrd_readdir` of an index from 1 to the number of nodes, given more rounds than the node's
-- name is long, returns the directory entry: the name stands in it as a text, and the node's number
-- behind it. The name is a text in memory that is not empty and shorter than 128 characters, and
-- the entry and the node lie apart.
initrd_readdir-HoldsText :
    (c : ℕ) (cs : List ℕ) (rounds node index : ℕ) (s : Initrd)
    → 1 ≤ index
    → index ≤ s.nroot_nodes
    → index < 2 ^ 32
    → HoldsText s.memory (s.root_nodes + file_bytes * (index - 1)) (c ∷ cs)
    → length (c ∷ cs) < 128
    → length (c ∷ cs) < rounds
    → Apart s.dirent 132 (s.root_nodes + file_bytes * (index - 1)) file_bytes
    → load32 s.memory (file_ino_at (s.root_nodes + file_bytes * (index - 1))) < 2 ^ 32
    → (m : Memory) × (initrd_readdir rounds node index s ≡ done (s.dirent, record s { memory = m }))
      × HoldsText m s.dirent (c ∷ cs)
      × (load32 m (s.dirent + 128)
          ≡ load32 s.memory (file_ino_at (s.root_nodes + file_bytes * (index - 1))))
unfolding initrd_readdir
initrd_readdir-HoldsText c cs rounds node index s low high small h short enough apart word =
    let entry = s.root_nodes + file_bytes * (index - 1) in
    let n = length (c ∷ cs) in
    let m = memcpy s.memory s.dirent entry n in
    let index_at : sub32 index 1 ≡ index - 1 = omega arith in
    let not_dev : ((node == s.initrd_root) && (index == 0)) ≡ false = ground arith in
    let listed : leb s.nroot_nodes (index - 1) ≡ false = ground arith in
    let copy = strcpy-memcpy c cs rounds s.memory s.dirent entry h (omega arith) (omega arith) in
    let there : HoldsText m entry (c ∷ cs) =
      HoldsText-kept (c ∷ cs) s.memory m entry h
        (λ j lo hi. entry_kept s.memory s.dirent entry n j apart short lo (omega arith)) in
    let at : entry + 0 ≡ entry = omega arith in
    let zero_more : 0 + length (c ∷ cs) ≡ length (c ∷ cs) = omega arith in
    let size : strlen rounds m entry ≡ done n =
      strlen_from-HoldsText (c ∷ cs) rounds 0 m entry (rw at there) enough ∙ ap done zero_more in
    let number : load32 (store8 m (s.dirent + n) 0) (file_ino_at entry)
        ≡ load32 s.memory (file_ino_at entry) =
      load32-store8-Apart m (s.dirent + n) 0 (file_ino_at entry) (omega arith)
      ∙ load32_same s.memory m (file_ino_at entry) (λ j lo hi.
        entry_kept s.memory s.dirent entry n j apart short (omega arith) (omega arith)) in
    rw (index_at, not_dev, listed, copy, size)
      (
        store32 (store8 m (s.dirent + n) 0) (s.dirent + 128)
            (load32 (store8 m (s.dirent + n) 0) (file_ino_at entry)),
        refl,
        entry_stored c cs s.memory m s.dirent entry
            (load32 (store8 m (s.dirent + n) 0) (file_ino_at entry)) apart short h refl,
        load32-store32_self (store8 m (s.dirent + n) 0) (s.dirent + 128)
              (load32 (store8 m (s.dirent + n) 0) (file_ino_at entry)) (rw number word)
            ∙ number,
      )
