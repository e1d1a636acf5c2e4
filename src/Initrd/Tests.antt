-- ===== src/Initrd/Tests.antt =====
-- The theorems at a ramdisk of one file, with the name ab and the bytes ABCDE.
use jslk.Base.{
  ℕ, zero, suc, refl, inl, inr, List, [], arith, ltb, leb, ◌+◌, ◌-◌, ◌^◌, ◌<◌, ◌≡◌, ◌≢◌, ◌⊎◌, ◌&&◌,
  ◌||◌, ◌∷◌, ◌==◌, if◌then◌else◌,
}
use jslk.Base.Memory.{Memory, load32}
use jslk.Base.Outcome.{done}
use jslk.Strings.Append.{HoldsText}
use jslk.Initrd.{Initrd, initrd_read, initrd_write, initrd_finddir}
use jslk.Initrd.Read.{read_memory, available, IsFile, initrd_read-read_memory}
use jslk.Initrd.Write.{initrd_write_then_read}
use jslk.Initrd.Find.{HasNames, IsFirstNode, initrd_finddir-IsFirstNode}

abbrev disk_memory : Memory
disk_memory j =
    if leb 3000 j && ltb j 3005
    then j - 2935
    else if (j == 500) || (j == 320)
    then 0x61
    else if (j == 501) || (j == 321)
    then 0x62
    else if j == 300
    then 0x64
    else if j == 1068
    then 0xB8
    else if j == 1069
    then 0x0B
    else if j == 1072
    then 5
    else 0

-- The node lies at 500, the name ab at 320 and the name d at 300.
abbrev disk : Initrd
disk = record {
  memory = disk_memory;
  file_headers = 1000;
  initrd_root = 400;
  initrd_dev = 2000;
  root_nodes = 500;
  nroot_nodes = 1;
  dirent = 100;
  dev_text = 300;
  initrd_text = 340;
}

disk-IsFile : IsFile disk 500 3000 5
unfolding load32
disk-IsFile = record { header = inr (omega arith); at = refl; long = refl; fits = omega arith }

initrd_read-read_memory_example :
    let (n, s') = initrd_read 500 3 4 5000 disk in
    (n ≡ 2) × ((j : ℕ) → s'.memory j ≡ read_memory disk_memory 500 3000 5 3 4 5000 j)
unfolding available
initrd_read-read_memory_example =
    initrd_read-read_memory 500 3 4 5000 disk 3000 5 disk-IsFile (omega arith) (inr (omega arith))
      (inl (omega arith)) (inl (omega arith))

initrd_write_then_read_example :
    let (_, s1) = initrd_write 500 3 4 5000 disk in
    let (n, s2) = initrd_read 500 3 4 6000 s1 in
    (n ≡ available 5 3 4)
    × ((k : ℕ) → k < available 5 3 4 → s2.memory (6000 + k) ≡ disk_memory (5000 + k))
unfolding load32
initrd_write_then_read_example =
    initrd_write_then_read 500 3 4 5000 6000 disk 3000 5 disk-IsFile (omega arith) (omega arith)
      (inl (omega arith)) (inl (omega arith)) (inl (omega arith)) (inl (omega arith))
      (inl (omega arith)) (inr (omega arith)) (inr (omega arith))

ab-HoldsText : HoldsText disk_memory 500 (0x61 ∷ 0x62 ∷ [])
unfolding HoldsText
ab-HoldsText = (refl, (λ e. absurd (omega arith)), (refl, (λ e. absurd (omega arith)), refl))

name-HoldsText : HoldsText disk_memory 320 (0x61 ∷ 0x62 ∷ [])
unfolding HoldsText
name-HoldsText = (refl, (λ e. absurd (omega arith)), (refl, (λ e. absurd (omega arith)), refl))

d-HoldsText : HoldsText disk_memory 300 (0x64 ∷ [])
unfolding HoldsText
d-HoldsText = (refl, (λ e. absurd (omega arith)), refl)

disk-HasNames : HasNames disk (λ i. 0x61 ∷ 0x62 ∷ [])
unfolding HasNames
disk-HasNames zero lt = ab-HoldsText
disk-HasNames (suc i) lt = absurd (omega arith)

disk_number : load32 disk_memory 636 < 2 ^ 32
unfolding load32
disk_number = omega arith

abbrev ab_text : List ℕ
ab_text = 0x61 ∷ 0x62 ∷ []

abbrev d_text : List ℕ
d_text = 0x64 ∷ []

abbrev root : ℕ
root = 400

initrd_finddir-IsFirstNode_example :
    (r : ℕ) × (initrd_finddir 8 root 320 disk ≡ done r)
    × (((root ≡ disk.initrd_root) × (ab_text ≡ d_text) × (r ≡ 2000))
        ⊎ (((root ≢ disk.initrd_root) ⊎ (ab_text ≢ d_text))
            × IsFirstNode disk (λ i. ab_text) ab_text 0 1 r))
initrd_finddir-IsFirstNode_example =
    initrd_finddir-IsFirstNode ab_text d_text (λ i. ab_text) 8 root 320 disk disk-HasNames
      name-HoldsText d-HoldsText (omega arith)
