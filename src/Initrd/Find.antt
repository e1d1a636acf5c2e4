-- ===== src/Initrd/Find.antt =====
-- Which node `initrd_finddir` finds.
use jslk.Base.{
  ℕ, zero, suc, refl, sym, ap, inl, inr, true, false, List, arith, ==→eq, ==→ne, Bool-cases, length,
  ◌+◌, ◌*◌, ◌≤◌, ◌<◌, ◌≡◌, ◌≢◌, ◌⊎◌, ◌==◌,
}
use jslk.Base.Memory.{Memory}
use jslk.Base.Outcome.{done}
use jslk.Strings.Append.{HoldsText}
use jslk.Strings.Compare.{
  first_difference, strcmp-first_difference, HoldsText-NoZero, first_difference-same,
  first_difference_self,
}
use jslk.Initrd.{Initrd, file_bytes, same_text, find_node, initrd_finddir}

-- `same_text` decides whether two texts in memory are the same.
pub same_text-decides :
    (t1 t2 : List ℕ) (rounds : ℕ) (m : Memory) (s1 s2 : ℕ)
    → HoldsText m s1 t1
    → HoldsText m s2 t2
    → length t1 < rounds
    → ((same_text rounds m s1 s2 ≡ done true) × (t1 ≡ t2))
      ⊎ ((same_text rounds m s1 s2 ≡ done false) × (t1 ≢ t2))
unfolding same_text
same_text-decides t1 t2 rounds m s1 s2 h1 h2 lt =
    let at1 : s1 + 0 ≡ s1 = omega arith in
    let at2 : s2 + 0 ≡ s2 = omega arith in
    let run = strcmp-first_difference t1 t2 rounds 0 m s1 s2 (rw at1 h1) (rw at2 h2) lt in
    elim (Bool-cases ((first_difference t1 t2).0 == (first_difference t1 t2).1)) [
      | inl e ↦ inl (
        rw run (ap done e),
        first_difference-same t1 t2 (HoldsText-NoZero m s1 t1 h1) (HoldsText-NoZero m s2 t2 h2)
            (==→eq _ _ e),
      )
      | inr e ↦ inr (rw run (ap done e), λ same. ==→ne _ _ e rw same (first_difference_self t2))
    ]

-- The nodes' names stand in memory.
unfoldable pub HasNames : Initrd → (names : ℕ → List ℕ) → Type 0
HasNames s names =
    (i : ℕ) → i < s.nroot_nodes → HoldsText s.memory (s.root_nodes + file_bytes * i) (names i)

-- `r` is the address of the first node from `i` on, up to `last`, with the name `text`, and 0 if
-- there is none.
unfoldable pub IsFirstNode :
    Initrd → (names : ℕ → List ℕ) → (text : List ℕ) → (i last r : ℕ) → Type 0
IsFirstNode s names text i last r =
    ((k : ℕ) × (i ≤ k)
      × (k < last)
      × (names k ≡ text)
      × ((j : ℕ) → i ≤ j → j < k → names j ≢ text)
      × (r ≡ s.root_nodes + file_bytes * k))
    ⊎ (((j : ℕ) → i ≤ j → j < last → names j ≢ text) × (r ≡ 0))

differs_from :
    (text : List ℕ) (names : ℕ → List ℕ) (i last : ℕ)
    → names i ≢ text
    → ((j : ℕ) → i + 1 ≤ j → j < last → names j ≢ text)
    → (j : ℕ) → i ≤ j
    → j < last
    → names j ≢ text
differs_from text names i last differ later j lo hi = elim (Bool-cases (j == i)) [
  | inl e ↦ rw (==→eq j i e) differ
  | inr e ↦ let ne = ==→ne j i e in later j (omega arith) hi
]

IsFirstNode-earlier :
    (text : List ℕ) (names : ℕ → List ℕ) (i r : ℕ) (s : Initrd)
    → names i ≢ text
    → IsFirstNode s names text (i + 1) s.nroot_nodes r
    → IsFirstNode s names text i s.nroot_nodes r
unfolding IsFirstNode
IsFirstNode-earlier text names i r s differ (inl (k, lo, hi, same, before, at)) =
    inl (k, omega arith, hi, same, differs_from text names i k differ before, at)
IsFirstNode-earlier text names i r s differ (inr (none_later, at)) =
    inr (differs_from text names i s.nroot_nodes differ none_later, at)

find_node-IsFirstNode :
    (text : List ℕ) (names : ℕ → List ℕ) (rounds n i name : ℕ) (s : Initrd)
    → HasNames s names
    → HoldsText s.memory name text
    → length text < rounds
    → i + n ≡ s.nroot_nodes
    → (r : ℕ) × (find_node rounds n i name s ≡ done r) × IsFirstNode s names text i s.nroot_nodes r
unfolding find_node HasNames IsFirstNode
find_node-IsFirstNode text names rounds zero i name s has h lt e =
    (0, refl, inr (λ j lo hi. absurd (omega arith), refl))
find_node-IsFirstNode text names rounds (suc n) i name s has h lt e =
    let (r, run, first) =
      find_node-IsFirstNode text names rounds n (i + 1) name s has h lt (omega arith) in
    elim (same_text-decides text (names i) rounds s.memory name (s.root_nodes + file_bytes * i) h
      (has i (omega arith)) lt) [
        | inl (found, same) ↦ (
          s.root_nodes + file_bytes * i,
          rw found refl,
          inl (i, omega arith, omega arith, sym same, λ j lo hi. absurd (omega arith), refl),
        )
        | inr (missed, differ) ↦
            (r, rw missed run, IsFirstNode-earlier text names i r s (λ q. differ (sym q)) first)
      ]

-- `initrd_finddir`, given more rounds than `text` is long, returns. In the root directory it gives
-- the node of /dev for the name "dev"; for each other name, and in each other directory, it gives
-- the first node with that name, and 0 if there is none. `name`, "dev" and the nodes' names are
-- texts in memory.
pub initrd_finddir-IsFirstNode :
    (text dev : List ℕ) (names : ℕ → List ℕ) (rounds node name : ℕ) (s : Initrd)
    → HasNames s names
    → HoldsText s.memory name text
    → HoldsText s.memory s.dev_text dev
    → length text < rounds
    → (r : ℕ) × (initrd_finddir rounds node name s ≡ done r)
      × (((node ≡ s.initrd_root) × (text ≡ dev) × (r ≡ s.initrd_dev))
          ⊎ (((node ≢ s.initrd_root) ⊎ (text ≢ dev)) × IsFirstNode s names text 0 s.nroot_nodes r))
unfolding initrd_finddir
initrd_finddir-IsFirstNode text dev names rounds node name s has h hd lt =
    let (r, run, first) =
      find_node-IsFirstNode text names rounds s.nroot_nodes 0 name s has h lt (omega arith) in
    elim (Bool-cases (node == s.initrd_root)) [
      | inr e ↦ (r, rw e run, inr (inl (==→ne _ _ e), first))
      | inl e ↦ elim (same_text-decides text dev rounds s.memory name s.dev_text h hd lt) [
        | inl (found, same) ↦ (s.initrd_dev, rw (e, found) refl, inl (==→eq _ _ e, same, refl))
        | inr (missed, differ) ↦ (r, rw (e, missed) run, inr (inr differ, first))
      ]
    ]
