-- ===== src/Paging/Step.antt =====
-- One page that takes the first free frame: the bitmap and the tables before and after.
use jslk.Base.{
  ℕ, refl, ap, inl, inr, true, false, Option, none, some, arith, ltb, leb, ltb→lt, ltb→le, ==→eq,
  ==→ne, Bool-cases, ◌+◌, ◌*◌, ◌/◌, ◌%◌, ◌^◌, ◌≤◌, ◌<◌, ◌≡◌, ◌∙◌, ◌≢◌, ◌&&◌, ◌==◌, if◌then◌else◌,
}
use jslk.Base.Outcome.{done}
use jslk.Frames.{page_size, no_value, FrameMap, Page, set_frame, first_frame, alloc_frame}
use jslk.Frames.Bitmap.{used, used-set_frame}
use jslk.Frames.Search.{FirstFree, first_frame-FirstFree}
use jslk.Frames.Alloc.{mapped}
use jslk.Paging.{Paging, write_page}

-- The first frame that is not used is the one that `first_frame` finds.
pub first_frame_is :
    (m : FrameMap) (k : ℕ)
    → m.nframes ≤ 2 ^ 20
    → k < m.nframes / 32 * 32
    → used m k ≡ 0
    → ((j : ℕ) → j < k → used m j ≡ 1)
    → first_frame m ≡ some k
first_frame_is m k small inside free below =
    go (first_frame m) (first_frame-FirstFree m (omega arith))
  where
    go : (o : Option ℕ) → FirstFree m 0 (m.nframes / 32 * 32) o → o ≡ some k
    go none full = absurd (omega (arith, full k (omega arith) inside))
    go (some f) (lo, hi, zero_at, ones) = elim (Bool-cases (ltb f k)) [
      | inl e ↦ absurd (omega (arith, below f (ltb→lt _ _ e)))
      | inr e ↦ elim (Bool-cases (ltb k f)) [
        | inl e' ↦ absurd (omega (arith, ones k (omega arith) (ltb→lt _ _ e')))
        | inr e' ↦ let a = ltb→le f k e in let b = ltb→le k f e' in ap some (omega arith)
      ]
    ]

-- The page `k` of the table takes the frame `k`.
abbrev pub taken : {A : Type 0} → (table k : ℕ) → Paging A → Paging A
taken table k s =
    write_page (record { table = table; index = k }) (mapped (s.pages table k) k false false)
      (record s { frame_map = set_frame s.frame_map (k * 0x1000 % 2 ^ 32) })

pub alloc_frame_first :
    (undefined k : ℕ) (m : FrameMap) (page : Page)
    → m.used_frames ≢ m.nframes
    → page.frame ≡ 0
    → first_frame m ≡ some k
    → k < 2 ^ 20
    → alloc_frame undefined m page false false
      ≡ done (set_frame m (k * 0x1000 % 2 ^ 32), mapped page k false false, no_value)
unfolding alloc_frame
alloc_frame_first undefined k m page left no_frame found low = ground arith

pub nframes_kept :
    (m : FrameMap) (a : ℕ)
    → ((set_frame m a).nframes ≡ m.nframes) × ((set_frame m a).used_frames ≡ m.used_frames)
unfolding set_frame
nframes_kept m a = (refl, refl)

pub used_taken :
    (m : FrameMap) (k j : ℕ)
    → k < 2 ^ 20
    → used (set_frame m (k * 0x1000 % 2 ^ 32)) j ≡ (if j == k then 1 else used m j)
used_taken m k j low =
    let at : k * 0x1000 % 2 ^ 32 / page_size ≡ k = omega arith in
    used-set_frame m (k * 0x1000 % 2 ^ 32) j ∙ rw at refl

pub finished :
    (m : FrameMap) (j n : ℕ) → (j < n → used m j ≡ 1) → used m j ≡ (if ltb j n then 1 else used m j)
finished m j n below = elim (Bool-cases (ltb j n)) [
  | inl e ↦ rw e (below (ltb→lt _ _ e))
  | inr e ↦ rw e refl
]

pub ones_next : (x y k j : ℕ) → x ≡ (if j == k then 1 else y) → (j < k → y ≡ 1) → j < k + 1 → x ≡ 1
ones_next x y k j e below lt = ground arith

pub zero_next : (x y k j : ℕ) → x ≡ (if j == k then 1 else y) → y ≡ 0 → k + 1 ≤ j → x ≡ 0
zero_next x y k j e free le = ground arith

pub used_step :
    (x y z k j n : ℕ)
    → x ≡ (if j == k then 1 else y)
    → z ≡ (if ltb j n then 1 else x)
    → k < n
    → z ≡ (if ltb j n then 1 else y)
used_step x y z k j n first rest lt = ground arith

pub no_page : (t table i k n : ℕ) → n ≤ k → ((t == table) && (leb k i && ltb i n)) ≡ false
no_page t table i k n past = ground arith

-- A page after the pages from `k` on are mapped, by what it is after the page `k` is.
pub page_step :
    (pages : ℕ → ℕ → Page) (x y : Page) (t table i k n : ℕ)
    → k < n
    → x ≡ (if (t == table) && (i == k) then mapped (pages table k) k false false else pages t i)
    → y ≡ (if (t == table) && (leb (k + 1) i && ltb i n) then mapped x i false false else x)
    → y ≡ (
        if (t == table) && (leb k i && ltb i n)
        then mapped (pages t i) i false false
        else pages t i)
page_step pages x y t table i k n lt first rest = elim (Bool-cases (t == table)) [
  | inr e ↦ rw e (rw e at rest ∙ rw e at first)
  | inl e ↦ elim (Bool-cases (i == k)) [
    | inl f ↦
        let at = ==→eq t table e in
        let here = ==→eq i k f in
        let later : (leb (k + 1) i && ltb i n) ≡ false = ground arith in
        let now : (leb k i && ltb i n) ≡ true = ground arith in
        rw (e, now) (rw (e, later) at rest ∙ rw (e, f) at first ∙ rw (at, here) refl)
    | inr f ↦
        let away = ==→ne i k f in
        let same : (leb (k + 1) i && ltb i n) ≡ (leb k i && ltb i n) = ground arith in
        let x_at : x ≡ pages t i = rw (e, f) at first in rw (e, ← same) (rw (e, x_at) at rest)
  ]
]
