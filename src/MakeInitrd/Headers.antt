-- ===== src/MakeInitrd/Headers.antt =====
-- The headers that the first loop of make_initrd.c makes, and the file contents behind them.
use jslk.Base.{
  ℕ, refl, ap, inl, inr, Option, some, List, [], arith, length, ◌+◌, ◌*◌, ◌%◌, ◌^◌, ◌≤◌, ◌<◌, ◌≡◌,
  ◌∙◌, ◌∷◌,
}
use jslk.Base.Memory.{
  Memory, Apart, load32, store8, load32-store8-Apart, load32-store32-Apart, load32-store32_self,
  store8_self, store8_outside, store32_outside,
}
use jslk.Strings.Append.{HoldsText}
use jslk.Strings.Compare.{HoldsText-kept, NoZero}
use jslk.MakeInitrd.{Argument, put_text, put_header, make_headers}

-- A file of the ramdisk: its name and its bytes.
pub record Source : Type 0 where
  pub path : List ℕ
  pub name : List ℕ
  pub bytes : List ℕ

abbrev pub argument : Source → Argument
argument f = record { path = f.path; name = f.name }

abbrev pub arguments : List Source → List Argument
arguments [] = []
arguments (f ∷ fs) = argument f ∷ arguments fs

-- The name of a file fits its header with a zero byte, its bytes are those that `fopen` finds, and
-- the contents of all files end below 2^32.
pub record IsSource (fopen : List ℕ → Option (List ℕ)) (f : Source) : Type 0 where
  pub found : fopen f.path ≡ some f.bytes
  pub short : length f.name < 64
  pub text : NoZero f.name

abbrev pub AreSources : (List ℕ → Option (List ℕ)) → List Source → Type 0
AreSources fopen [] = Unit
AreSources fopen (f ∷ fs) = IsSource fopen f × AreSources fopen fs

unfoldable pub total_bytes : List Source → ℕ
total_bytes [] = 0
total_bytes (f ∷ fs) = length f.bytes + total_bytes fs

-- The header at `a`.
pub record IsHeaderOf (m : Memory) (a off : ℕ) (f : Source) : Type 0 where
  pub text : HoldsText m (a + 1) f.name
  pub offset : load32 m (a + 68) ≡ off
  pub size : load32 m (a + 72) ≡ length f.bytes

-- The headers from `a` on are those of the files, whose contents follow one another from `off` on.
abbrev pub HaveHeaders : Memory → (a off : ℕ) → List Source → Type 0
HaveHeaders m a off [] = Unit
HaveHeaders m a off (f ∷ fs) =
    IsHeaderOf m a off f × HaveHeaders m (a + 76) (off + length f.bytes) fs

-- What is moved to another place is read there.
pub load32-moved :
    (m m' : Memory) (a b : ℕ)
    → ((k : ℕ) → k < 4 → m' (b + k) ≡ m (a + k))
    → load32 m' b ≡ load32 m a
unfolding load32
load32-moved m m' a b same =
    let at : b + 0 ≡ b = omega arith in
    let at' : a + 0 ≡ a = omega arith in
    rw
      (
        rw (at, at') at (same 0 (omega arith)),
        same 1 (omega arith),
        same 2 (omega arith),
        same 3 (omega arith),
      )
      refl

pub HoldsText-moved :
    (text : List ℕ) (m m' : Memory) (a b : ℕ)
    → ((k : ℕ) → k < length text + 1 → m' (b + k) ≡ m (a + k))
    → HoldsText m a text
    → HoldsText m' b text
unfolding HoldsText
HoldsText-moved [] m m' a b same h =
    let at : b + 0 ≡ b = omega arith in
    let at' : a + 0 ≡ a = omega arith in rw (at, at') at (same 0 (omega arith)) ∙ h
HoldsText-moved (c ∷ cs) m m' a b same h =
    let at : b + 0 ≡ b = omega arith in
    let at' : a + 0 ≡ a = omega arith in
    (
      rw (at, at') at (same 0 (omega arith)) ∙ h.0,
      h.1,
      HoldsText-moved cs m m' (a + 1) (b + 1)
          (λ k lt.
            let d : b + (k + 1) ≡ b + 1 + k = omega arith in
            let e : a + (k + 1) ≡ a + 1 + k = omega arith in
            rw (d, e) at (same (k + 1) (omega arith)))
          h.2,
    )

pub IsHeaderOf-kept :
    (m m' : Memory) (a b off : ℕ) (f : Source)
    → length f.name < 64
    → ((j : ℕ) → j < 76 → m' (b + j) ≡ m (a + j))
    → IsHeaderOf m a off f
    → IsHeaderOf m' b off f
IsHeaderOf-kept m m' a b off f short same v = record {
  text =
      HoldsText-moved f.name m m' (a + 1) (b + 1) (shifted 1 (length f.name + 1) (omega arith))
        v.text;
  offset = load32-moved m m' (a + 68) (b + 68) (shifted 68 4 (omega arith)) ∙ v.offset;
  size = load32-moved m m' (a + 72) (b + 72) (shifted 72 4 (omega arith)) ∙ v.size;
}
  where
    shifted : (d n : ℕ) → d + n ≤ 76 → (k : ℕ) → k < n → m' (b + d + k) ≡ m (a + d + k)
    shifted d n le k lt =
        let e : b + (d + k) ≡ b + d + k = omega arith in
        let e' : a + (d + k) ≡ a + d + k = omega arith in rw (e, e') at (same (d + k) (omega arith))

put_text_outside :
    (m : Memory) (a j : ℕ) (cs : List ℕ) → Apart a (length cs + 1) j 1 → put_text m a cs j ≡ m j
unfolding put_text
put_text_outside m a j [] h = store8_outside m a 0 j (omega arith)
put_text_outside m a j (c ∷ cs) h =
    put_text_outside (store8 m a c) (a + 1) j cs (omega arith)
    ∙ store8_outside m a c j (omega arith)

put_text-HoldsText :
    (m : Memory) (a : ℕ) (cs : List ℕ) → NoZero cs → HoldsText (put_text m a cs) a cs
unfolding put_text HoldsText NoZero
put_text-HoldsText m a [] h = store8_self m a 0
put_text-HoldsText m a (c ∷ cs) h = (
  put_text_outside (store8 m a c) (a + 1) a cs (inr (omega arith)) ∙ store8_self m a c,
  h.0,
  put_text-HoldsText (store8 m a c) (a + 1) cs h.1,
)

put_header_outside :
    (m : Memory) (i off len j : ℕ) (name : List ℕ)
    → length name < 64
    → Apart (76 * i) 76 j 1
    → put_header m i off len name j ≡ m j
unfolding put_header
put_header_outside m i off len j name short h =
    store8_outside _ (76 * i) 0xBF j (omega arith)
    ∙ store32_outside _ (76 * i + 72) len j (omega arith)
    ∙ store32_outside _ (76 * i + 68) off j (omega arith)
    ∙ put_text_outside m (76 * i + 1) j name (omega arith)

put_header-IsHeaderOf :
    (m : Memory) (i off : ℕ) (f : Source)
    → length f.name < 64
    → NoZero f.name
    → off + length f.bytes < 2 ^ 32
    → IsHeaderOf (put_header m i off (length f.bytes) f.name) (76 * i) off f
unfolding put_header
put_header-IsHeaderOf m i off f short text low = record {
  text =
      HoldsText-kept f.name (put_text m (76 * i + 1) f.name) _ (76 * i + 1)
        (put_text-HoldsText m (76 * i + 1) f.name text)
        (λ j p q.
          store8_outside _ (76 * i) 0xBF j (omega arith)
          ∙ store32_outside _ (76 * i + 72) (length f.bytes) j (omega arith)
          ∙ store32_outside _ (76 * i + 68) off j (omega arith));
  offset =
      load32-store8-Apart _ (76 * i) 0xBF (76 * i + 68) (inl (omega arith))
      ∙ load32-store32-Apart _ (76 * i + 72) (length f.bytes) (76 * i + 68) (inr (omega arith))
      ∙ load32-store32_self _ (76 * i + 68) off (omega arith);
  size =
      load32-store8-Apart _ (76 * i) 0xBF (76 * i + 72) (inl (omega arith))
      ∙ load32-store32_self _ (76 * i + 72) (length f.bytes) (omega arith);
}

make_headers_step :
    (fopen : List ℕ → Option (List ℕ)) (f : Source) (args : List Argument) (i off : ℕ) (m : Memory)
    → fopen f.path ≡ some f.bytes
    → off + length f.bytes < 2 ^ 32
    → make_headers fopen (argument f ∷ args) i off m
      ≡ make_headers fopen args
          (i + 1)
          (off + length f.bytes)
          (put_header m i off (length f.bytes) f.name)
unfolding make_headers
make_headers_step fopen f args i off m found low =
    let next : (off + length f.bytes) % 2 ^ 32 ≡ off + length f.bytes = omega arith in
    rw (make_headers, found) (rw next refl)

-- The first loop finds every file and makes its header, and changes no header before the first.
pub make_headers-HaveHeaders :
    (fopen : List ℕ → Option (List ℕ)) (fs : List Source) (i off : ℕ) (m : Memory)
    → AreSources fopen fs
    → off + total_bytes fs < 2 ^ 32
    → (m' : Memory) × (make_headers fopen (arguments fs) i off m ≡ some (m', off + total_bytes fs))
      × HaveHeaders m' (76 * i) off fs
      × ((j : ℕ) → j < 76 * i → m' j ≡ m j)
unfolding make_headers total_bytes
make_headers-HaveHeaders fopen [] i off m v low =
    (m, ap (λ o. some (m, o)) (omega arith), tt, (λ j p. refl))
make_headers-HaveHeaders fopen (f ∷ fs) i off m (v, vs) low =
    let n = length f.bytes in
    let sum : off + n + total_bytes fs ≡ off + (n + total_bytes fs) = omega arith in
    let m1 = put_header m i off n f.name in
    let (m', run, headers, same) =
      make_headers-HaveHeaders fopen fs (i + 1) (off + n) m1 vs (omega arith) in
    let own = put_header-IsHeaderOf m i off f v.short v.text (omega arith) in
    let at : 76 * (i + 1) ≡ 76 * i + 76 = omega arith in
    (
      m',
      make_headers_step fopen f (arguments fs) i off m v.found (omega arith)
          ∙ run
          ∙ ap (λ o. some (m', o)) sum,
      (
        IsHeaderOf-kept m1 m' (76 * i) (76 * i) off f v.short
            (λ j p. same (76 * i + j) (omega arith)) own,
        rw at at headers,
      ),
      (λ j p.
          same j (omega arith) ∙ put_header_outside m i off n j f.name v.short (inr (omega arith))),
    )
