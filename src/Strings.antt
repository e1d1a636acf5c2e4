-- ===== src/Strings.antt =====
-- lib/jstdclib/string.c: strings that end in a zero byte, and blocks of memory.
pub mod Append
pub mod Blocks
pub mod Compare
pub mod Numerals
mod Tests
use jslk.Base.{
  ℕ, zero, suc, min, max, bit_and, bit_or, refl, sym, ap, fun_ext, inl, inr, Bool, true, false, not,
  Option, none, some, List, [], map, arith, ltb, leb, ltb→lt, ltb→le, lt→ltb, le→ltb, ==→eq, ==→ne,
  eq→==, ne→==, Bool-cases, tests, write, write_self, write_ne, length, get_or, length-append, ◌+◌,
  ◌-◌, ◌*◌, ◌/◌, ◌%◌, ◌^◌, ◌≤◌, ◌<◌, ◌≡◌, ◌∙◌, ◌≢◌, ◌↔◌, ◌⊎◌, ◌&&◌, ◌||◌, ◌∷◌, ◌++◌, ◌==◌,
  if◌then◌else◌,
}
use jslk.Base.Memory.{Memory, store8}
use jslk.Base.Outcome.{Outcome, done, no_fuel, ◌>>=◌}

-- `strlen`, from the length `len` on.
unfoldable pub strlen_from : (rounds len : ℕ) → Memory → (str : ℕ) → Outcome ℕ
strlen_from zero len m str = no_fuel
strlen_from (suc n) len m str =
    let rest = strlen_from n (len + 1) m str in if m (str + len) == 0 then done len else rest

abbrev pub strlen : (rounds : ℕ) → Memory → (str : ℕ) → Outcome ℕ
strlen rounds m str = strlen_from rounds 0 m str

-- `c` is an `int`, of which each byte takes the low eight bits.
unfoldable pub memset : Memory → (dest c n : ℕ) → Memory
memset m dest c zero = m
memset m dest c (suc n) = memset (store8 m dest (c % 256)) (dest + 1) c n

unfoldable pub memcpy : Memory → (dest src len : ℕ) → Memory
memcpy m dest src zero = m
memcpy m dest src (suc n) = memcpy (store8 m dest (m src)) (dest + 1) (src + 1) n

unfoldable pub append : (rounds : ℕ) → Memory → (str c : ℕ) → Outcome Memory
append rounds m str c =
    strlen rounds m str >>= λ len. done (store8 (store8 m (str + len) c) (str + len + 1) 0)

-- The loop of `strcat`, with `n` bytes left. It reads `src` while it writes `dest`.
unfoldable pub strcat_loop : Memory → (dest src dlen n i : ℕ) → Memory
strcat_loop m dest src dlen zero i = m
strcat_loop m dest src dlen (suc n) i =
    strcat_loop (store8 m (dest + dlen + i) (m (src + i))) dest src dlen n (i + 1)

-- `dest[dlen - 1]` is an address modulo 2^32.
unfoldable pub strcat : (rounds : ℕ) → Memory → (dest src : ℕ) → Outcome Memory
unfolding strcat_loop
strcat rounds m dest src = do
  slen ← strlen rounds m src
  dlen ← strlen rounds m dest
  let m' = strcat_loop m dest src dlen slen 0
  dlen' ← strlen rounds m' dest
  done (store8 m' ((dest + dlen' + 2 ^ 32 - 1) % 2 ^ 32) 0)

-- The result of `strcmp` is the difference of two bytes: they are its value here.
unfoldable pub strcmp : (rounds i : ℕ) → Memory → (s1 s2 : ℕ) → Outcome (ℕ × ℕ)
strcmp zero i m s1 s2 = no_fuel
strcmp (suc n) i m s1 s2 =
    let rest = strcmp n (i + 1) m s1 s2 in
    if m (s1 + i) == m (s2 + i)
    then (if m (s1 + i) == 0 then done (0, 0) else rest)
    else done (m (s1 + i), m (s2 + i))

-- `do { *dest++ = *src++; } while (*src != 0)`
unfoldable pub strcpy : (rounds : ℕ) → Memory → (dest src : ℕ) → Outcome Memory
strcpy zero m dest src = no_fuel
strcpy (suc n) m dest src =
    let m' = store8 m dest (m src) in
    let rest = strcpy n m' (dest + 1) (src + 1) in if m' (src + 1) == 0 then done m' else rest
