-- ===== src/Tasking/Relocate.antt =====
-- Which words of the new stack are moved.
use jslk.Base.{ℕ, ltb, ◌+◌, ◌&&◌, if◌then◌else◌}
use jslk.Paging.{Paging}
use jslk.Heap.{u32}
use jslk.Base.Memory.{Memory, load32, store32}

-- A word, moved by `offset` if it points between `low` and `high`.
unfoldable pub moved : (low high offset word : ℕ) → ℕ
moved low high offset word = if ltb low word && ltb word high then u32 (word + offset) else word

-- One word.
relocate_word : (i low high offset : ℕ) → Memory → Memory
relocate_word i low high offset m =
    if ltb low (load32 m i) && ltb (load32 m i) high
    then store32 m i (u32 (load32 m i + offset))
    else m
