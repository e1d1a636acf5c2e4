-- ===== src/Interrupts/Clear.antt =====
-- `clearInterrupt`, `clearChainedInterrupt` and `findFreeInterrupt`.
use jslk.Base.{
  ◌==◌, ℕ, zero, suc, ◌≡◌, refl, true, false, ◌&&◌, arith, ltb, leb, if◌then◌else◌, write,
}
use jslk.Interrupts.{
  Tables, clear_cells, clear_chained_interrupt, drop_handler, clear_interrupt, find_free_interrupt,
}

clear_cells_cell :
    (n j : ℕ) (cells : ℕ → ℕ) → clear_cells n cells j ≡ (if ltb 0 j && leb j n then 0 else cells j)
unfolding clear_cells
clear_cells_cell zero j cells = ground arith
clear_cells_cell (suc n) j cells = ground (arith, clear_cells_cell n j (write cells (suc n) 0))

-- `clearInterrupt` returns 0 and leaves the interrupt without a handler in every case, the case of
-- a chain that was registered with FREE_PROTECT included. It changes the entry of no other
-- interrupt.
pub clear_interrupt_frees :
    (t : Tables) (num : ℕ)
    → let (t', code) = clear_interrupt t num in
      (code ≡ 0)
      × ((t'.hi num).has_handler ≡ false)
      × ((j : ℕ) → t'.hi j ≡ (if j == num then t'.hi num else t.hi j))
unfolding clear_interrupt drop_handler clear_chained_interrupt
clear_interrupt_frees t num = (ground arith, ground arith, λ j. ground arith)

-- `clearChainedInterrupt` refuses a protected chain with 1 and changes nothing, but
-- `clearInterrupt` goes on: the chain loses its handler flag and the call returns 0, with the
-- chain's own entry and cells as they were.
pub clear_protected :
    (t : Tables) (num : ℕ)
    → (t.chained num).free_protect ≡ true
    → (t.hi num).is_chained ≡ true
    → (clear_chained_interrupt t num ≡ (t, 1))
      × let (t', code) = clear_interrupt t num in
        (code ≡ 0)
        × ((t'.hi num).has_handler ≡ false)
        × (t'.chained ≡ t.chained)
        × (t'.null_cells ≡ t.null_cells)
unfolding clear_interrupt drop_handler clear_chained_interrupt
clear_protected t num kept chained = rw (chained, kept) (refl, (refl, ground arith, refl, refl))

-- `clearChainedInterrupt` empties a chain that is not protected: the entry is free, unchained and
-- unprotected, the chain counts no handlers, and of its cells all but the first, which it leaves
-- alone, are NULL.
pub clear_chained_lem :
    (t : Tables) (num : ℕ)
    → (t.chained num).free_protect ≡ false
    → let (t', code) = clear_chained_interrupt t num in
      (code ≡ 0)
      × ((t'.hi num).has_handler ≡ false)
      × ((t'.hi num).is_chained ≡ false)
      × ((t'.hi num).chain_protect ≡ false)
      × ((t'.chained num).initialized ≡ false)
      × ((t'.chained num).total_handlers ≡ 0)
      × ((j : ℕ)
          → t'.null_cells j
            ≡ (if ltb 0 j && leb j (t.chained num).total_handlers then 0 else t.null_cells j))
unfolding clear_chained_interrupt
clear_chained_lem t num open_chain = rw open_chain (
  refl,
  ground arith,
  ground arith,
  ground arith,
  ground arith,
  ground arith,
  λ j. clear_cells_cell (t.chained num).total_handlers j t.null_cells,
)

-- `findFreeInterrupt` starts at 48 and stops below 47, so it looks at nothing: it returns 0, the
-- answer for a full table, whatever the table holds, and enables interrupts.
pub find_free_interrupt-zero :
    (t : Tables)
    → let (t', num) = find_free_interrupt t in (num ≡ 0) × (t'.enabled ≡ true) × (t'.hi ≡ t.hi)
unfolding find_free_interrupt
find_free_interrupt-zero t = (refl, refl, refl)
