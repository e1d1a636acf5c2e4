-- ===== src/Interrupts.antt =====
-- hal/x86/interrupts/isr.c: the tables of interrupt handlers, registration and dispatch.
pub mod Flags
pub mod Register
pub mod Clear
pub mod Report
pub mod Dispatch
mod Tests
use jslk.Base.{
  ℕ, zero, suc, ◌+◌, ◌-◌, ◌%◌, Bool, true, false, not, ◌&&◌, ◌||◌, List, [], ◌∷◌, ltb, leb, ◌==◌,
  if◌then◌else◌, write,
}

-- `hiInterrupt_t`. A handler is its address; NULL is 0.
pub record HiInterrupt : Type 0 where
  pub initialized : Bool
  pub has_handler : Bool
  pub handler : ℕ
  pub is_chained : Bool
  pub chain_protect : Bool

-- `chainedInterrupt_t` but for `handlers`: see `Tables`.
pub record ChainedInterrupt : Type 0 where
  pub initialized : Bool
  pub total_handlers : ℕ
  pub free_protect : Bool
  pub chain_lock : Bool

-- The file's statics. `hi` and `chained` are the memory from the two arrays on, by index: both
-- arrays have TOTAL_INTERRUPTS = 47 entries, so index 47 belongs to what stands behind them. The
-- pointers `chainedInterrupts[n].handlers` start as NULL, as all statics do, and the code assigns
-- nothing but NULL to them. So every chain reads and writes the words from address 0 on:
-- `null_cells`. `enabled` is the processor's interrupt flag.
pub record Tables : Type 0 where
  pub hi : ℕ → HiInterrupt
  pub chained : ℕ → ChainedInterrupt
  pub null_cells : ℕ → ℕ
  pub enabled : Bool

abbrev pub total_interrupts : ℕ
total_interrupts = 47

-- `atomicalStart` and `atomicalRelease` of hal/x86/atomical.c: `cli` and `sti`.
unfoldable pub atomical_start : Tables → Tables
atomical_start t = record t { enabled = false }

unfoldable pub atomical_release : Tables → Tables
atomical_release t = record t { enabled = true }

-- The local variables of `registerInterruptHandler` that the flags set. They have no initial value.
pub record Locals : Type 0 where
  pub is_chained : Bool
  pub chain_protect : Bool
  pub free_protect : Bool
  pub chain_lock : Bool

-- The `switch`.
unfoldable pub set_flag : ℕ → Locals → Locals
set_flag flag l =
    if flag == 1
    then record l { is_chained = true }
    else if flag == 2
    then record l { chain_protect = true }
    else if flag == 3
    then record l { free_protect = true }
    else if flag == 4
    then record l { chain_lock = true }
    else l

-- The `while`, from round `i` on. `args i` is the word that `va_arg` reads in round `i`: behind the
-- caller's arguments it is what stands on the stack. The count ends the loop after six rounds.
unfoldable pub read_flags : (rounds : ℕ) → (args : ℕ → ℕ) → ℕ → Locals → Locals
unfolding set_flag
read_flags zero args i l = l
read_flags (suc n) args i l =
    let l' = set_flag (args i) l in
    let rest = read_flags n args (i + 1) l' in
    if ltb 5 (i + 1) then l' else if args i == 5 then l' else rest

-- The branch for a chained interrupt, its checks passed.
unfoldable pub add_to_chain : Locals → Tables → (num handler : ℕ) → Tables
add_to_chain l t num handler =
    let h = t.hi num in
    let c = t.chained num in
    let hi' = write t.hi num (record h { has_handler = true; is_chained = true }) in
    let cells = if h.initialized then write t.null_cells 0 h.handler else t.null_cells in
    let total : ℕ =
      if h.initialized then 1 else if c.initialized then (c.total_handlers + 1) % 256 else 0 in
    record t {
      hi = hi';
      chained = write t.chained num (record {
        initialized = true;
        total_handlers = total;
        free_protect = l.free_protect || c.free_protect;
        chain_lock = l.chain_lock || c.chain_lock;
      });
      null_cells = write cells total handler;
    }

-- The other branch, its check passed. `if (chainProtect = true)` is an assignment, and always
-- holds.
unfoldable pub set_handler : Tables → (num handler : ℕ) → Tables
set_handler t num handler = record t {
  hi = write t.hi num (record {
    initialized = true;
    has_handler = true;
    handler = handler;
    is_chained = false;
    chain_protect = true;
  });
}

-- What `registerInterruptHandler` does once the flags are read, and the value that it returns.
unfoldable pub register_with : Locals → Tables → (num handler : ℕ) → Tables × ℕ
unfolding atomical_release
register_with l t num handler =
    let h = t.hi num in
    if l.is_chained
    then (if h.has_handler && (not h.is_chained && h.chain_protect)
        then (atomical_release t, 1)
        else if h.chain_protect || (t.chained num).chain_lock
        then (atomical_release t, 1)
        else (atomical_release (add_to_chain l t num handler), 0))
    else if h.has_handler || h.is_chained
    then (atomical_release t, 1)
    else (atomical_release (set_handler t num handler), 0)

-- `stack` is what the local variables hold at the start.
unfoldable pub register_interrupt_handler :
    (stack : Locals) → Tables → (num handler : ℕ) → (args : ℕ → ℕ) → Tables × ℕ
unfolding atomical_start atomical_release
register_interrupt_handler stack t num handler args =
    let t' = atomical_start t in
    if ltb total_interrupts num
    then (atomical_release t', 1)
    else register_with (read_flags 6 args 0 stack) t' num handler

-- `while (totalHandlers)`: the cells of the chain become NULL, the last one first.
unfoldable pub clear_cells : ℕ → (ℕ → ℕ) → ℕ → ℕ
clear_cells zero cells = cells
clear_cells (suc n) cells = clear_cells n (write cells (suc n) 0)

unfoldable pub clear_chained_interrupt : Tables → ℕ → Tables × ℕ
unfolding clear_cells atomical_release
clear_chained_interrupt t num =
    let h = t.hi num in
    let c = t.chained num in
    if c.free_protect then (t, 1) else (
      atomical_release (record t {
        hi =
            write t.hi num
              (record h { has_handler = false; is_chained = false; chain_protect = false });
        chained = write t.chained num (record c { initialized = false; total_handlers = 0 });
        null_cells = clear_cells c.total_handlers t.null_cells;
      }),
      0,
    )

-- The end of `clearInterrupt`.
unfoldable pub drop_handler : Tables → ℕ → Tables
unfolding atomical_release
drop_handler t num =
    atomical_release
      (record t { hi = write t.hi num (record (t.hi num) { has_handler = false; handler = 0 }) })

-- The result of `clearChainedInterrupt` is not looked at.
unfoldable pub clear_interrupt : Tables → ℕ → Tables × ℕ
unfolding drop_handler clear_chained_interrupt
clear_interrupt t num =
    if (t.hi num).is_chained
    then (drop_handler (clear_chained_interrupt t num).0 num, 0)
    else if not (t.hi num).has_handler
    then (t, 0)
    else (drop_handler t num, 0)

-- The loop of `findFreeInterrupt`, with `n` rounds left: `uint8_t i` from `i` on.
unfoldable pub find_free_from : Tables → (n i : ℕ) → ℕ
find_free_from t zero i = 0
find_free_from t (suc n) i =
    let rest = find_free_from t n (i + 1) in if not (t.hi i).has_handler then i else rest

unfoldable pub find_free_interrupt : Tables → Tables × ℕ
unfolding find_free_from atomical_start atomical_release
find_free_interrupt t =
    (atomical_release (atomical_start t), find_free_from t (total_interrupts - 48) 48)
