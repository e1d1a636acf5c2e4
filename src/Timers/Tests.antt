-- ===== src/Timers/Tests.antt =====
-- The theorems at two timers of which one is due.
use jslk.Base.{ℕ, true, false, List, [], arith, leb, ◌+◌, ◌*◌, ◌≡◌, ◌∷◌}
use jslk.Base.Outcome.{done}
use jslk.Timers.Fire.{act_all, quiet, check_timers_once}
use jslk.Interrupts.{Locals}
use jslk.Interrupts.Dispatch.{Machine}
use jslk.Timers.{Clock, check_timers}

-- The listeners that were called, the latest first.
abbrev note : ℕ → List ℕ → List ℕ
note h m = h ∷ m

-- Times are ticks: the first timer is at 50, the second at 200, and it is 100.
abbrev two : Clock ℕ (List ℕ)
two = record {
  total_timers = 2;
  sys_timers = λ i. record { timer = 50 + 150 * i; listener = 0x1000 + i; timer_status = 0 };
  sys_ticks = 100;
  machine = [];
}

check_timers_once_example :
    (s' : Clock ℕ (List ℕ)) × (check_timers leb (quiet leb note) 10 two ≡ done s')
    × (s'.machine ≡ 0x1000 ∷ [])
    × ((s'' : Clock ℕ (List ℕ)) × (check_timers leb (quiet leb note) 10 s' ≡ done s'')
        × (s''.machine ≡ s'.machine))
unfolding act_all
check_timers_once_example = check_timers_once leb note 10 two (omega arith)

abbrev plain_machine : Machine
plain_machine = record {
  tables = record {
    hi = λ i. record {
      initialized = false;
      has_handler = false;
      handler = 0;
      is_chained = false;
      chain_protect = false;
    };
    chained = λ i. record {
      initialized = false;
      total_handlers = 0;
      free_protect = false;
      chain_lock = false;
    };
    null_cells = λ i. 0;
    enabled = true;
  };
  descriptions = λ i. [];
  console = record {
    cursorx = 0;
    cursory = 0;
    console_color = 7;
    clear_calls = 0;
    terminal_buffer = λ i. 0;
    ports = [];
  };
  ports = [];
}

abbrev no_flags : Locals
no_flags = record {
  is_chained = false;
  chain_protect = false;
  free_protect = false;
  chain_lock = false;
}
