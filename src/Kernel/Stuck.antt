-- ===== src/Kernel/Stuck.antt =====
-- `open` of a file of a volume that cannot be read.
use jslk.Base.{ℕ, zero, suc, refl, sym, ap, true, arith, ltb, lt→ltb, ◌+◌, ◌^◌, ◌<◌, ◌≡◌, ◌∙◌, ◌≢◌}
use jslk.Base.Memory.{load32}
use jslk.Base.Outcome.{Outcome, done, panic, no_fuel, ◌>>=◌}
use jslk.Console.{u32}
use jslk.Initrd.{Initrd, file_volume_at, volume_read_at}
use jslk.Initrd.Vfs.{read_fs}
use jslk.Keyboard.{Keyboard}
use jslk.Kernel.{Kernel, Arrivals, print, enter_text, put_chars, wait_enter, open_loop}

bind_ne_done :
    {A B : Type 0} (m : Outcome A) (g : A → Outcome B) (r : B)
    → ((a : A) → g a ≢ done r)
    → (m >>= g) ≢ done r
bind_ne_done (done a) g r h = h a
bind_ne_done panic g r h = λ d. cc d
bind_ne_done no_fuel g r h = λ d. cc d

module _ (rounds inbuf : ℕ) (reader : (f node offset size buffer : ℕ) → Initrd → ℕ × Initrd)
    (finder : (f node argument : ℕ) → Initrd → Outcome (ℕ × Initrd)) (node buf len : ℕ) where
  read_fs-none :
      (off : ℕ) (s : Initrd)
      → load32 s.memory (volume_read_at (load32 s.memory (file_volume_at node))) ≡ 0
      → read_fs reader node off 256 buf s ≡ (0, s)
  unfolding read_fs
  read_fs-none off s e = rw e refl

  -- The loop of `open` on a file that is not empty, of a volume that has no function to read with,
  -- returns in no number of rounds, whatever arrives from the keyboard: a read of no bytes does not
  -- bring it nearer to the end.
  pub open_loop_stuck :
      (n off : ℕ) (arrivals : Arrivals) (s : Kernel) (r : Arrivals × Kernel)
      → load32 s.initrd.memory (volume_read_at (load32 s.initrd.memory (file_volume_at node))) ≡ 0
      → off < len
      → len < 2 ^ 32
      → open_loop rounds inbuf reader finder n node buf len off arrivals s ≢ done r
  unfolding open_loop
  open_loop_stuck zero off arrivals s r e lt low = λ d. cc d
  open_loop_stuck (suc n) off arrivals s r e lt low =
      let more : ltb off len ≡ true = lt→ltb off len lt in
      let same : u32 (off + 0) ≡ off = omega arith in
      let rest : Arrivals × Keyboard → Outcome (Arrivals × Kernel) = λ p.
        open_loop rounds inbuf reader finder n node buf len (u32 (off + 0)) p.0
          (record s { keyboard = p.1 }) in
      let shown =
        print enter_text (record (s.keyboard) {
          console = put_chars s.initrd.memory buf 0 0 s.keyboard.console;
        }) in
      rw (open_loop, more)
        (rw (read_fs-none off s.initrd e) (
          bind_ne_done (wait_enter rounds inbuf arrivals shown) rest r λ p d.
            open_loop_stuck n off p.0 (record s { keyboard = p.1 }) r e lt low
              (ap
                  (λ o.
                    open_loop rounds inbuf reader finder n node buf len o p.0
                      (record s { keyboard = p.1 }))
                  (sym same)
                ∙ d)))
