-- ===== src/Boot/Ticks.antt =====
-- What the timer interrupts of the loader show.
use finux.Prelude.{ℕ, zero, suc, ◌+◌, ◌%◌, ◌<◌, ◌≡◌, ◌≢◌, refl, ◌∙◌, arith, ◌==◌, if◌then◌else◌}
use finux.Prelude.Bits.{u8}
use finux.Display.{Screen}
use finux.Pic.{Ports, Cpu}
use finux.Pic.Mask.{ReadsMasks, masked}
use finux.Pic.Irq.{Masks}
use finux.Boot.{Ticking, enter_irq, interrupt_master, irq00_handler, boot_timer_handler}
use finux.Boot.Master.{Ends, KeepsMasks, interrupt_master-Handled}

-- The letter on the screen's last line, and its colour.
abbrev pub Shows : ℕ → ℕ → Screen → Type 0
Shows letter color screen = (screen 3840 ≡ letter) × (screen 3841 ≡ color)

next_tick :
    (n ticks : ℕ)
    → ticks ≡ 0x42 + n % 57
    → (u8 (if ticks == 0x7a then 0x41 else ticks) ≡ 0x41 + suc n % 57)
      × (u8 ((if ticks == 0x7a then 0x41 else ticks) + 1) ≡ 0x42 + suc n % 57)
next_tick n ticks e = ground arith

-- What `n + 1` calls of the handler make of its state.
pub record Ticked (n : ℕ) (t after : Ticking) : Type 0 where
  pub shows : Shows (0x41 + n % 57) 0xc after.screen
  pub ticks : after.ticks ≡ 0x42 + n % 57
  pub others : (p : ℕ) → p ≢ 3840 → p ≢ 3841 → after.screen p ≡ t.screen p

module _ (ports : Ports) where
  timer_handler-Ticked_first :
      (t : Ticking) (c : Cpu ports) → t.ticks ≡ 0x41 → Ticked 0 t (boot_timer_handler ports t c).0
  unfolding boot_timer_handler
  timer_handler-Ticked_first t c start =
      rw start (record { shows = (refl, refl); ticks = refl; others = λ p h h'. ground arith })

  timer_handler-Ticked :
      (n : ℕ) (t before : Ticking) (c : Cpu ports)
      → Ticked n t before
      → Ticked (suc n) t (boot_timer_handler ports before c).0
  unfolding boot_timer_handler
  timer_handler-Ticked n t before c ticked =
      let (shown, next) = next_tick n before.ticks ticked.ticks in
      record {
        shows = (shown, refl);
        ticks = next;
        others = λ p h h'. ground (arith, ticked.others p);
      }

  module _ (reads : ReadsMasks ports) (ends : Ends ports reads)
      (call : ℕ → Ticking → Cpu ports → Ticking × Cpu ports) (interrupt : ℕ → ℕ) where
    -- So many interrupts of the timer, one after the other.
    unfoldable pub interrupts_of_timer : ℕ → Ticking → Cpu ports → Ticking × Cpu ports
    interrupts_of_timer zero t c = (t, c)
    interrupts_of_timer (suc n) t c =
        let (t1, c1) = interrupts_of_timer n t c in irq00_handler ports call interrupt t1 c1

    -- The slot of line 0 leads to `boot_timer_handler`.
    abbrev pub Leads : Type 0
    Leads = (t : Ticking) (c : Cpu ports) → call (interrupt 0) t c ≡ boot_timer_handler ports t c

    timer-KeepsMasks : Leads → KeepsMasks ports reads ends call interrupt (interrupt 0)
    unfolding boot_timer_handler
    timer-KeepsMasks leads n l t c masks =
        let (ready, kept) = ends.ends c.device masks.ready in
        rw (leads t c) (record {
          ready = ready;
          on_master = kept 0x21 ∙ masks.on_master;
          on_slave = kept 0xa1 ∙ masks.on_slave;
        })

    -- One interrupt: the handler on the state, and the masks as before.
    one_interrupt :
        (m l : ℕ) (t : Ticking) (c : Cpu ports)
        → Leads
        → Masks ports reads c.device m l
        → m < 256
        → masked 0 m ≡ 0
        → let after = irq00_handler ports call interrupt t c in
          (after.0 ≡ (boot_timer_handler ports t (enter_irq ports 0 c)).0)
          × Masks ports reads after.1.device m l
    unfolding irq00_handler interrupt_master
    one_interrupt m l t c leads masks byte through =
        let (handled, on) =
          interrupt_master-Handled ports reads ends call interrupt 0 m l t c masks byte
            (omega arith) through (timer-KeepsMasks leads) in
        (rw (leads t (enter_irq ports 0 c)) refl, handled.restored)

    -- Let slot 0 lead to `boot_timer_handler`, `ticks` be 'A', and the controllers be set up with line 0
    -- let through. After n + 1 interrupts the screen shows, in light red, the letter n % 57 places
    -- behind 'A', which is never 'z', `ticks` is the one behind it, no other cell of the screen has
    -- changed, and both masks are what they were.
    pub interrupts_of_timer-Ticked :
        (n m l : ℕ) (t : Ticking) (c : Cpu ports)
        → Leads
        → t.ticks ≡ 0x41
        → Masks ports reads c.device m l
        → m < 256
        → masked 0 m ≡ 0
        → let after = interrupts_of_timer (suc n) t c in
          Ticked n t after.0 × Masks ports reads after.1.device m l
    unfolding interrupts_of_timer
    interrupts_of_timer-Ticked zero m l t c leads start masks byte through =
        let (same, after) = one_interrupt m l t c leads masks byte through in
        (rw same (timer_handler-Ticked_first t (enter_irq ports 0 c) start), after)
    interrupts_of_timer-Ticked (suc n) m l t c leads start masks byte through =
        let (ticked, masks1) =
          interrupts_of_timer-Ticked n m l t c leads start masks byte through in
        let (t1, c1) = interrupts_of_timer (suc n) t c in
        let (same, after) = one_interrupt m l t1 c1 leads masks1 byte through in
        (rw same (timer_handler-Ticked n t t1 (enter_irq ports 0 c1) ticked), after)
