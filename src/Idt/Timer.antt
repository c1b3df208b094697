-- ===== src/Idt/Timer.antt =====
-- The gates of the interrupt lines, and the timer's.
use finux.Prelude.{
  ℕ, ◌+◌, ◌-◌, ◌^◌, ◌<◌, ◌≡◌, ◌≢◌, ltb, lt→ltb, ==_iff, Bool-cases, inl, inr, true, bit_and,
  if◌then◌else◌, arith, refl, ◌∙◌,
}
use finux.Prelude.Bits.{u8, ◌<<<◌}
use finux.Prelude.Table.{all_below, all_below_sound}
use finux.Desc.{kernel_cs}
use finux.Desc.Fields.{read_gate, set_gate-read_gate}
use finux.Pic.{Ports, master_8259a_imr, slave_8259a_imr, enable_irq}
use finux.Pic.Mask.{ReadsMasks, masked}
use finux.Pic.Irq.{Masks, enable_irq-Masks, enable_irq-masked, new_master}
use finux.Idt.{Handlers, IdtState, set_intr_gate, init_timer}
use finux.Idt.Vectors.{kernel_gate}

line0_table : all_below 256 (λ m. ltb (bit_and (255 - u8 (1 <<< 0)) m) 256) ≡ true
unfolding all_below
line0_table = refl

line0-lt : (m : ℕ) → m < 256 → bit_and (255 - u8 (1 <<< 0)) m < 256
line0-lt m h =
    ground
      (arith, all_below_sound 256 (λ m. ltb (bit_and (255 - u8 (1 <<< 0)) m) 256) m line0_table)

module _ (ports : Ports) (reads : ReadsMasks ports) where
  open reads use {imr}

  -- `set_intr_gate` of a line below 16, other than 2 and 8, with a 32-bit handler address: the
  -- vector 0x30 above the line leads to the handler, the line is let through, and no other gate
  -- moves. The controllers are set up, with byte masks.
  pub set_intr_gate-Gate :
      (irq handler m l : ℕ) (s : IdtState ports)
      → Masks ports reads s.cpu.device m l
      → m < 256
      → l < 256
      → irq < 16
      → irq ≢ 2
      → irq ≢ 8
      → handler < 2 ^ 32
      → let s' = set_intr_gate ports irq handler s in
        (read_gate (s'.idt (irq + 0x30)) ≡ kernel_gate 0xe handler)
        × (masked
              (if ltb irq 8 then irq else irq - 8)
              (imr (if ltb irq 8 then master_8259a_imr else slave_8259a_imr) s'.cpu.device)
            ≡ 0)
        × ((n : ℕ) → n ≢ irq + 0x30 → s'.idt n ≡ s.idt n)
  unfolding set_intr_gate
  set_intr_gate-Gate irq handler m l s masks hm hl hirq not2 not8 word = (
    rw ((==_iff (irq + 0x30) (irq + 0x30)).1 refl)
        (set_gate-read_gate 0xe handler 0 kernel_cs (omega arith) word (omega arith) (omega arith)),
    elim (Bool-cases (ltb irq 8)) [
      | inl low ↦
          let (on_master, on_slave) =
            enable_irq-masked ports reads irq m l irq s.cpu masks hm hl hirq not2 not8
              (ground arith) in
          rw low (on_master ∙ rw (low, (==_iff irq irq).1 refl))
      | inr high ↦
          let (on_master, on_slave) =
            enable_irq-masked ports reads irq m l (irq - 8) s.cpu masks hm hl hirq not2 not8
              (omega arith) in
          rw high (on_slave ∙ rw (lt→ltb 8 irq (ground arith), (==_iff (irq - 8) (irq - 8)).1 refl))
    ],
    λ n other. ground arith,
  )

  -- `init_timer` leaves the timer's handler in slot 0 of `interrupt`, the gate of `irq00_handler`
  -- at vector 0x30, and line 0 let through. The controllers are set up, with byte masks, and the
  -- address of `irq00_handler` has 32 bits.
  pub init_timer-Gate :
      (handlers : Handlers) (m l : ℕ) (s : IdtState ports)
      → Masks ports reads s.cpu.device m l
      → m < 256
      → l < 256
      → handlers.irq00_handler < 2 ^ 32
      → let s' = init_timer ports handlers s in
        (s'.interrupt 0 ≡ handlers.timer_address)
        × (read_gate (s'.idt 0x30) ≡ kernel_gate 0xe handlers.irq00_handler)
        × (masked 0 (imr master_8259a_imr s'.cpu.device) ≡ 0)
  unfolding init_timer set_intr_gate
  init_timer-Gate handlers m l s masks hm hl word =
      let first = enable_irq-Masks ports reads 0 m l s.cpu masks in
      (
        refl,
        set_gate-read_gate 0xe handlers.irq00_handler 0 kernel_cs (omega arith) word (omega arith)
            (omega arith),
        (enable_irq-masked ports reads 0 (new_master ports reads 0 m) l 0 (enable_irq ports 0 s.cpu)
            first (line0-lt m hm) hl (omega arith) (omega arith) (omega arith) (omega arith)).0,
      )
