-- ===== src/Disk/Setup/Line.antt =====
-- The disk's line after `init_hd`.
use finux.Prelude.{ℕ, ◌-◌, ◌^◌, ◌<◌, ◌≡◌, ◌≢◌, ltb, arith, refl, bit_and, true}
use finux.Prelude.Bits.{u8, ◌<<<◌}
use finux.Prelude.Table.{all_below, all_below_sound}
use finux.Desc.Fields.{read_gate, set_gate-read_gate}
use finux.Pic.{Ports, slave_8259a_imr, enable_irq}
use finux.Pic.Mask.{ReadsMasks, masked}
use finux.Pic.Irq.{Masks, enable_irq-Masks, enable_irq-masked, new_master, new_slave}
use finux.Idt.{IdtState}
use finux.Idt.Vectors.{kernel_gate}
use finux.Disk.Setup.{boot_intr_gate, init_hd}

-- A cleared bit leaves a byte.
byte_table : all_below 256 (λ m. ltb (bit_and (255 - u8 (1 <<< 2)) m) 256) ≡ true
unfolding all_below
byte_table = refl

byte_table6 : all_below 256 (λ m. ltb (bit_and (255 - u8 (1 <<< 6)) m) 256) ≡ true
unfolding all_below
byte_table6 = refl

module _ (ports : Ports) (reads : ReadsMasks ports) where
  open reads use {imr}

  -- `init_hd` leaves the disk's handler in slot 14 of `interrupt`, the gate of `irq14_handler` at
  -- vector 0x3e, line 14 let through, and the other gates and slots as they were. The controllers
  -- are set up, with byte masks, and the address of `irq14_handler` has 32 bits.
  pub init_hd-Gate :
      (hd_handler_at irq14_handler m l : ℕ) (s : IdtState ports)
      → Masks ports reads s.cpu.device m l
      → m < 256
      → l < 256
      → irq14_handler < 2 ^ 32
      → let s' = init_hd ports hd_handler_at irq14_handler s in
        (s'.interrupt 14 ≡ hd_handler_at)
        × (read_gate (s'.idt 0x3e) ≡ record (kernel_gate 0xe irq14_handler) { selector = 8 })
        × (masked 6 (imr slave_8259a_imr s'.cpu.device) ≡ 0)
        × ((n : ℕ) → n ≢ 0x3e → s'.idt n ≡ s.idt n)
        × ((n : ℕ) → n ≢ 14 → s'.interrupt n ≡ s.interrupt n)
  unfolding init_hd boot_intr_gate
  init_hd-Gate hd_handler_at irq14_handler m l s masks hm hl word =
      let first = enable_irq-Masks ports reads 14 m l s.cpu masks in
      let m_byte : bit_and (255 - u8 (1 <<< 2)) m < 256 =
        ground (
          arith,
          all_below_sound 256 (λ m. ltb (bit_and (255 - u8 (1 <<< 2)) m) 256) m byte_table,
        ) in
      let l_byte : bit_and (255 - u8 (1 <<< 6)) l < 256 = ground (
        arith,
        all_below_sound 256 (λ m. ltb (bit_and (255 - u8 (1 <<< 6)) m) 256) l byte_table6,
      ) in
      (
        refl,
        set_gate-read_gate 0xe irq14_handler 0 8 (omega arith) word (omega arith) (omega arith),
        (enable_irq-masked ports reads 14 (new_master ports reads 14 m) (new_slave ports reads 14 l)
            6 (enable_irq ports 14 s.cpu) first m_byte l_byte (omega arith) (omega arith)
            (omega arith) (omega arith)).1,
        λ n other. ground arith,
        λ n other. ground arith,
      )
