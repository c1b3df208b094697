-- ===== src/Pic.antt =====
-- The interrupt controllers and the timer chip: kernel/8259a/8259a.c, of which boot/8259a.c is a
-- copy, and kernel/8259a/8253.c. The port instructions are a parameter.
pub mod Mask
pub mod Irq
pub mod Setup
use finux.Prelude.{
  ℕ, ◌+◌, ◌-◌, ◌*◌, ◌/◌, ◌^◌, Bool, true, false, not, ◌&&◌, ◌==◌, ltb, if◌then◌else◌, bit_and,
  bit_or,
}
use finux.Prelude.Bits.{u8, ◌<<<◌, ◌>>>◌}

-- What `in`, `out` and the delay of `io_delay` do to a device.
pub record Ports : Type 1 where
  pub State : Type 0
  pub inb : ℕ → State → ℕ × State
  pub outb : ℕ → ℕ → State → State
  pub io_delay : State → State

abbrev pub master_8259a_imr : ℕ
master_8259a_imr = 0x21

abbrev pub slave_8259a_imr : ℕ
slave_8259a_imr = 0xa1

abbrev pub master_8259a_cmd : ℕ
master_8259a_cmd = 0x20

abbrev pub slave_8259a_cmd : ℕ
slave_8259a_cmd = 0xa0

abbrev pub timer_freq : ℕ
timer_freq = 1193182

abbrev pub hz : ℕ
hz = 100

module _ (ports : Ports) where
  open ports use {State, inb, outb, io_delay}

  unfoldable pub outb_pic : ℕ → ℕ → State → State
  outb_pic value port s = io_delay (outb value port s)

  unfoldable pub inb_pic : ℕ → State → ℕ × State
  inb_pic port s = let (value, s1) = inb port s in (value, io_delay s1)

  -- The device, and the interrupt flag.
  pub record Cpu : Type 0 where
    pub device : State
    pub interrupts : Bool

  unfoldable pub init_8259a : State → State
  unfolding outb_pic
  init_8259a s =
      let s1 = outb_pic 0x11 master_8259a_cmd s in
      let s2 = outb_pic 0x11 slave_8259a_cmd s1 in
      let s3 = outb_pic 0x30 master_8259a_imr s2 in
      let s4 = outb_pic 0x38 slave_8259a_imr s3 in
      let s5 = outb_pic 0x4 master_8259a_imr s4 in
      let s6 = outb_pic 0x2 slave_8259a_imr s5 in
      let s7 = outb_pic 0x1 master_8259a_imr s6 in
      let s8 = outb_pic 0x1 slave_8259a_imr s7 in
      let s9 = outb_pic 0xff master_8259a_imr s8 in outb_pic 0xff slave_8259a_imr s9

  -- `~(1 << n) & now`, in 8 bits.
  abbrev pub cleared : ℕ → ℕ → ℕ
  cleared n now = bit_and (255 - u8 (1 <<< n)) now

  -- The first `if` of `enable_irq`.
  unfoldable pub enable_master : (irq master_now : ℕ) → State → State
  enable_master irq master_now s =
      if ltb irq 8 && not (irq == 2)
      then outb_pic (cleared irq master_now) master_8259a_imr s
      else s

  -- The second one.
  unfoldable pub enable_slave : (irq master_now slave_now : ℕ) → State → State
  enable_slave irq master_now slave_now s =
      if ltb 8 irq && ltb irq 16
      then outb_pic (cleared (irq - 8) slave_now) slave_8259a_imr
          (outb_pic (cleared 2 master_now) master_8259a_imr s)
      else s

  -- For a line that is not negative.
  unfoldable pub enable_irq : ℕ → Cpu → Cpu
  enable_irq irq c =
      let (master_now, s1) = inb_pic master_8259a_imr c.device in
      let (slave_now, s2) = inb_pic slave_8259a_imr s1 in
      record {
        device = enable_slave irq master_now slave_now (enable_master irq master_now s2);
        interrupts = true;
      }

  unfoldable pub disable_irqs : State → State
  disable_irqs s = outb 0xff slave_8259a_imr (outb 0xff master_8259a_imr s)

  unfoldable pub eoi_master : Cpu → Cpu
  unfolding outb_pic
  eoi_master c = record { device = outb_pic 0x20 master_8259a_cmd c.device; interrupts = true }

  unfoldable pub eoi_slave : Cpu → Cpu
  unfolding outb_pic
  eoi_slave c = record {
    device = outb_pic 0x20 slave_8259a_cmd (outb_pic 0x20 master_8259a_cmd c.device);
    interrupts = true;
  }

  unfoldable pub init_8253 : State → State
  unfolding outb_pic
  init_8253 s =
      let s1 = outb_pic (bit_or (bit_or (0 <<< 6) (3 <<< 4)) (2 <<< 1)) 0x43 s in
      let s2 = outb_pic (u8 (timer_freq / hz)) 0x40 s1 in
      outb_pic (u8 (timer_freq / hz >>> 8)) 0x40 s2
