-- ===== src/Startup/Up.antt =====
-- The interrupts when the first thread starts.
use finux.Prelude.{ℕ, ◌<◌, ◌≡◌, true, ◌==◌, if◌then◌else◌}
use finux.Desc.Fields.{read_gate}
use finux.Exception.{Exception, vector}
use finux.Pic.{Ports, master_8259a_imr, slave_8259a_imr}
use finux.Pic.Mask.{ReadsMasks, masked}
use finux.Idt.{sys_call_num}
use finux.Idt.Vectors.{kernel_gate}
use finux.Startup.{Linked, Computer}

module _ (ports : Ports) (reads : ReadsMasks ports) where
  open reads use {Ready, imr, out_mask}

  -- What the kernel has set up when it starts its first thread.
  pub record Up (linked : Linked) (c : Computer ports) : Type 0 where
    pub exception :
        (e : Exception)
        → read_gate (c.idt.idt (vector e)) ≡ kernel_gate 0xf (linked.handlers.exception e)
    pub syscall : read_gate (c.idt.idt sys_call_num) ≡ kernel_gate 0xe linked.handlers.sys_entry
    pub timer : read_gate (c.idt.idt 0x30) ≡ kernel_gate 0xe linked.handlers.irq00_handler
    pub handler : c.idt.interrupt 0 ≡ linked.handlers.timer_address
    pub master :
        (k : ℕ)
        → k < 8
        → masked k (imr master_8259a_imr c.idt.cpu.device) ≡ (if k == 0 then 0 else 1)
    pub slave : (k : ℕ) → k < 8 → masked k (imr slave_8259a_imr c.idt.cpu.device) ≡ masked k 0xff
    pub interrupts : c.idt.cpu.interrupts ≡ true
    pub current : c.threads.kernel.current_thread ≡ linked.globals.init_struct
    pub pages : c.threads.pages ≡ c.paging.pages
