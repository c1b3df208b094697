-- ===== src/OldLoader/Start/Vectors.antt =====
-- Where the interrupts of the first loader lead.
use finux.Prelude.{
  ℕ, zero, suc, ◌+◌, ◌^◌, ◌≤◌, ◌<◌, ◌≡◌, ◌≢◌, refl, ◌∙◌, ap, arith, true, ◌==◌, Bool-cases, inl,
  inr, update,
}
use finux.Desc.{Desc, set_gate}
use finux.Desc.Fields.{Gate, read_gate, set_gate-read_gate}
use finux.Pic.{Ports}
use finux.Pic.Setup.{Initialises, SetUp, initialised-SetUp}
use finux.OldLoader.Start.{
  OldNames, OldMachine, OldInterrupts, old_gate, fill_idt, old_init_idt, old_init_8259a,
  gdt_changed,
}

-- A gate that any privilege level may use.
abbrev pub open_gate : (type selector offset : ℕ) → Gate
open_gate type selector offset = record {
  offset = offset;
  selector = selector;
  type = type;
  dpl = 3;
  present = 1;
}

-- The two gates of the code are those that `set_gate` makes.
old_gate-interrupt :
    (kcs_selector handler : ℕ)
    → handler < 2 ^ 32
    → kcs_selector < 2 ^ 16
    → read_gate (old_gate kcs_selector 0xee00 handler) ≡ open_gate 0xe kcs_selector handler
unfolding set_gate
old_gate-interrupt kcs_selector handler word selector =
    set_gate-read_gate 0xe handler 3 kcs_selector (omega arith) word (omega arith) selector

pub old_gate-call :
    (kcs_selector handler : ℕ)
    → handler < 2 ^ 32
    → kcs_selector < 2 ^ 16
    → read_gate (old_gate kcs_selector 0xec00 handler) ≡ open_gate 0xc kcs_selector handler
unfolding set_gate
old_gate-call kcs_selector handler word selector =
    set_gate-read_gate 0xc handler 3 kcs_selector (omega arith) word (omega arith) selector

fill_idt-outside :
    (names : OldNames) (left i : ℕ) (idt : ℕ → Desc) (n : ℕ)
    → n < i
    → fill_idt names left i idt n ≡ idt n
unfolding fill_idt
fill_idt-outside names zero i idt n below = refl
fill_idt-outside names (suc left) i idt n below =
    fill_idt-outside names left (i + 1) _ n (omega arith) ∙ ground arith

fill_idt-gates :
    (names : OldNames) (left i : ℕ) (idt : ℕ → Desc) (n : ℕ)
    → i ≤ n
    → n < i + left
    → fill_idt names left i idt n ≡ old_gate names.kcs_selector 0xee00 names.idt_test
unfolding fill_idt
fill_idt-gates names zero i idt n low high = absurd (omega arith)
fill_idt-gates names (suc left) i idt n low high = elim (Bool-cases (i == n)) [
  | inl here ↦
      let e : n ≡ i = ground arith in
      rw e (fill_idt-outside names left (i + 1) _ i (omega arith) ∙ ground arith)
  | inr later ↦ fill_idt-gates names left (i + 1) _ n (ground arith) (omega arith)
]

module _ (ports : Ports) (chips : Initialises ports) (names : OldNames) where
  -- The interrupts when the first loader gives its command to the drive.
  pub record OldReady (s : OldInterrupts names ports) : Type 0 where
    pub disk : read_gate (s.idt 0x3e) ≡ open_gate 0xe names.kcs_selector names.test_call_hd
    pub others :
        (n : ℕ)
        → n < 256
        → n ≢ 0x3e
        → read_gate (s.idt n) ≡ open_gate 0xe names.kcs_selector names.idt_test
    pub table : s.idtr ≡ record { size = 2047; address = names.idt_at }
    pub controllers : SetUp ports chips 0xfb 0xbf s.cpu.device
    pub on : s.cpu.interrupts ≡ true

  -- With 32-bit addresses of the two handlers and a 16-bit selector, `GDT_Changed` comes to the
  -- command for the drive with the gate at 0x3e leading to `test_call_hd` and all 255 others to
  -- `idt_test`, each open to every privilege level, the controllers initialised with line 2 of the
  -- master and line 6 of the slave alone let through, and interrupts on.
  pub gdt_changed-OldReady :
      (detect_count : ℕ) (s : OldMachine ports names)
      → names.idt_test < 2 ^ 32
      → names.test_call_hd < 2 ^ 32
      → names.kcs_selector < 2 ^ 16
      → OldReady (gdt_changed ports names detect_count s).interrupts
  unfolding gdt_changed old_init_idt old_init_8259a
  gdt_changed-OldReady detect_count s test_word disk_word selector =
      let idt = s.interrupts.idt in
      record {
        disk = old_gate-interrupt names.kcs_selector names.test_call_hd disk_word selector;
        others = λ n low other.
            let same : update (fill_idt names 256 0 idt) 0x3e _ n ≡ fill_idt names 256 0 idt n =
              ground arith in
            ap read_gate (same ∙ fill_idt-gates names 256 0 idt n (omega arith) low)
            ∙ old_gate-interrupt names.kcs_selector names.idt_test test_word selector;
        table = refl;
        controllers = initialised-SetUp ports chips 0xfb 0xbf s.interrupts.cpu.device;
        on = refl;
      }
