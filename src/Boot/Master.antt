-- ===== src/Boot/Master.antt =====
-- The mask of the master while the loader handles an interrupt, and after it.
use finux.Prelude.{
  ℕ, ◌-◌, ◌≤◌, ◌<◌, ◌≡◌, refl, ap, ◌∙◌, inl, inr, arith, Bool, Bool-cases, true, ◌||◌, ◌==◌, ==_iff,
  ltb, if◌then◌else◌, bit_and, bit_or,
}
use finux.Prelude.Bits.{bit_or-zero, bit_and_low}
use finux.Prelude.Table.{all_below, all_below_sound, all_pairs_sound}
use finux.Pic.{Ports, Cpu}
use finux.Pic.Mask.{ReadsMasks, masked}
use finux.Pic.Irq.{Masks}
use finux.Boot.{line_bit, enter_irq, leave_irq, interrupt_master}

-- What the 8259A's documentation says of the end of an interrupt: it does not change the masks.
pub record Ends (ports : Ports) (reads : ReadsMasks ports) : Type 1 where
  pub ends :
      (s : ports.State)
      → reads.Ready s
      → reads.Ready (ports.outb 0x20 0x20 s)
        × ((q : ℕ) → reads.imr q (ports.outb 0x20 0x20 s) ≡ reads.imr q s)

-- Masking a line that is let through, and letting it through again.
abbrev again_test : ℕ → ℕ → Bool
again_test irq now =
    (masked irq now == 1) || (bit_and (bit_or now (line_bit irq)) (255 - line_bit irq) == now)

again_table : all_below 8 (λ irq. all_below 256 (again_test irq)) ≡ true
unfolding all_below
again_table = refl

abbrev set_test : ℕ → ℕ → Bool
set_test irq now =
    all_below 8
      (λ k. masked k (bit_or now (line_bit irq)) == (if k == irq then 1 else masked k now))

set_table : all_below 8 (λ irq. all_below 256 (set_test irq)) ≡ true
unfolding all_below
set_table = refl

-- A line of the slave has no bit in the byte.
no_bit_table : all_below 16 (λ irq. ltb irq 8 || (line_bit irq == 0)) ≡ true
unfolding all_below
no_bit_table = refl

no_bit : (irq : ℕ) → irq < 16 → 8 ≤ irq → line_bit irq ≡ 0
no_bit irq small high =
    let test = all_below_sound 16 (λ n. ltb n 8 || (line_bit n == 0)) irq no_bit_table small in
    ground arith

masked-bit_or :
    (irq k now : ℕ)
    → irq < 16
    → now < 256
    → k < 8
    → masked k (bit_or now (line_bit irq)) ≡ (if k == irq then 1 else masked k now)
masked-bit_or irq k now small byte low = elim (Bool-cases (ltb irq 8)) [
  | inl of_master ↦ (==_iff _ _).0 (
      all_below_sound 8
        (λ k. masked k (bit_or now (line_bit irq)) == (if k == irq then 1 else masked k now)) k
        (all_pairs_sound 8 256 set_test irq now set_table (ground arith) byte) low)
  | inr of_slave ↦
      rw (no_bit irq small (ground arith), bit_or-zero now) (other_line irq (ground arith))
]
  where
    other_line : (n : ℕ) → 8 ≤ n → masked k now ≡ (if k == n then 1 else masked k now)
    other_line n high = ground arith

bit_and-bit_or :
    (irq now : ℕ)
    → irq < 16
    → now < 256
    → masked irq now ≡ 0
    → bit_and (bit_or now (line_bit irq)) (255 - line_bit irq) ≡ now
bit_and-bit_or irq now small byte through = elim (Bool-cases (ltb irq 8)) [
  | inl of_master ↦
      let test = all_pairs_sound 8 256 again_test irq now again_table (ground arith) byte in
      ground arith
  | inr of_slave ↦
      rw (no_bit irq small (ground arith), bit_or-zero now) (bit_and_low 8 now ∙ omega arith)
]

module _ (ports : Ports) (reads : ReadsMasks ports) (ends : Ends ports reads) where
  open reads use {imr, in_mask, out_mask}

  enter_irq-Masks :
      (irq m l : ℕ) (c : Cpu ports)
      → Masks ports reads c.device m l
      → Masks ports reads (enter_irq ports irq c).device (bit_or m (line_bit irq)) l
  unfolding enter_irq
  enter_irq-Masks irq m l c masks =
      let (value, ready1, same) = in_mask c.device 0x21 masks.ready (inl refl) in
      let (now, s1) = ports.inb 0x21 c.device in
      let written = bit_or now (line_bit irq) in
      let (ready2, out) = out_mask s1 0x21 written ready1 (inl refl) in
      let (ready3, kept) = ends.ends (ports.outb written 0x21 s1) ready2 in
      record {
        ready = ready3;
        on_master =
            kept 0x21 ∙ out 0x21 ∙ ap (λ n. bit_or n (line_bit irq)) (value ∙ masks.on_master);
        on_slave = kept 0xa1 ∙ out 0xa1 ∙ same 0xa1 ∙ masks.on_slave;
      }

  leave_irq-Masks :
      (irq m l : ℕ) (c : Cpu ports)
      → Masks ports reads c.device m l
      → Masks ports reads (leave_irq ports irq c).device (bit_and m (255 - line_bit irq)) l
  unfolding leave_irq
  leave_irq-Masks irq m l c masks =
      let (value, ready1, same) = in_mask c.device 0x21 masks.ready (inl refl) in
      let (now, s1) = ports.inb 0x21 c.device in
      let (ready2, out) = out_mask s1 0x21 (bit_and now (255 - line_bit irq)) ready1 (inl refl) in
      record {
        ready = ready2;
        on_master = out 0x21 ∙ ap (λ n. bit_and n (255 - line_bit irq)) (value ∙ masks.on_master);
        on_slave = out 0xa1 ∙ same 0xa1 ∙ masks.on_slave;
      }

  -- What the masks are while the handler of line `irq` runs, and when it has returned.
  pub record Handled (irq m l : ℕ) (during after : ports.State) : Type 0 where
    pub kept_out :
        (k : ℕ) → k < 8 → masked k (imr 0x21 during) ≡ (if k == irq then 1 else masked k m)
    pub slave_open : imr 0xa1 during ≡ l
    pub restored : Masks ports reads after m l

  module _ {S : Type 0} (call : ℕ → S → Cpu ports → S × Cpu ports) (interrupt : ℕ → ℕ) where
    -- A handler that leaves the masks as it finds them.
    abbrev pub KeepsMasks : ℕ → Type 0
    KeepsMasks handler =
        (n l : ℕ) (s : S) (c : Cpu ports)
        → Masks ports reads c.device n l
        → Masks ports reads (call handler s c).1.device n l

    -- When both controllers are set up, the interrupting line below 16 is let through, and its handler
    -- keeps the masks: while the handler runs the line is masked and every other line of the master
    -- is as before, so a line of the slave is not kept out at all; afterwards both masks are what
    -- they were, and interrupts are on.
    pub interrupt_master-Handled :
        (irq m l : ℕ) (s : S) (c : Cpu ports)
        → Masks ports reads c.device m l
        → m < 256
        → irq < 16
        → masked irq m ≡ 0
        → KeepsMasks (interrupt irq)
        → let after = (interrupt_master ports call interrupt irq s c).1 in
          Handled irq m l (enter_irq ports irq c).device after.device × (after.interrupts ≡ true)
    unfolding interrupt_master leave_irq
    interrupt_master-Handled irq m l s c masks byte small through keeps =
        let entered = enter_irq-Masks irq m l c masks in
        let (s1, c1) = call (interrupt irq) s (enter_irq ports irq c) in
        let left = leave_irq-Masks irq (bit_or m (line_bit irq)) l c1 (keeps _ l s _ entered) in
        (
          record {
            kept_out = λ k low. rw entered.on_master (masked-bit_or irq k m small byte low);
            slave_open = entered.on_slave;
            restored = rw (bit_and-bit_or irq m small byte through) at left;
          },
          refl,
        )
