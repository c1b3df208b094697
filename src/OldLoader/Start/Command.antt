-- ===== src/OldLoader/Start/Command.antt =====
-- The command that the first loader gives to the drive, with a poll around each register.
use finux.Prelude.{
  ℕ, zero, suc, ◌≤◌, ◌<◌, ◌≡◌, refl, ◌∙◌, arith, inl, inr, Bool-cases, leb, some, if◌then◌else◌,
  ◌==◌,
}
use finux.Pic.{Ports, outb_pic, inb_pic}
use finux.Disk.{HdCmd, wait_ready}
use finux.Disk.Command.{Drive, Given, outb_pic-written}
use finux.OldLoader.Start.{old_hd_cmd_out}

-- What the ATA documentation says of a drive that takes its registers: after a write the status is
-- busy for so many reads at most.
pub record Takes (ports : Ports) (drive : Drive ports) : Type 0 where
  pub limit : ℕ
  pub out_busy : (s : ports.State) (v p : ℕ) → drive.busy (ports.outb v p s) ≤ limit

module _ (ports : Ports) (drive : Drive ports) (takes : Takes ports drive) where
  open drive use {written, busy, status, status_busy, status_written, delay_busy, delay_written}

  -- Polling ends and leaves the registers alone.
  wait_ready-kept :
      (fuel : ℕ) (s : ports.State)
      → busy s < fuel
      → (s' : ports.State) × (wait_ready ports fuel s ≡ some s')
        × ((q : ℕ) → written q s' ≡ written q s)
  unfolding wait_ready inb_pic
  wait_ready-kept zero s enough = absurd (omega arith)
  wait_ready-kept (suc fuel) s enough =
      let s1 = (ports.inb 0x1f7 s).1 in
      let same = λ (q : ℕ). delay_written s1 q ∙ status_written s q in
      elim (Bool-cases (leb 0x80 (ports.inb 0x1f7 s).0)) [
        | inl more ↦
            let (s', ended, kept) =
              wait_ready-kept fuel (ports.io_delay s1)
                (ground (arith, status s, status_busy s, delay_busy s1)) in
            (s', rw more ended, λ q. kept q ∙ same q)
        | inr ready ↦ (ports.io_delay s1, rw ready refl, same)
      ]

  -- The same after a register was written.
  write_and_wait :
      (fuel v p : ℕ) (s : ports.State)
      → takes.limit < fuel
      → (s' : ports.State) × (wait_ready ports fuel (outb_pic ports v p s) ≡ some s')
        × ((q : ℕ) → written q s' ≡ (if q == p then v else written q s))
  unfolding outb_pic
  write_and_wait fuel v p s enough =
      let s1 = ports.outb v p s in
      let (s', ended, kept) =
        wait_ready-kept fuel (ports.io_delay s1)
          (omega (arith, delay_busy s1, takes.out_busy s v p)) in
      (s', ended, λ q. kept q ∙ outb_pic-written ports drive s v p q)

  -- With more fuel than the drive stays busy, now and after each register, `hd_cmd_out` of the first
  -- loader ends, and the drive holds the command in its registers.
  pub old_hd_cmd_out-Given :
      (fuel : ℕ) (cmd : HdCmd) (s : ports.State)
      → busy s < fuel
      → takes.limit < fuel
      → (s' : ports.State) × (old_hd_cmd_out ports fuel cmd s ≡ some s') × Given ports drive cmd s'
  unfolding old_hd_cmd_out
  old_hd_cmd_out-Given fuel cmd s enough steady =
      let (s1, e1, w1) = wait_ready-kept fuel s enough in
      let (s2, e2, w2) = write_and_wait fuel 0 0x3f6 s1 steady in
      let (s3, e3, w3) = write_and_wait fuel cmd.features 0x1f1 s2 steady in
      let (s4, e4, w4) = write_and_wait fuel cmd.sector_count 0x1f2 s3 steady in
      let (s5, e5, w5) = write_and_wait fuel cmd.lba_low 0x1f3 s4 steady in
      let (s6, e6, w6) = write_and_wait fuel cmd.lba_mid 0x1f4 s5 steady in
      let (s7, e7, w7) = write_and_wait fuel cmd.lba_hig 0x1f5 s6 steady in
      let (s8, e8, w8) = write_and_wait fuel cmd.device 0x1f6 s7 steady in
      let (s9, e9, w9) = write_and_wait fuel cmd.command 0x1f7 s8 steady in
      (
        s9,
        rw (e1, e2, e3, e4, e5, e6, e7, e8) e9,
        record {
          control =
              w9 0x3f6 ∙ w8 0x3f6 ∙ w7 0x3f6 ∙ w6 0x3f6 ∙ w5 0x3f6 ∙ w4 0x3f6 ∙ w3 0x3f6 ∙ w2 0x3f6;
          features = w9 0x1f1 ∙ w8 0x1f1 ∙ w7 0x1f1 ∙ w6 0x1f1 ∙ w5 0x1f1 ∙ w4 0x1f1 ∙ w3 0x1f1;
          sector_count = w9 0x1f2 ∙ w8 0x1f2 ∙ w7 0x1f2 ∙ w6 0x1f2 ∙ w5 0x1f2 ∙ w4 0x1f2;
          lba_low = w9 0x1f3 ∙ w8 0x1f3 ∙ w7 0x1f3 ∙ w6 0x1f3 ∙ w5 0x1f3;
          lba_mid = w9 0x1f4 ∙ w8 0x1f4 ∙ w7 0x1f4 ∙ w6 0x1f4;
          lba_hig = w9 0x1f5 ∙ w8 0x1f5 ∙ w7 0x1f5;
          device = w9 0x1f6 ∙ w8 0x1f6;
          command = w9 0x1f7;
        },
      )
