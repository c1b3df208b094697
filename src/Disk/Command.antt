-- ===== src/Disk/Command.antt =====
-- The block that a command addresses, and the registers that it reaches.
use finux.Prelude.{
  ℕ, zero, suc, ◌+◌, ◌-◌, ◌*◌, ◌/◌, ◌%◌, ◌^◌, ◌≤◌, ◌<◌, ◌≡◌, refl, ◌∙◌, true, inl, inr, arith, ◌==◌,
  ==_iff, Bool-cases, leb, if◌then◌else◌, some, bit_and,
}
use finux.Prelude.Bits.{u8, ◌>>>◌, bit_and_low}
use finux.Prelude.Table.{all_below, all_below_sound}
use finux.Pic.{Ports, outb_pic, inb_pic}
use finux.Disk.{
  HdCmd, reg_drive, lba_cmd, read_cmd, write_cmd, wait_ready, write_cmd_block, hd_cmd_out,
}

drive_table : all_below 16 (λ h. u8 (reg_drive 1 0 h) == 0xe0 + h) ≡ true
unfolding all_below
drive_table = refl

-- Drive 0, addressed by blocks.
reg_drive_lem : (h : ℕ) → h < 16 → u8 (reg_drive 1 0 h) ≡ 0xe0 + h
reg_drive_lem h low =
    (==_iff _ _).0 (all_below_sound 16 (λ h. u8 (reg_drive 1 0 h) == 0xe0 + h) h drive_table low)

-- What the ATA documentation says of a drive: `written` is what was last written to a port, `busy`
-- how many more times the status will be read with bit 7 set.
pub record Drive (ports : Ports) : Type 1 where
  pub written : ℕ → ports.State → ℕ
  pub busy : ports.State → ℕ
  pub status : (s : ports.State) → busy s ≡ 0 → (ports.inb 0x1f7 s).0 < 0x80
  pub status_busy : (s : ports.State) → busy (ports.inb 0x1f7 s).1 ≤ busy s - 1
  pub status_written : (s : ports.State) (q : ℕ) → written q (ports.inb 0x1f7 s).1 ≡ written q s
  pub out_written :
      (s : ports.State) (v p q : ℕ)
      → written q (ports.outb v p s) ≡ (if q == p then v else written q s)
  pub delay_busy : (s : ports.State) → busy (ports.io_delay s) ≤ busy s
  pub delay_written : (s : ports.State) (q : ℕ) → written q (ports.io_delay s) ≡ written q s

module _ (ports : Ports) (drive : Drive ports) where
  open drive use {
    written, busy, status, status_busy, status_written, out_written, delay_busy, delay_written,
  }

  -- Polling ends once the drive is ready.
  pub wait_ready-some :
      (fuel : ℕ) (s : ports.State)
      → busy s < fuel
      → (s' : ports.State) × (wait_ready ports fuel s ≡ some s')
  unfolding wait_ready inb_pic
  wait_ready-some zero s enough = absurd (omega arith)
  wait_ready-some (suc fuel) s enough = elim (Bool-cases (leb 0x80 (ports.inb 0x1f7 s).0)) [
    | inl more ↦
        let (s', ended) =
          wait_ready-some fuel (ports.io_delay (ports.inb 0x1f7 s).1)
            (ground (arith, status s, status_busy s, delay_busy (ports.inb 0x1f7 s).1)) in
        (s', rw more ended)
    | inr ready ↦ (ports.io_delay (ports.inb 0x1f7 s).1, rw ready refl)
  ]

  pub outb_pic-written :
      (s : ports.State) (v p q : ℕ)
      → written q (outb_pic ports v p s) ≡ (if q == p then v else written q s)
  unfolding outb_pic
  outb_pic-written s v p q = delay_written (ports.outb v p s) q ∙ out_written s v p q

  -- What the drive was given.
  pub record Given (cmd : HdCmd) (s : ports.State) : Type 0 where
    pub control : written 0x3f6 s ≡ 0
    pub features : written 0x1f1 s ≡ cmd.features
    pub sector_count : written 0x1f2 s ≡ cmd.sector_count
    pub lba_low : written 0x1f3 s ≡ cmd.lba_low
    pub lba_mid : written 0x1f4 s ≡ cmd.lba_mid
    pub lba_hig : written 0x1f5 s ≡ cmd.lba_hig
    pub device : written 0x1f6 s ≡ cmd.device
    pub command : written 0x1f7 s ≡ cmd.command

  write_cmd_block-Given : (cmd : HdCmd) (s : ports.State) → Given cmd (write_cmd_block ports cmd s)
  unfolding write_cmd_block
  write_cmd_block-Given cmd s = record {
    control = simp outb_pic-written refl;
    features = simp outb_pic-written refl;
    sector_count = simp outb_pic-written refl;
    lba_low = simp outb_pic-written refl;
    lba_mid = simp outb_pic-written refl;
    lba_hig = simp outb_pic-written refl;
    device = simp outb_pic-written refl;
    command = simp outb_pic-written refl;
  }

  -- How the drive reads its registers: the 28 bits of the block, and the mode and drive bits above
  -- them.
  pub record Told (number lba count : ℕ) (s : ports.State) : Type 0 where
    pub command : written 0x1f7 s ≡ number
    pub block :
        written 0x1f3 s
          + written 0x1f4 s * 2 ^ 8
          + written 0x1f5 s * 2 ^ 16
          + written 0x1f6 s % 2 ^ 4 * 2 ^ 24
        ≡ lba
    pub mode : written 0x1f6 s / 2 ^ 4 ≡ 0xe
    pub sectors : written 0x1f2 s ≡ count

  Given-Told :
      (command lba sectorcnt : ℕ) (s : ports.State)
      → Given (lba_cmd command lba sectorcnt) s
      → Told command (lba % 2 ^ 28) (sectorcnt % 2 ^ 8) s
  Given-Told command lba sectorcnt s given =
      let low : bit_and lba 0xff ≡ lba % 2 ^ 8 = bit_and_low 8 lba in
      let mid : bit_and (lba >>> 8) 0xff ≡ lba / 2 ^ 8 % 2 ^ 8 = bit_and_low 8 (lba / 2 ^ 8) in
      let hig : bit_and (lba >>> 16) 0xff ≡ lba / 2 ^ 16 % 2 ^ 8 = bit_and_low 8 (lba / 2 ^ 16) in
      let top : bit_and (lba >>> 24) 0xf ≡ lba / 2 ^ 24 % 2 ^ 4 = bit_and_low 4 (lba / 2 ^ 24) in
      let drive_byte : u8 (reg_drive 1 0 (bit_and (lba >>> 24) 0xf)) ≡ 0xe0 + lba / 2 ^ 24 % 2 ^ 4 =
        rw top (reg_drive_lem (lba / 2 ^ 24 % 2 ^ 4) (omega arith)) in
      record {
        command = given.command;
        block =
            rw
              (given.lba_low, given.lba_mid, given.lba_hig, given.device, low, mid, hig, drive_byte)
              (omega arith);
        mode = rw (given.device, drive_byte) (omega arith);
        sectors = given.sector_count;
      }

  -- The command of `hd_read`, and that of `hd_write`, reach the drive once it is ready, in at most
  -- one poll more than it stays busy: the registers then hold the command, the low 28 bits of the
  -- block number on drive 0 in block mode, and the low 8 bits of the number of sectors.
  pub hd_cmd_out-Told :
      (fuel lba sectorcnt : ℕ) (s : ports.State)
      → busy s < fuel
      → ((s' : ports.State) × (hd_cmd_out ports fuel (read_cmd lba sectorcnt) s ≡ some s')
          × Told 0x20 (lba % 2 ^ 28) (sectorcnt % 2 ^ 8) s')
        × ((s' : ports.State) × (hd_cmd_out ports fuel (write_cmd lba sectorcnt) s ≡ some s')
            × Told 0x30 (lba % 2 ^ 28) (sectorcnt % 2 ^ 8) s')
  unfolding hd_cmd_out read_cmd write_cmd
  hd_cmd_out-Told fuel lba sectorcnt s enough =
      let (s1, ended) = wait_ready-some fuel s enough in
      let read = lba_cmd 0x20 lba sectorcnt in
      let write = lba_cmd 0x30 lba sectorcnt in
      (
        (
          write_cmd_block ports read s1,
          rw ended refl,
          Given-Told 0x20 lba sectorcnt _ (write_cmd_block-Given read s1),
        ),
        (
          write_cmd_block ports write s1,
          rw ended refl,
          Given-Told 0x30 lba sectorcnt _ (write_cmd_block-Given write s1),
        ),
      )
