-- ===== src/Disk/Transfer/Traffic.antt =====
-- What the accesses of `hd_identify` to the ports leave alone.
use mathlib.Core.Option.{none-ne-some, some-injective}
use mathlib.Core.Path.{subst}
use finux.Prelude.{ℕ, zero, suc, ◌≤◌, ◌≡◌, arith, Bool-cases, inl, inr, leb, some}
use finux.Pic.{Cpu, outb_pic, inb_pic, eoi_slave}
use finux.Disk.{HdCmd, wait_ready, write_cmd_block}
use finux.Disk.Transfer.{DataPorts}

-- The bytes that are written: to the registers of the drive, and the ends of interrupt.
pub data Sent : (byte port : ℕ) → Type 0 where
  control : Sent 0 0x3f6
  register : {byte port : ℕ} → 0x1f1 ≤ port → port ≤ 0x1f7 → Sent byte port
  end_master : Sent 0x20 0x20
  end_slave : Sent 0x20 0xa0

-- A fact of the devices that reading the status, writing such bytes, taking a sector from the data
-- port and waiting leave true.
pub record Kept (drive : DataPorts) (P : drive.ports.State → Type 0) : Type 0 where
  pub status : (s : drive.ports.State) → P s → P (drive.ports.inb 0x1f7 s).1
  pub sent :
      (s : drive.ports.State) (byte port : ℕ)
      → Sent byte port
      → P s
      → P (drive.ports.outb byte port s)
  pub data_taken : (s : drive.ports.State) → P s → P (drive.insw 0x1f0 256 s).1
  pub delay : (s : drive.ports.State) → P s → P (drive.ports.io_delay s)

module _ (drive : DataPorts) (P : drive.ports.State → Type 0) (kept : Kept drive P) where
  open drive use {ports, insw}

  outb_pic-kept :
      (byte port : ℕ) (s : ports.State) → Sent byte port → P s → P (outb_pic ports byte port s)
  unfolding outb_pic
  outb_pic-kept byte port s is_sent p = kept.delay _ (kept.sent s byte port is_sent p)

  pub wait_ready-kept :
      (fuel : ℕ) {s d : ports.State} → wait_ready ports fuel s ≡ some d → P s → P d
  unfolding wait_ready inb_pic
  wait_ready-kept zero ended p = absurd (none-ne-some _ ended)
  wait_ready-kept (suc fuel) {s} {d} ended p =
      let polled = kept.delay _ (kept.status s p) in
      elim (Bool-cases (leb 0x80 (ports.inb 0x1f7 s).0)) [
        | inl more ↦ wait_ready-kept fuel (rw more at ended) polled
        | inr ready ↦ subst P (some-injective _ _ (rw ready at ended)) polled
      ]

  pub write_cmd_block-kept : (cmd : HdCmd) (s : ports.State) → P s → P (write_cmd_block ports cmd s)
  unfolding write_cmd_block
  write_cmd_block-kept cmd s p =
      let s1 = outb_pic-kept 0 0x3f6 s control p in
      let s2 = outb_pic-kept cmd.features 0x1f1 _ (register (omega arith) (omega arith)) s1 in
      let s3 = outb_pic-kept cmd.sector_count 0x1f2 _ (register (omega arith) (omega arith)) s2 in
      let s4 = outb_pic-kept cmd.lba_low 0x1f3 _ (register (omega arith) (omega arith)) s3 in
      let s5 = outb_pic-kept cmd.lba_mid 0x1f4 _ (register (omega arith) (omega arith)) s4 in
      let s6 = outb_pic-kept cmd.lba_hig 0x1f5 _ (register (omega arith) (omega arith)) s5 in
      let s7 = outb_pic-kept cmd.device 0x1f6 _ (register (omega arith) (omega arith)) s6 in
      outb_pic-kept cmd.command 0x1f7 _ (register (omega arith) (omega arith)) s7

  pub eoi_slave-kept : (c : Cpu ports) → P c.device → P (eoi_slave ports c).device
  unfolding eoi_slave outb_pic
  eoi_slave-kept c p =
      kept.delay _
        (kept.sent _ 0x20 0xa0 end_slave (kept.delay _ (kept.sent c.device 0x20 0x20 end_master p)))
