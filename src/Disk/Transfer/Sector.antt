-- ===== src/Disk/Transfer/Sector.antt =====
-- `hd_read` of one sector does what the file system takes it for.
use finux.Prelude.{
  ℕ, ◌+◌, ◌-◌, ◌%◌, ◌^◌, ◌≤◌, ◌<◌, ◌≡◌, ◌⊎◌, refl, ◌∙◌, sym, arith, inl, inr, Bool-cases, Bool,
  true, false, List, ◌∷◌, ◌++◌, replicate, some, none, leb, ltb, ◌&&◌,
}
use finux.Pic.{eoi_slave}
use finux.Disk.{hd_cmd_out, read_cmd}
use finux.Disk.Command.{Drive, Told, hd_cmd_out-Told}
use finux.Disk.Transfer.{DataPorts, HdPlaces, HdMachine, hd_handler, io_delays, hd_read}
use finux.Disk.Transfer.Read.{
  wait_handler-interrupt, wait_handler-never, asked, copied, copied-given, handled-bufsize,
}
use finux.Fs.{Loader, read_sector}
use finux.Fs.Load.{read_sector-inside, read_sector-outside}

module _ (drive : DataPorts) (ata : Drive drive.ports) (places : HdPlaces) where
  open drive use {ports, insw}

  -- What the ATA documentation says of the command 0x20 with the count 1: the data port gives the
  -- sector. The drive that does so holds the sectors of `disk`.
  pub record Delivers (disk : ℕ → ℕ → ℕ) : Type 0 where
    pub sector :
        (device : ports.State) (lba j : ℕ)
        → Told ports ata 0x20 lba 1 device
        → j < 512
        → (insw 0x1f0 256 (io_delays drive places 1000 device)).0 j ≡ disk lba j

  -- The machine has read a sector as the loader's file system reads one: its memory is the same but
  -- for the driver's own buffer.
  pub record ReadAs (lba buf : ℕ) (s : Loader) (after : HdMachine drive places) : Type 0 where
    pub memory :
        (a : ℕ)
        → (a < places.hdbuf) ⊎ (places.hdbuf + 512 ≤ a)
        → after.memory a ≡ (read_sector lba buf s).memory a
    pub finished : after.hd.cmdnow ≡ 0
    pub interrupts : after.cpu.interrupts ≡ true

  hd_read-copied :
      (fuel lba buf n : ℕ) (events : List Bool) (m : HdMachine drive places) (device : ports.State)
      → hd_cmd_out ports fuel (read_cmd lba 1) m.cpu.device ≡ some device
      → hd_read drive places fuel (replicate n false ++ true ∷ events) lba 1 buf m
        ≡ some (record (hd_handler drive places (asked drive places m device lba buf)) {
          memory = copied drive places m device lba buf;
        })
  unfolding hd_read
  hd_read-copied fuel lba buf n events m device told =
      rw
        (
          told,
          wait_handler-interrupt drive places n 0x20 events (asked drive places m device lba buf)
              refl (omega arith),
          handled-bufsize drive places m device lba buf,
        )
        refl

  -- Let the drive hold the sectors of `disk` and stay busy for fewer polls than the fuel, let the
  -- block number be below 2^28 and the caller's buffer and the driver's apart and below 2^32, and let
  -- the interrupt come after some rounds of waiting. Then `hd_read` of one sector ends, the command
  -- is over, interrupts are on, and memory is what the file system's reading of that sector leaves,
  -- but for the driver's buffer.
  pub hd_read-ReadAs :
      (fuel lba buf n : ℕ) (events : List Bool) (m : HdMachine drive places) (s : Loader)
      → Delivers s.disk
      → ((a : ℕ) → s.memory a ≡ m.memory a)
      → ata.busy m.cpu.device < fuel
      → lba < 2 ^ 28
      → buf + 512 < 2 ^ 32
      → places.hdbuf + 512 < 2 ^ 32
      → (buf + 512 ≤ places.hdbuf) ⊎ (places.hdbuf + 512 ≤ buf)
      → (after : HdMachine drive places) × (hd_read drive places fuel
            (replicate n false ++ true ∷ events)
            lba
            1
            buf
            m
          ≡ some after)
        × ReadAs lba buf s after
  unfolding hd_handler eoi_slave
  hd_read-ReadAs fuel lba buf n events m s delivers same enough low fits_buf fits_hdbuf apart =
      let (device, sent, told) = (hd_cmd_out-Told ports ata fuel lba 1 m.cpu.device enough).0 in
      let block : lba % 2 ^ 28 ≡ lba = omega arith in
      let (inside, outside) =
        copied-given drive places m device lba buf fits_buf fits_hdbuf apart in
      let memory : (a : ℕ)
          → (a < places.hdbuf) ⊎ (places.hdbuf + 512 ≤ a)
          → copied drive places m device lba buf a ≡ (read_sector lba buf s).memory a =
        λ a out. elim (Bool-cases (leb buf a && ltb a (buf + 512))) [
          | inl within ↦
              let at : buf + (a - buf) ≡ a = ground (arith, within) in
              let j_low : a - buf < 512 = ground (arith, within) in
              rw at at (
                inside (a - buf) j_low
                ∙ delivers.sector device lba (a - buf) (rw block at told) j_low
                ∙ sym (read_sector-inside lba buf (a - buf) s j_low))
          | inr beyond ↦
              let out_buf : (a < buf) ⊎ (buf + 512 ≤ a) = ground (arith, beyond) in
              outside a out_buf out ∙ sym (same a) ∙ sym (read_sector-outside lba buf a s out_buf)
        ] in
      (
        _,
        hd_read-copied fuel lba buf n events m device sent,
        record { memory = memory; finished = refl; interrupts = refl },
      )

  -- Without the interrupt it does not end, however long it waits, once the command is given.
  pub hd_read-never :
      (fuel lba buf n : ℕ) (m : HdMachine drive places)
      → ata.busy m.cpu.device < fuel
      → hd_read drive places fuel (replicate n false) lba 1 buf m ≡ none
  unfolding hd_read
  hd_read-never fuel lba buf n m enough =
      let (device, sent, told) = (hd_cmd_out-Told ports ata fuel lba 1 m.cpu.device enough).0 in
      rw (sent, wait_handler-never drive places n 0x20 (asked drive places m device lba buf) refl)
        refl
