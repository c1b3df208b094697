-- ===== src/Disk/Transfer/Identify.antt =====
-- `hd_identify` ends with the interrupt, and writes to the two buffers alone.
use finux.Prelude.{
  ℕ, ◌+◌, ◌^◌, ◌≤◌, ◌<◌, ◌≡◌, ◌⊎◌, refl, ◌∙◌, arith, true, false, Bool, List, ◌∷◌, ◌++◌, replicate,
  some,
}
use finux.Strings.{memcpy}
use finux.Strings.Copies.{memcpy-Region}
use finux.Pic.{eoi_slave}
use finux.Disk.{HdCmd, identify_cmd, hd_cmd_out, wait_ready, write_cmd_block}
use finux.Disk.Command.{Drive, wait_ready-some}
use finux.Disk.Transfer.{
  DataPorts, HdPlaces, HdMachine, with_device, port_read, hd_handler, hd_identify,
}
use finux.Disk.Transfer.Traffic.{Kept, wait_ready-kept, write_cmd_block-kept, eoi_slave-kept}
use finux.Disk.Transfer.Read.{wait_handler-interrupt}

module _ (drive : DataPorts) (ata : Drive drive.ports) (places : HdPlaces) where
  open drive use {ports}

  -- The machine after `hd_identify`, with the local buffer at `buf`.
  pub record Identified (buf : ℕ) (m after : HdMachine drive places) : Type 1 where
    pub memory :
        (a : ℕ)
        → (a < buf) ⊎ (buf + 512 ≤ a)
        → (a < places.hdbuf) ⊎ (places.hdbuf + 512 ≤ a)
        → after.memory a ≡ m.memory a
    pub finished : after.hd.cmdnow ≡ 0
    pub interrupts : after.cpu.interrupts ≡ true
    pub device : (P : ports.State → Type 0) → Kept drive P → P m.cpu.device → P after.cpu.device

  abbrev identifying : ℕ → HdMachine drive places → ports.State → HdMachine drive places
  identifying buf m device = with_device drive places device (record m {
    hd = record {
      cmdnow = 0xec;
      handler = places.port_read_at;
      buf = buf;
      bufsize = 512;
      port = 0x1f0;
      sectorcnt = 1;
    };
  })

  abbrev copied : ℕ → HdMachine drive places → ports.State → HdMachine drive places
  copied buf m device =
      let handled : HdMachine drive places = hd_handler drive places (identifying buf m device) in
      record handled { memory = (memcpy buf places.hdbuf 512 handled.memory).1 }

  handled-outside :
      (buf a : ℕ) (m : HdMachine drive places) (device : ports.State)
      → (a < places.hdbuf) ⊎ (places.hdbuf + 512 ≤ a)
      → (hd_handler drive places (identifying buf m device)).memory a ≡ m.memory a
  unfolding hd_handler port_read
  handled-outside buf a m device out = ground arith

  identified :
      (fuel buf n : ℕ) (events : List Bool) (cmd : HdCmd) (m : HdMachine drive places)
      (device : ports.State)
      → hd_cmd_out ports fuel (identify_cmd cmd) m.cpu.device ≡ some device
      → hd_identify drive places fuel (replicate n false ++ true ∷ events) cmd buf m
        ≡ some (copied buf m device)
  unfolding hd_identify hd_handler port_read
  identified fuel buf n events cmd m device told =
      rw
        (
          told,
          wait_handler-interrupt drive places n 0xec events (identifying buf m device) refl
              (omega arith),
        )
        refl

  copied-kept :
      (fuel buf : ℕ) (cmd : HdCmd) (m : HdMachine drive places) (s1 : ports.State)
      → wait_ready ports fuel m.cpu.device ≡ some s1
      → (P : ports.State → Type 0) → Kept drive P
      → P m.cpu.device
      → P (copied buf m (write_cmd_block ports (identify_cmd cmd) s1)).cpu.device
  unfolding hd_handler port_read
  copied-kept fuel buf cmd m s1 ended P kept p = eoi_slave-kept drive P kept _ (
      kept.data_taken _ (
        write_cmd_block-kept drive P kept (identify_cmd cmd) s1
          (wait_ready-kept drive P kept fuel ended p)))

  -- Let the drive stay busy for fewer polls than the fuel, let the two buffers be apart and below
  -- 2^32, and let the interrupt come after some rounds of waiting. Then `hd_identify` ends with the
  -- command over and interrupts on, with no memory changed outside of the buffers, and with every fact
  -- of the devices true that such accesses keep.
  pub hd_identify-Identified :
      (fuel buf n : ℕ) (events : List Bool) (cmd : HdCmd) (m : HdMachine drive places)
      → ata.busy m.cpu.device < fuel
      → buf + 512 < 2 ^ 32
      → places.hdbuf + 512 < 2 ^ 32
      → (buf + 512 ≤ places.hdbuf) ⊎ (places.hdbuf + 512 ≤ buf)
      → (after : HdMachine drive places) × (hd_identify drive places fuel
            (replicate n false ++ true ∷ events)
            cmd
            buf
            m
          ≡ some after)
        × Identified buf m after
  unfolding hd_cmd_out hd_handler eoi_slave
  hd_identify-Identified fuel buf n events cmd m enough fits_buf fits_hdbuf apart =
      let (s1, ended) = wait_ready-some ports ata fuel m.cpu.device enough in
      let device = write_cmd_block ports (identify_cmd cmd) s1 in
      let handled : HdMachine drive places = hd_handler drive places (identifying buf m device) in
      let region =
        (memcpy-Region buf places.hdbuf 512 handled.memory fits_buf fits_hdbuf (ground arith)).1 in
      (
        copied buf m device,
        identified fuel buf n events cmd m device (rw ended refl),
        record {
          memory =
              λ a out out_hdbuf. region.outside a out ∙ handled-outside buf a m device out_hdbuf;
          finished = refl;
          interrupts = refl;
          device = copied-kept fuel buf cmd m s1 ended;
        },
      )
