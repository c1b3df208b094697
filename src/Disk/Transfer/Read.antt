-- ===== src/Disk/Transfer/Read.antt =====
-- A read with its interrupt: what the caller's buffer holds, and that it is the reading of a sector.
use finux.Prelude.{
  ℕ, zero, suc, ◌+◌, ◌-◌, ◌^◌, ◌≤◌, ◌<◌, ◌≡◌, ◌≢◌, ◌⊎◌, refl, ◌∙◌, ap, arith, Bool, true, false,
  List, ◌∷◌, ◌++◌, replicate, some, none, leb, ltb, ◌&&◌, ◌==◌, if◌then◌else◌,
}
use finux.Strings.{memcpy}
use finux.Strings.Copies.{memcpy-Region}
use finux.Disk.Transfer.{
  DataPorts, HdPlaces, HdMachine, with_device, port_read, hd_handler, wait_handler, io_delays,
}

module _ (drive : DataPorts) (places : HdPlaces) where
  open drive use {ports, insw}

  -- The waiting loop goes on as long as no interrupt comes.
  wait_handler-quiet :
      (n command : ℕ) (events : List Bool) (m : HdMachine drive places)
      → m.hd.cmdnow ≡ command
      → wait_handler drive places command (replicate n false ++ events) m
        ≡ wait_handler drive places command events m
  unfolding wait_handler
  wait_handler-quiet zero command events m same = refl
  wait_handler-quiet (suc n) command events m same =
      let busy : (m.hd.cmdnow == command) ≡ true = ground (arith, same) in
      rw busy (wait_handler-quiet n command events m same)

  hd_handler-none : (m : HdMachine drive places) → (hd_handler drive places m).hd.cmdnow ≡ 0
  unfolding hd_handler
  hd_handler-none m = refl

  -- It ends with the interrupt, for a command that is not 0.
  pub wait_handler-interrupt :
      (n command : ℕ) (events : List Bool) (m : HdMachine drive places)
      → m.hd.cmdnow ≡ command
      → command ≢ 0
      → wait_handler drive places command (replicate n false ++ true ∷ events) m
        ≡ some (hd_handler drive places m)
  unfolding wait_handler hd_handler
  wait_handler-interrupt n command events m same other =
      let done : (0 == command) ≡ false = ground (arith, other) in
      wait_handler-quiet n command (true ∷ events) m same ∙ rw done refl

  -- Without one it never ends.
  pub wait_handler-never :
      (n command : ℕ) (m : HdMachine drive places)
      → m.hd.cmdnow ≡ command
      → wait_handler drive places command (replicate n false) m ≡ none
  unfolding wait_handler
  wait_handler-never zero command m same = refl
  wait_handler-never (suc n) command m same =
      let busy : (m.hd.cmdnow == command) ≡ true = ground (arith, same) in
      rw busy (wait_handler-never n command m same)

  -- The memory after the handler has run and `memcpy` has copied its buffer.
  module _ (m : HdMachine drive places) (device : ports.State) (lba buf : ℕ) where
    abbrev pub asked : HdMachine drive places
    asked = with_device drive places (io_delays drive places 1000 device) (record m {
      hd = record {
        cmdnow = 0x20;
        handler = places.port_read_at;
        buf = buf;
        bufsize = 512;
        port = 0x1f0;
        sectorcnt = 1;
      };
    })

    abbrev pub given : ℕ → ℕ
    given = (insw 0x1f0 256 (io_delays drive places 1000 device)).0

    handled-memory :
        (a : ℕ)
        → (hd_handler drive places asked).memory a ≡ (
            if leb places.hdbuf a && ltb a (places.hdbuf + 512)
            then given (a - places.hdbuf)
            else m.memory a)
    unfolding hd_handler port_read
    handled-memory a = refl

    pub handled-bufsize : (hd_handler drive places asked).hd.bufsize ≡ 512
    unfolding hd_handler port_read
    handled-bufsize = refl

    abbrev pub copied : ℕ → ℕ
    copied = (memcpy buf places.hdbuf 512 (hd_handler drive places asked).memory).1

    pub copied-given :
        buf + 512 < 2 ^ 32
        → places.hdbuf + 512 < 2 ^ 32
        → (buf + 512 ≤ places.hdbuf) ⊎ (places.hdbuf + 512 ≤ buf)
        → ((j : ℕ) → j < 512 → copied (buf + j) ≡ given j)
          × ((a : ℕ)
              → (a < buf) ⊎ (buf + 512 ≤ a)
              → (a < places.hdbuf) ⊎ (places.hdbuf + 512 ≤ a)
              → copied a ≡ m.memory a)
    copied-given fits_buf fits_hdbuf apart =
        let region =
          (memcpy-Region buf places.hdbuf 512 (hd_handler drive places asked).memory fits_buf
            fits_hdbuf (ground (arith, apart))).1 in
        (
          λ j low.
              let back : places.hdbuf + j - places.hdbuf ≡ j = omega arith in
              region.inside j low
              ∙ handled-memory (places.hdbuf + j)
              ∙ ground (arith, low, ap given back),
          λ a out out_hdbuf. region.outside a out ∙ handled-memory a ∙ ground (arith, out_hdbuf),
        )
