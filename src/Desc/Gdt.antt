-- ===== src/Desc/Gdt.antt =====
-- The table that `change_gdt` leaves, and the registers that point into it.
use finux.Prelude.{ℕ, ◌/◌, ◌%◌, ◌^◌, ◌≤◌, ◌<◌, ◌≡◌, refl, ap, ◌⊎◌, ◌∙◌, arith, bit_and}
use finux.Prelude.Bits.{sub32, bit_and_low, bit_and_high}
use finux.Desc.{
  GdtState, gdt_entry_init, change_gdt, load_tss, kcs_local, kds_local, ucs_local, uds_local,
  tss_local, dis_local,
}
use finux.Desc.Fields.{Segment, read_segment, gdt_entry_init-read_segment}

abbrev pub segment : (base limit access size : ℕ) → Segment
segment base limit access size = record { base = base; limit = limit; access = access; size = size }

-- Only 20 bits of a limit count.
gdt_entry_init-limit :
    (flags base limit : ℕ)
    → gdt_entry_init flags base limit ≡ gdt_entry_init flags base (limit % 2 ^ 20)
unfolding gdt_entry_init
gdt_entry_init-limit flags base limit =
    let low : bit_and limit 0xffff ≡ bit_and (limit % 2 ^ 20) 0xffff =
      omega (arith, bit_and_low 16 limit, bit_and_low 16 (limit % 2 ^ 20)) in
    let high : bit_and limit 0xf0000 ≡ bit_and (limit % 2 ^ 20) 0xf0000 =
      omega (arith, bit_and_high 16 4 limit, bit_and_high 16 4 (limit % 2 ^ 20)) in
    rw (low, high)

-- The six descriptors as the processor reads them.
pub record HasSegments (tss_address tss_limit : ℕ) (s : GdtState) : Type 0 where
  pub kernel_code : read_segment (s.gdt kcs_local) ≡ segment 0 0xfffff 0x9b 0xc
  pub kernel_data : read_segment (s.gdt kds_local) ≡ segment 0 0xfffff 0x93 0xc
  pub user_code : read_segment (s.gdt ucs_local) ≡ segment 0 0xfffff 0xfa 0xc
  pub user_data : read_segment (s.gdt uds_local) ≡ segment 0 0xfffff 0xf2 0xc
  pub task : read_segment (s.gdt tss_local) ≡ segment tss_address tss_limit 0x89 0
  pub display : read_segment (s.gdt dis_local) ≡ segment 0xb8000 0xffff 0xf3 0

-- The selectors in the segment registers name the kernel's code, its data and the display.
pub record Selects (s : GdtState) : Type 0 where
  pub code : s.cs / 8 ≡ kcs_local
  pub dataseg : (s.ds / 8 ≡ kds_local) × (s.es ≡ s.ds) × (s.fs ≡ s.ds) × (s.ss ≡ s.ds)
  pub screen : s.gs / 8 ≡ dis_local

-- `change_gdt` leaves flat 4G segments for the kernel and the user, the text screen, and a task
-- state segment whose limit is the length found in the TSS less 1, in 20 bits; the segment
-- registers select among them, and the other entries stay.
pub change_gdt-HasSegments :
    (tss_address gdt_address : ℕ) (s : GdtState)
    → tss_address < 2 ^ 32
    → HasSegments tss_address
        (sub32 s.tss.tss_len 1 % 2 ^ 20)
        (change_gdt tss_address gdt_address s)
      × Selects (change_gdt tss_address gdt_address s)
      × ((n : ℕ) → (n < 4) ⊎ (10 ≤ n) → (change_gdt tss_address gdt_address s).gdt n ≡ s.gdt n)
unfolding change_gdt
change_gdt-HasSegments tss_address gdt_address s fits = (
  record {
    kernel_code =
        gdt_entry_init-read_segment 0xc09b 0 0xfffff (omega arith) (omega arith) (omega arith);
    kernel_data =
        gdt_entry_init-read_segment 0xc093 0 0xfffff (omega arith) (omega arith) (omega arith);
    user_code =
        gdt_entry_init-read_segment 0xc0fa 0 0xfffff (omega arith) (omega arith) (omega arith);
    user_data =
        gdt_entry_init-read_segment 0xc0f2 0 0xfffff (omega arith) (omega arith) (omega arith);
    task = rw (gdt_entry_init-limit 0x0089 tss_address (sub32 s.tss.tss_len 1)) (
        gdt_entry_init-read_segment 0x0089 tss_address (sub32 s.tss.tss_len 1 % 2 ^ 20)
          (omega arith) fits (omega arith));
    display =
        gdt_entry_init-read_segment 0x00f3 0xb8000 0xffff (omega arith) (omega arith) (omega arith);
  },
  record { code = refl; dataseg = (refl, refl, refl, refl); screen = refl },
  λ n h. ground arith,
)

-- `start_kernel` sets the length of the TSS only after `change_gdt` has read it. From a TSS of
-- zeros the descriptor gets the limit 0xfffff, and `load_tss`, which sets the length 105, leaves
-- the descriptor as it is.
pub load_tss-limit :
    (tss_address gdt_address : ℕ) (s : GdtState)
    → tss_address < 2 ^ 32
    → s.tss.tss_len ≡ 0
    → let s' = load_tss (change_gdt tss_address gdt_address s) in
      ((read_segment (s'.gdt tss_local)).limit ≡ 0xfffff) × (s'.tss.tss_len ≡ 105)
unfolding load_tss
load_tss-limit tss_address gdt_address s fits zeros =
    let task = (change_gdt-HasSegments tss_address gdt_address s fits).0.task in
    (ap (λ (g : Segment). g.limit) task ∙ omega (arith, zeros), refl)
