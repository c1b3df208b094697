-- ===== src/Desc.antt =====
-- Segment and gate descriptors: include/sys/desc_struct.h, include/sys/gdt.h and
-- kernel/desc/gdt.c.
pub mod Fields
pub mod Gdt
use finux.Prelude.{ℕ, ◌+◌, ◌-◌, ◌*◌, ◌/◌, ◌%◌, ◌^◌, update, bit_and, bit_or}
use finux.Prelude.Bits.{u16, u32, ◌<<<◌, ◌>>>◌, sub32}

-- `struct desc_struct`, by its two words.
pub record Desc : Type 0 where
  pub a : ℕ
  pub b : ℕ

unfoldable pub set_gate : (type base dpl seg : ℕ) → Desc
set_gate type base dpl seg = record {
  a = u32 (bit_or (seg <<< 16) (bit_and base 0xffff));
  b = bit_or (bit_and base 0xffff0000) (bit_and (bit_or (bit_or 0x80 type) (dpl <<< 5)) 0xff <<< 8);
}

-- `GDT_ENTRY_INIT`
unfoldable pub gdt_entry_init : (flags base limit : ℕ) → Desc
gdt_entry_init flags base limit = record {
  a = bit_or (bit_and limit 0xffff) (bit_and base 0xffff <<< 16);
  b =
      bit_or
        (bit_or (bit_or (bit_and base 0xff0000 >>> 16) (bit_and flags 0xf0ff <<< 8))
          (bit_and limit 0xf0000))
        (bit_and base 0xff000000);
}

abbrev pub gdtnum : ℕ
gdtnum = 32

-- The entries of the table.
abbrev pub kcs_local : ℕ
kcs_local = 4

abbrev pub kds_local : ℕ
kds_local = 5

abbrev pub ucs_local : ℕ
ucs_local = 6

abbrev pub uds_local : ℕ
uds_local = 7

abbrev pub tss_local : ℕ
tss_local = 8

abbrev pub dis_local : ℕ
dis_local = 9

-- The selectors.
abbrev pub kernel_cs : ℕ
kernel_cs = kcs_local <<< 3

abbrev pub kernel_ds : ℕ
kernel_ds = kds_local <<< 3

abbrev pub user_cs : ℕ
user_cs = bit_or (ucs_local <<< 3) 3

abbrev pub user_ds : ℕ
user_ds = bit_or (uds_local <<< 3) 3

abbrev pub kernel_tss : ℕ
kernel_tss = tss_local <<< 3

abbrev pub dis_gs : ℕ
dis_gs = dis_local <<< 3

-- `struct desc_ptr`
pub record DescPtr : Type 0 where
  pub size : ℕ
  pub address : ℕ

-- The fields of `struct tss_struct` that the code sets; the structure has 109 bytes, and `tss_len`
-- stands at byte 105.
pub record TssStruct : Type 0 where
  pub sp0 : ℕ
  pub ss0 : ℕ
  pub io_bitmap_base : ℕ
  pub io_map_end : ℕ
  pub tss_len : ℕ

-- The globals of gdt.c and the registers that it loads.
pub record GdtState : Type 0 where
  pub gdt : ℕ → Desc
  pub gdt_ptr : DescPtr
  pub tss : TssStruct
  pub gdtr : DescPtr
  pub tr : ℕ
  pub cs : ℕ
  pub ds : ℕ
  pub es : ℕ
  pub fs : ℕ
  pub ss : ℕ
  pub gs : ℕ

unfoldable pub load_tss : GdtState → GdtState
load_tss s = record s {
  tss = record {
    sp0 = 0x1fffff;
    ss0 = kernel_ds;
    io_bitmap_base = 109;
    io_map_end = 0xff;
    tss_len = 105;
  };
  tr = kernel_tss;
}

unfoldable pub set_tss_esp : ℕ → GdtState → GdtState
set_tss_esp esp s = record s { tss = record (s.tss) { sp0 = esp } }

-- `&tss` and `&gdt` are parameters. The far jump at the end loads `cs`.
unfoldable pub change_gdt : (tss_address gdt_address : ℕ) → GdtState → GdtState
change_gdt tss_address gdt_address s =
    let gdt1 = update s.gdt kcs_local (gdt_entry_init 0xc09b 0 0xfffff) in
    let gdt2 = update gdt1 kds_local (gdt_entry_init 0xc093 0 0xfffff) in
    let gdt3 = update gdt2 ucs_local (gdt_entry_init 0xc0fa 0 0xfffff) in
    let gdt4 = update gdt3 uds_local (gdt_entry_init 0xc0f2 0 0xfffff) in
    let gdt5 = update gdt4 tss_local (gdt_entry_init 0x0089 tss_address (sub32 s.tss.tss_len 1)) in
    let gdt6 = update gdt5 dis_local (gdt_entry_init 0x00f3 0xb8000 0xffff) in
    let gdt_ptr : DescPtr = record { size = gdtnum * 8 - 1; address = gdt_address } in
    record s {
      gdt = gdt6;
      gdt_ptr = gdt_ptr;
      gdtr = gdt_ptr;
      cs = 0x20;
      ds = kernel_ds;
      es = kernel_ds;
      fs = kernel_ds;
      ss = kernel_ds;
      gs = dis_gs;
    }
