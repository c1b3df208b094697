-- ===== src/Desc/Fields.antt =====
-- The processor's reading of descriptors, and that the encoders put each field where it is read.
use finux.Prelude.{
  ℕ, ◌+◌, ◌*◌, ◌/◌, ◌%◌, ◌^◌, ◌<◌, ◌≡◌, refl, Bool, true, ==_iff, arith, ◌==◌, ◌∙◌, ap, bit_and,
  bit_or,
}
use finux.Prelude.Bits.{
  ◌<<<◌, ◌>>>◌, bit_or_sum, bit_or_split, bit_or_comm, bit_and_low, bit_and_high, bit_and_split,
  bit_or-zero,
}
use finux.Prelude.Table.{all_below, all_pairs_sound}
use finux.Desc.{Desc, set_gate, gdt_entry_init}

-- A gate as the processor reads it.
pub record Gate : Type 0 where
  pub offset : ℕ
  pub selector : ℕ
  pub type : ℕ
  pub dpl : ℕ
  pub present : ℕ

pub read_gate : Desc → Gate
read_gate d = record {
  offset = d.a % 2 ^ 16 + d.b / 2 ^ 16 * 2 ^ 16;
  selector = d.a / 2 ^ 16;
  type = d.b / 2 ^ 8 % 2 ^ 5;
  dpl = d.b / 2 ^ 13 % 4;
  present = d.b / 2 ^ 15 % 2;
}

-- A segment as the processor reads it: `access` is the access byte, `size` the four bits above
-- the limit.
pub record Segment : Type 0 where
  pub base : ℕ
  pub limit : ℕ
  pub access : ℕ
  pub size : ℕ

pub read_segment : Desc → Segment
read_segment d = record {
  base = d.a / 2 ^ 16 + d.b % 2 ^ 8 * 2 ^ 16 + d.b / 2 ^ 24 * 2 ^ 24;
  limit = d.a % 2 ^ 16 + d.b / 2 ^ 16 % 2 ^ 4 * 2 ^ 16;
  access = d.b / 2 ^ 8 % 2 ^ 8;
  size = d.b / 2 ^ 20 % 2 ^ 4;
}

abbrev access_test : ℕ → ℕ → Bool
access_test t d = bit_and (bit_or (bit_or 0x80 t) (d <<< 5)) 0xff == 0x80 + t + d * 32

access_table : all_below 16 (λ t. all_below 4 (access_test t)) ≡ true
unfolding all_below
access_table = refl

access_byte :
    (t d : ℕ) → t < 16 → d < 4 → bit_and (bit_or (bit_or 0x80 t) (d <<< 5)) 0xff ≡ 0x80 + t + d * 32
access_byte t d ht hd = (==_iff _ _).0 (all_pairs_sound 16 4 access_test t d access_table ht hd)

-- The words of a gate as sums.
set_gate_words :
    (type base dpl seg : ℕ)
    → type < 16
    → base < 2 ^ 32
    → dpl < 4
    → seg < 2 ^ 16
    → set_gate type base dpl seg ≡ record {
      a = seg * 2 ^ 16 + base % 2 ^ 16;
      b = base / 2 ^ 16 * 2 ^ 16 + (0x80 + type + dpl * 32) * 2 ^ 8;
    }
unfolding set_gate
set_gate_words type base dpl seg ht hb hd hs =
    let low : bit_and base 0xffff ≡ base % 2 ^ 16 = bit_and_low 16 base in
    let high : bit_and base 0xffff0000 ≡ base / 2 ^ 16 % 2 ^ 16 * 2 ^ 16 =
      bit_and_high 16 16 base in
    let top : base / 2 ^ 16 % 2 ^ 16 ≡ base / 2 ^ 16 = omega arith in
    rw
      (
        low,
        high,
        top,
        access_byte type dpl ht hd,
        bit_or_sum 16 seg (base % 2 ^ 16) (omega arith),
        bit_or_sum 16 (base / 2 ^ 16) ((0x80 + type + dpl * 32) * 2 ^ 8) (omega arith),
      )
      (ap (λ x. record { a = x; b = base / 2 ^ 16 * 2 ^ 16 + (0x80 + type + dpl * 32) * 2 ^ 8 })
        (omega arith))

-- `set_gate` with a type below 16 makes a present gate with these fields, for 32-bit offsets,
-- 16-bit selectors and privilege levels below 4.
pub set_gate-read_gate :
    (type base dpl seg : ℕ)
    → type < 16
    → base < 2 ^ 32
    → dpl < 4
    → seg < 2 ^ 16
    → read_gate (set_gate type base dpl seg)
      ≡ record { offset = base; selector = seg; type = type; dpl = dpl; present = 1 }
unfolding read_gate
set_gate-read_gate type base dpl seg ht hb hd hs =
    rw (set_gate_words type base dpl seg ht hb hd hs) (ground arith)

low_word :
    (base limit : ℕ)
    → bit_or (bit_and limit 0xffff) (bit_and base 0xffff <<< 16)
      ≡ base % 2 ^ 16 * 2 ^ 16 + limit % 2 ^ 16
low_word base limit =
    rw
      (
        bit_and_low 16 limit,
        bit_and_low 16 base,
        bit_or_comm (limit % 2 ^ 16) (base % 2 ^ 16 * 2 ^ 16),
      )
      (bit_or_sum 16 (base % 2 ^ 16) (limit % 2 ^ 16) (omega arith))

-- `flags & 0xf0ff` keeps the access byte and the top four bits.
flag_bits :
    (flags : ℕ) → flags < 2 ^ 16 → bit_and flags 0xf0ff ≡ flags / 2 ^ 12 * 2 ^ 12 + flags % 2 ^ 8
flag_bits flags h =
    let split =
      bit_and_split 12 (flags / 2 ^ 12) (flags % 2 ^ 12) 15 255 (omega arith) (omega arith) in
    let whole : flags / 2 ^ 12 * 2 ^ 12 + flags % 2 ^ 12 ≡ flags = omega arith in
    ground (arith, split, whole, bit_and_low 4 (flags / 2 ^ 12), bit_and_low 8 (flags % 2 ^ 12))

-- The four fields of the high word.
high_word :
    (h f1 l1 f0 x0 : ℕ)
    → f1 < 2 ^ 4
    → l1 < 2 ^ 4
    → f0 < 2 ^ 8
    → x0 < 2 ^ 8
    → bit_or (bit_or (bit_or x0 ((f1 * 2 ^ 12 + f0) * 2 ^ 8)) (l1 * 2 ^ 16)) (h * 2 ^ 24)
      ≡ h * 2 ^ 24 + (f1 * 2 ^ 20 + l1 * 2 ^ 16 + (f0 * 2 ^ 8 + x0))
high_word h f1 l1 f0 x0 hf hl h0 hx =
    let low : bit_or x0 ((f1 * 2 ^ 12 + f0) * 2 ^ 8) ≡ (f1 * 2 ^ 4) * 2 ^ 16 + (f0 * 2 ^ 8 + x0) =
      bit_or_comm x0 _ ∙ bit_or_sum 8 (f1 * 2 ^ 12 + f0) x0 hx ∙ omega arith in
    let sum = bit_or_split 16 (f1 * 2 ^ 4) (f0 * 2 ^ 8 + x0) l1 0 (omega arith) (omega arith) in
    let pad : l1 * 2 ^ 16 ≡ l1 * 2 ^ 16 + 0 = omega arith in
    let middle : bit_or ((f1 * 2 ^ 4) * 2 ^ 16 + (f0 * 2 ^ 8 + x0)) (l1 * 2 ^ 16)
        ≡ f1 * 2 ^ 20 + l1 * 2 ^ 16 + (f0 * 2 ^ 8 + x0) =
      ap (bit_or _) pad
      ∙ sum
      ∙ omega (arith, bit_or_sum 4 f1 l1 hl, bit_or-zero (f0 * 2 ^ 8 + x0)) in
    rw (low, middle) (bit_or_comm _ (h * 2 ^ 24) ∙ bit_or_sum 24 h _ (omega arith))

-- The words of a segment descriptor as sums.
gdt_entry_init_words :
    (flags base limit : ℕ)
    → flags < 2 ^ 16
    → base < 2 ^ 32
    → limit < 2 ^ 20
    → gdt_entry_init flags base limit ≡ record {
      a = base % 2 ^ 16 * 2 ^ 16 + limit % 2 ^ 16;
      b =
          base / 2 ^ 24 * 2 ^ 24
          + (flags / 2 ^ 12 * 2 ^ 20
              + limit / 2 ^ 16 * 2 ^ 16
              + (flags % 2 ^ 8 * 2 ^ 8 + base / 2 ^ 16 % 2 ^ 8));
    }
unfolding gdt_entry_init
gdt_entry_init_words flags base limit hf hb hl =
    let x0 : bit_and base 0xff0000 >>> 16 ≡ base / 2 ^ 16 % 2 ^ 8 =
      omega (arith, bit_and_high 16 8 base) in
    let l1 : bit_and limit 0xf0000 ≡ limit / 2 ^ 16 * 2 ^ 16 =
      omega (arith, bit_and_high 16 4 limit) in
    let h : bit_and base 0xff000000 ≡ base / 2 ^ 24 * 2 ^ 24 =
      omega (arith, bit_and_high 24 8 base) in
    rw (low_word base limit, flag_bits flags hf, x0, l1, h)
      (ap (λ w. record { a = base % 2 ^ 16 * 2 ^ 16 + limit % 2 ^ 16; b = w })
        (high_word (base / 2 ^ 24) (flags / 2 ^ 12) (limit / 2 ^ 16) (flags % 2 ^ 8)
          (base / 2 ^ 16 % 2 ^ 8) (omega arith) (omega arith) (omega arith) (omega arith)))

-- `GDT_ENTRY_INIT` makes a segment with this base, limit, access byte and size bits, for 16-bit
-- flags, a 32-bit base and a 20-bit limit.
pub gdt_entry_init-read_segment :
    (flags base limit : ℕ)
    → flags < 2 ^ 16
    → base < 2 ^ 32
    → limit < 2 ^ 20
    → read_segment (gdt_entry_init flags base limit)
      ≡ record { base = base; limit = limit; access = flags % 2 ^ 8; size = flags / 2 ^ 12 }
unfolding read_segment
gdt_entry_init-read_segment flags base limit hf hb hl =
    rw (gdt_entry_init_words flags base limit hf hb hl) (ground arith)
