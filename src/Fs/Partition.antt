-- ===== src/Fs/Partition.antt =====
-- The partition tables, `get_part_information` of boot/fs.c. A result of `none` stands for a write
-- outside of the array, from `primary[4]` or from `logical[10]` on, whose effect is not modelled, and
-- for fuel that has run out.
pub mod Placed
pub mod Stored
pub mod Primary
pub mod Chain
pub mod Information
use finux.Prelude.{
  ℕ, zero, suc, ◌+◌, ◌*◌, ◌==◌, ltb, if◌then◌else◌, Option, none, some, ◌>>=◌, update,
}
use finux.Prelude.Bits.{u32}
use finux.Fs.{Loader, PartTable, word_at, sector_size, primary_max_cnt, logic_max_cnt}

abbrev pub part_table_offset : ℕ
part_table_offset = 0x1be

abbrev pub part_table_end : ℕ
part_table_end = 0x200

abbrev pub part_extended : ℕ
part_extended = 5

-- `(struct part_table *)(&buf[p])`
abbrev pub entry_at : (ℕ → ℕ) → ℕ → PartTable
entry_at buf p = record {
  system_id = buf (p + 4);
  first_lba = word_at buf (p + 8);
  sector_cnt = word_at buf (p + 12);
}

-- `hd_read(lba, 1, buf)` for the buffer on the stack, with `stack` behind its 512 bytes.
abbrev pub read_buf : (stack : ℕ → ℕ) → (lba : ℕ) → (ℕ → ℕ → ℕ) → ℕ → ℕ
read_buf stack lba disk j = if ltb j sector_size then disk lba j else stack j

-- `memcpy(&primary[i], table, sizeof(struct part_table))`
unfoldable pub set_primary : ℕ → PartTable → Loader → Option Loader
set_primary i table s =
    if ltb i primary_max_cnt then some (record s { primary = update s.primary i table }) else none

unfoldable pub set_logical : ℕ → PartTable → Loader → Option Loader
set_logical i table s =
    if ltb i logic_max_cnt then some (record s { logical = update s.logical i table }) else none

-- The first `if` of a round.
abbrev pub set_extended : PartTable → (logic : ℕ) → Loader → Option (ℕ × Loader)
set_extended table logic s =
    let stored = set_logical logic table s >>= λ s1. some (logic + 1, s1) in
    if table.system_id == part_extended then stored else some (logic, s)

-- The first loop, at entry `prim`, with `left` rounds to go: `tab_local` grows by 16 a round, so
-- that it is 0x200 or more after the fifth, and no sixth is entered.
unfoldable pub read_primary :
    (buf : ℕ → ℕ) → (left prim tab_local logic : ℕ) → Loader → Option (ℕ × Loader)
read_primary buf zero prim tab_local logic s = some (logic, s)
read_primary buf (suc left) prim tab_local logic s =
    let table = entry_at buf tab_local in
    let rest = set_extended table logic s >>= λ extended.
    set_primary prim table extended.1 >>= λ s2.
    read_primary buf left (prim + 1) (tab_local + 16) extended.0 s2 in
    if table.system_id == 0
    then some (logic, s)
    else if ltb tab_local part_table_end
    then rest
    else some (logic, s)

-- The second loop, with the sector of the chain in `buf`; `fuel` bounds its length.
unfoldable pub read_chain :
    (stack : ℕ → ℕ) → (fuel : ℕ) → (buf : ℕ → ℕ) → (logic : ℕ) → Loader → Option Loader
read_chain stack zero buf logic s = none
read_chain stack (suc fuel) buf logic s =
    let table = entry_at buf part_table_offset in
    let next = entry_at buf (part_table_offset + 0x10) in
    let rest = set_logical logic table s >>= λ s1.
    let linked = set_logical (logic + 1) next s1 >>= λ s2.
    let lba = u32 (next.first_lba + (s2.logical 0).first_lba) in
    read_chain stack fuel (read_buf stack lba s2.disk) (logic + 2) s2 in
    if next.system_id == 0 then some s1 else linked in
    if table.system_id == 0 then some s else rest

unfoldable pub get_part_information : (stack : ℕ → ℕ) → (fuel : ℕ) → Loader → Option Loader
get_part_information stack fuel s =
    read_primary (read_buf stack 0 s.disk) 5 0 part_table_offset 0 s >>= λ r.
    read_chain stack fuel (read_buf stack ((r.1).logical 0).first_lba (r.1).disk) r.0 r.1
