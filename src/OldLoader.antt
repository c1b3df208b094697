-- ===== src/OldLoader.antt =====
-- The first loader, boot/bak/loader.c and boot/bak/loader.h, which the current one replaced. Here: the
-- page tables that it set up. The innermost loop of `Set_Page` is the one of the kernel's `set_page`.
pub mod Counts
pub mod Tables
pub mod Start
use finux.Prelude.{
  ℕ, zero, suc, ◌+◌, ◌*◌, ◌/◌, ◌&&◌, ◌==◌, ltb, if◌then◌else◌, update, bit_and, bit_or,
}
use finux.Prelude.Bits.{u32, ◌<<<◌}
use finux.MemInfo.{E820Ards, read_ards, memory_map_addr}
use finux.Paging.{fill_table}

abbrev pub page_bytes : ℕ
page_bytes = 4096

-- Both counts, of the tables and of the directories, are made this way.
unfoldable pub get_pte_t_num : ℕ → ℕ
get_pte_t_num page_num =
    let count = page_num / 1024 in
    if ltb 0 ((bit_and page_num 0x3ff <<< 10) / 1024) then count + 1 else count

unfoldable pub get_pde_t_num : ℕ → ℕ
get_pde_t_num ptet_num =
    let count = ptet_num / 1024 in
    if ltb 0 ((bit_and ptet_num 0x3ff <<< 10) / 1024) then count + 1 else count

-- The loop of `get_page_num`, with `Start` and `Lenth`.
unfoldable pub highest_usable : (ℕ → E820Ards) → (left i start lenth : ℕ) → ℕ × ℕ
highest_usable map zero i start lenth = (start, lenth)
highest_usable map (suc left) i start lenth =
    let tmp = map i in
    if (tmp.type == 1) && ltb start tmp.baselow
    then highest_usable map left (i + 1) tmp.baselow tmp.lenthlow
    else highest_usable map left (i + 1) start lenth

-- `End`, which wraps around.
unfoldable pub memory_end : (ards_count : ℕ) → (ℕ → E820Ards) → ℕ
memory_end ards_count map =
    let (start, lenth) = highest_usable map (ards_count + 1) 0 0 0 in u32 (start + lenth)

unfoldable pub get_page_num : (ards_count : ℕ) → (ℕ → E820Ards) → ℕ
get_page_num ards_count map =
    let end = memory_end ards_count map in
    let count = end / page_bytes in
    if ltb 0 (u32 (bit_and end 0xfff <<< 12) / page_bytes) then count + 1 else count

abbrev pub page_dir_at : ℕ
page_dir_at = 0x500000

abbrev pub page_table_at : ℕ
page_table_at = 0x501000

-- A `struct page_table`, and a `struct page_dir`, has 4096 entries.
abbrev pub struct_bytes : ℕ
struct_bytes = 4096 * 4

pub record OldTables : Type 0 where
  pub word : ℕ → ℕ
  pub tmp_tab : ℕ
  pub pagebase : ℕ

-- The loop over `PT`.
unfoldable pub fill_old_dir : (tmp_pdr left pt : ℕ) → OldTables → OldTables
fill_old_dir tmp_pdr zero pt s = s
fill_old_dir tmp_pdr (suc left) pt s =
    let entry = bit_or (s.tmp_tab + 4 * pt) 7 in
    let (word, pagebase) =
      fill_table s.tmp_tab 1024 0 s.pagebase (update s.word (tmp_pdr + 4 * pt) entry) in
    fill_old_dir tmp_pdr left (pt + 1)
      (record { word = word; tmp_tab = s.tmp_tab + struct_bytes; pagebase = pagebase })

-- The loop over `PD`.
unfoldable pub fill_old_dirs : (ptet_num left tmp_pdr : ℕ) → OldTables → OldTables
fill_old_dirs ptet_num zero tmp_pdr s = s
fill_old_dirs ptet_num (suc left) tmp_pdr s =
    fill_old_dirs ptet_num left (tmp_pdr + struct_bytes) (fill_old_dir tmp_pdr ptet_num 0 s)

-- The memory by words, and the registers of paging.
pub record Paged : Type 0 where
  pub word : ℕ → ℕ
  pub cr3 : ℕ
  pub cr0 : ℕ

-- The memory map that the BIOS gave, at `memory_map_addr`; an entry has 20 bytes.
abbrev pub ards_at : (ℕ → ℕ) → ℕ → E820Ards
ards_at word i = read_ards word (memory_map_addr + 20 * i)

unfoldable pub old_set_page : (detect_count : ℕ) → Paged → Paged
old_set_page detect_count m =
    let page_num = get_page_num detect_count (ards_at m.word) in
    let ptet_num = get_pte_t_num page_num in
    let pdet_num = get_pde_t_num ptet_num in
    let tables =
      fill_old_dirs ptet_num pdet_num page_dir_at
        (record { word = m.word; tmp_tab = page_table_at; pagebase = 1024 }) in
    record { word = tables.word; cr3 = page_dir_at; cr0 = bit_or m.cr0 0x80000000 }
