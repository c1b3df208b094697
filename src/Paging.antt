-- ===== src/Paging.antt =====
-- `set_page` of kernel/mm/page.c: the page directory and the page tables, and the counts that size
-- them. Words of memory stand at their byte addresses.
pub mod Fill
pub mod Identity
use finux.Prelude.{
  ℕ, zero, suc, ◌+◌, ◌-◌, ◌*◌, ◌/◌, ◌%◌, ◌^◌, ◌==◌, ◌&&◌, ◌||◌, ltb, leb, if◌then◌else◌, update,
  bit_and, bit_or,
}
use finux.Prelude.Bits.{u32}
use finux.MemInfo.{E820Ards, MemInfo}
use finux.Page.{Pages, page_size, map_base, init_page_bit_map}

-- `PAGE_ENTRYS`
abbrev pub page_entrys : ℕ
page_entrys = page_size / 4

abbrev pub page_dir_local : ℕ
page_dir_local = 0x100000

abbrev pub page_table_local : ℕ
page_table_local = 0x101000

-- The loop of `get_page_cnt`: the last usable entry, or else the first entry.
unfoldable pub last_usable : (ℕ → E820Ards) → ℕ → ℕ → E820Ards → E820Ards
last_usable map zero i tmp_map = tmp_map
last_usable map (suc left) i tmp_map =
    let entry = map i in last_usable map left (i + 1) (if entry.type == 1 then entry else tmp_map)

unfoldable pub end_address : MemInfo → ℕ
unfolding last_usable
end_address info =
    let tmp_map =
      last_usable info.memory_map info.kernel_info.memory_map_cnt 0 (info.memory_map 0) in
    u32 (tmp_map.baselow + tmp_map.lenthlow)

unfoldable pub get_page_cnt : MemInfo → ℕ
get_page_cnt info = u32 (end_address info + page_size - 1) / page_size

unfoldable pub get_ptet_cnt : ℕ → ℕ
get_ptet_cnt page_cnt = u32 (page_cnt + 1023) / 1024

-- The innermost loop: the table's entries from `pg` on, and the next `pagebase`.
unfoldable pub fill_table : (table left pg pagebase : ℕ) → (ℕ → ℕ) → (ℕ → ℕ) × ℕ
fill_table table zero pg pagebase word = (word, pagebase)
fill_table table (suc left) pg pagebase word =
    fill_table table left (pg + 1) (u32 (pagebase + page_size))
      (update word (table + 4 * pg) (bit_or pagebase 7))

-- `tmptable & ~(PAGE_SIZE-1) | 0x7`
abbrev pub pde : ℕ → ℕ
pde table = bit_or (bit_and table (2 ^ 32 - page_size)) 7

pub record Tables : Type 0 where
  pub word : ℕ → ℕ
  pub tmptable : ℕ
  pub pagebase : ℕ

-- The loop over the entries of one directory, from `pt` on.
unfoldable pub fill_dir : (dir left pt : ℕ) → Tables → Tables
fill_dir dir zero pt s = s
fill_dir dir (suc left) pt s =
    let (word, pagebase) =
      fill_table s.tmptable page_entrys 0 s.pagebase
        (update s.word (dir + 4 * pt) (pde s.tmptable)) in
    fill_dir dir left (pt + 1)
      (record { word = word; tmptable = s.tmptable + page_size; pagebase = pagebase })

-- The loop over the directories; each gets as many entries as there are tables.
unfoldable pub fill_dirs : (ptet_cnt left dir : ℕ) → Tables → Tables
fill_dirs ptet_cnt zero dir s = s
fill_dirs ptet_cnt (suc left) dir s =
    fill_dirs ptet_cnt left (dir + page_size) (fill_dir dir ptet_cnt 0 s)

-- Memory and the registers and globals that `set_page` writes; the bytes of `bit_map` stand in the
-- memory, from `map_base` on.
pub record Machine : Type 0 where
  pub word : ℕ → ℕ
  pub cr3 : ℕ
  pub cr0 : ℕ
  pub pages : Pages

-- The bytes of `page_bit_map` in the memory.
abbrev pub map_bytes : (ℕ → ℕ) → ℕ → ℕ
map_bytes word i = word (map_base + i / 4 * 4) / 2 ^ (8 * (i % 4)) % 256

-- The memory when the first `cnt` bytes of the map, and its first byte in any case, were written.
unfoldable pub write_map : (bit_map : ℕ → ℕ) → (cnt : ℕ) → (ℕ → ℕ) → ℕ → ℕ
write_map bit_map cnt word a =
    let i = a - map_base in
    if leb map_base a && (ltb i cnt || (i == 0))
    then bit_map i + 2 ^ 8 * bit_map (i + 1) + 2 ^ 16 * bit_map (i + 2) + 2 ^ 24 * bit_map (i + 3)
    else word a

unfoldable pub set_page : MemInfo → Machine → Machine
set_page info m =
    let page_cnt = get_page_cnt info in
    let ptet_cnt = get_ptet_cnt page_cnt in
    let pdet_cnt = get_ptet_cnt ptet_cnt in
    let tables =
      fill_dirs ptet_cnt pdet_cnt page_dir_local
        (record { word = m.word; tmptable = page_table_local; pagebase = page_size * 0 }) in
    let pages = init_page_bit_map info (record (m.pages) { bit_map = map_bytes tables.word }) in
    record {
      word = write_map pages.bit_map pages.page_bit_map_cnt tables.word;
      cr3 = page_dir_local;
      cr0 = bit_or m.cr0 0x80000000;
      pages = pages;
    }
