-- ===== src/Paging/Identity.antt =====
-- After `set_page` the processor's translation is the identity.
use finux.Prelude.{
  ℕ, ◌+◌, ◌*◌, ◌/◌, ◌%◌, ◌^◌, ◌≤◌, ◌<◌, ◌≡◌, refl, false, Option, none, some, arith, leb, ◌==◌, ◌∙◌,
  if◌then◌else◌,
}
use finux.Prelude.Bits.{u32, bit_or_sum}
use finux.MemInfo.{MemInfo}
use finux.Page.{page_size, map_base}
use finux.Paging.{
  Machine, page_dir_local, page_table_local, get_page_cnt, get_ptet_cnt, fill_dirs, write_map,
  set_page,
}
use finux.Paging.Fill.{pte, FilledDir, fill_dir-Filled}

-- The two-level translation of the x86 processor: the directory at `cr3`, the table that its entry
-- names, and the page that the table's entry names; an entry with bit 0 clear is a page fault.
pub translate : (ℕ → ℕ) → ℕ → ℕ → Option ℕ
translate word cr3 v =
    let entry = word (cr3 + 4 * (v / 2 ^ 22)) in
    let table_entry = word (entry / 4096 * 4096 + 4 * (v / 4096 % 1024)) in
    if entry % 2 == 0
    then none
    else if table_entry % 2 == 0
    then none
    else some (table_entry / 4096 * 4096 + v % 4096)

pte_lem : (n : ℕ) → n < 2 ^ 20 → pte n ≡ n * 4096 + 7
pte_lem n h =
    let whole : u32 (n * page_size + 0) ≡ n * 2 ^ 12 = omega arith in
    rw whole (bit_or_sum 12 n 7 (omega arith))

-- A walk through two entries that are present.
pub translate_walk :
    (word : ℕ → ℕ) (cr3 v d e : ℕ)
    → word (cr3 + 4 * (v / 2 ^ 22)) ≡ d
    → word (d / 4096 * 4096 + 4 * (v / 4096 % 1024)) ≡ e
    → d % 2 ≡ 1
    → e % 2 ≡ 1
    → translate word cr3 v ≡ some (e / 4096 * 4096 + v % 4096)
unfolding translate
translate_walk word cr3 v d e hd he odd odd' =
    rw (hd, he)
      (let one : (d % 2 == 0) ≡ false = ground arith in
        let two : (e % 2 == 0) ≡ false = ground arith in rw (one, two))

-- One directory suffices, since an address has 32 bits.
abbrev pub tables_needed : MemInfo → ℕ
tables_needed info = get_ptet_cnt (get_page_cnt info)

tables_bounds : (info : MemInfo) → tables_needed info ≤ 1024
unfolding get_ptet_cnt get_page_cnt
tables_bounds info = omega arith

one_directory : (n : ℕ) → 0 < n → n ≤ 1024 → get_ptet_cnt n ≡ 1
unfolding get_ptet_cnt
one_directory n low high = omega arith

-- What the loops leave, before the map is cleared.
abbrev tables_of : MemInfo → Machine → ℕ → ℕ
tables_of info m =
    (fill_dirs (tables_needed info) (get_ptet_cnt (tables_needed info)) page_dir_local
      (record { word = m.word; tmptable = page_table_local; pagebase = page_size * 0 })).word

tables_of-FilledDir :
    (info : MemInfo) (m : Machine)
    → 0 < tables_needed info
    → FilledDir page_dir_local (tables_needed info) 0 page_table_local 0 m.word (tables_of info m)
unfolding fill_dirs
tables_of-FilledDir info m some_table =
    rw (tables_of, one_directory (tables_needed info) some_table (tables_bounds info))
      (fill_dir-Filled page_dir_local (tables_needed info) 0 page_table_local 0 m.word
        (omega (arith, tables_bounds info)))

-- Below the map the memory is what the loops left.
set_page-below :
    (info : MemInfo) (m : Machine) (a : ℕ)
    → a < map_base
    → (set_page info m).word a ≡ tables_of info m a
unfolding set_page write_map
set_page-below info m a low = let below : leb map_base a ≡ false = ground arith in rw below refl

-- From 256 tables on, that is for more than 1020M, the tables run over the address 2M, where the
-- loader has put the kernel.
pub set_page-overwrites :
    (info : MemInfo) (m : Machine)
    → 256 ≤ tables_needed info
    → (set_page info m).word 0x200000 ≡ 255 * 1024 * page_size + 7
set_page-overwrites info m many =
    set_page-below info m 0x200000 (omega arith)
    ∙ (tables_of-FilledDir info m (omega arith)).entries 255 0 (omega arith) (omega arith)
    ∙ pte_lem (255 * 1024) (omega arith)
