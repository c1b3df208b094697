-- ===== src/OldLoader/Tables.antt =====
-- The translation by the tables of the first loader.
use finux.Prelude.{
  ℕ, zero, suc, ◌+◌, ◌*◌, ◌/◌, ◌%◌, ◌^◌, ◌≤◌, ◌<◌, ◌≡◌, refl, ◌∙◌, ap, ◌⊎◌, inl, inr, arith, true,
  ◌==◌, ==_iff, update, some, bit_or,
}
use finux.Prelude.Bits.{u32, bit_or_split, bit_or-zero}
use finux.Prelude.Table.{all_below, all_below_sound}
use finux.Page.{page_size}
use finux.Paging.Fill.{pte_from, Filled, fill_table-Filled}
use finux.Paging.Identity.{translate, translate_walk}
use finux.OldLoader.{
  Paged, page_dir_at, page_table_at, struct_bytes, ards_at, memory_end, get_page_num, get_pte_t_num,
  get_pde_t_num, fill_old_dir, fill_old_dirs, old_set_page,
}
use finux.OldLoader.Counts.{get_page_num-ceiling, get_pte_t_num-ceiling, get_pde_t_num-ceiling}

flags_table : all_below 8 (λ r. bit_or r 7 == 7) ≡ true
unfolding all_below
flags_table = refl

-- Entries have their three lowest bits set.
bit_or-flags : (x : ℕ) → bit_or x 7 ≡ x / 8 * 8 + 7
bit_or-flags x =
    let parts : x ≡ x / 8 * 2 ^ 3 + x % 8 = omega arith in
    let low : bit_or (x % 8) 7 ≡ 7 =
      (==_iff _ _).0 (all_below_sound 8 (λ r. bit_or r 7 == 7) (x % 8) flags_table (omega arith)) in
    ap (λ y. bit_or y 7) parts
    ∙ bit_or_split 3 (x / 8) (x % 8) 0 7 (omega arith) (omega arith)
    ∙ omega (arith, low, bit_or-zero (x / 8))

-- `left` tables from `table` on, for the pages from `n` on, and their entries in the directory.
record FilledOld (dir left pt table n : ℕ) (word word' : ℕ → ℕ) : Type 0 where
  entries :
      (t k : ℕ)
      → t < left
      → k < 1024
      → word' (table + struct_bytes * t + 4 * k) ≡ pte_from 1024 (n + 1024 * t + k)
  tables :
      (t : ℕ)
      → t < left
      → word' (dir + 4 * (pt + t)) ≡ bit_or (table + struct_bytes * t + 4 * (pt + t)) 7
  outside :
      (a : ℕ) → a < table → (a < dir + 4 * pt) ⊎ (dir + 4 * (pt + left) ≤ a) → word' a ≡ word a

module _ (dir left pt table n : ℕ) (word : ℕ → ℕ) (r : (ℕ → ℕ) × ℕ) (word' : ℕ → ℕ)
    (room : dir + 4 * (pt + suc left) ≤ table)
    (first : Filled 1024 table 1024 0 n (update word (dir + 4 * pt) (bit_or (table + 4 * pt) 7)) r)
    (rest : FilledOld dir left (pt + 1) (table + struct_bytes) (n + 1024) r.0 word') where
  old-entries :
      (t k : ℕ)
      → t < suc left
      → k < 1024
      → word' (table + struct_bytes * t + 4 * k) ≡ pte_from 1024 (n + 1024 * t + k)
  old-entries zero k h hk =
      let e : table + struct_bytes * 0 + 4 * k ≡ table + 4 * (0 + k) = omega arith in
      let e' : n + 1024 * 0 + k ≡ n + k = omega arith in
      rw (e, e')
        (rest.outside (table + 4 * (0 + k)) (omega arith) (inr (omega arith)) ∙ first.entries k hk)
  old-entries (suc t) k h hk =
      let e : table + struct_bytes * suc t + 4 * k
          ≡ table + struct_bytes + struct_bytes * t + 4 * k =
        omega arith in
      let e' : n + 1024 * suc t + k ≡ n + 1024 + 1024 * t + k = omega arith in
      rw (e, e') (rest.entries t k (omega arith) hk)

  old-tables :
      (t : ℕ)
      → t < suc left
      → word' (dir + 4 * (pt + t)) ≡ bit_or (table + struct_bytes * t + 4 * (pt + t)) 7
  old-tables zero h =
      let e : dir + 4 * (pt + 0) ≡ dir + 4 * pt = omega arith in
      let e' : table + struct_bytes * 0 + 4 * (pt + 0) ≡ table + 4 * pt = omega arith in
      let later = rest.outside (dir + 4 * pt) (omega arith) (inl (omega arith)) in
      let here = first.outside (dir + 4 * pt) (inl (omega arith)) in
      rw (e, e') (later ∙ here ∙ ground arith)
  old-tables (suc t) h =
      let e : dir + 4 * (pt + suc t) ≡ dir + 4 * (pt + 1 + t) = omega arith in
      let e' : table + struct_bytes * suc t + 4 * (pt + suc t)
          ≡ table + struct_bytes + struct_bytes * t + 4 * (pt + 1 + t) =
        omega arith in
      rw (e, e') (rest.tables t (omega arith))

  FilledOld-suc : FilledOld dir (suc left) pt table n word word'
  FilledOld-suc = record {
    entries = old-entries;
    tables = old-tables;
    outside = λ a low h. ground (arith, rest.outside a, first.outside a);
  }

fill_old_dir-Filled :
    (dir left pt table n : ℕ) (word : ℕ → ℕ)
    → dir + 4 * (pt + left) ≤ table
    → FilledOld dir left pt table n word
        (fill_old_dir dir left pt
          (record { word = word; tmp_tab = table; pagebase = u32 (n * page_size + 1024) })).word
unfolding fill_old_dir
fill_old_dir-Filled dir zero pt table n word room = record {
  entries = λ t k h. absurd (omega arith);
  tables = λ t h. absurd (omega arith);
  outside = λ a low h. refl;
}
fill_old_dir-Filled dir (suc left) pt table n word room =
    let filled =
      fill_table-Filled 1024 table 1024 0 n
        (update word (dir + 4 * pt) (bit_or (table + 4 * pt) 7)) in
    rw (fill_old_dir, filled.base)
      (FilledOld-suc dir left pt table n word _ _ room filled
        (fill_old_dir-Filled dir left (pt + 1) (table + struct_bytes) (n + 1024) _ (omega arith)))

-- One directory maps the first `cnt` times 4M to themselves, although its entries hold bits of the
-- entry's number beside the flags, and those of the tables bit 10.
translate-FilledOld :
    (cnt v : ℕ) (word word' : ℕ → ℕ)
    → cnt ≤ 1024
    → v < cnt * 2 ^ 22
    → FilledOld page_dir_at cnt 0 page_table_at 0 word word'
    → translate word' page_dir_at v ≡ some v
translate-FilledOld cnt v word word' few low filled =
    let t = v / 2 ^ 22 in
    let d = page_table_at + struct_bytes * t + 4 * (0 + t) in
    let at : page_dir_at + 4 * t ≡ page_dir_at + 4 * (0 + t) = omega arith in
    let dir : word' (page_dir_at + 4 * t) ≡ d / 8 * 8 + 7 =
      ap word' at ∙ filled.tables t (omega arith) ∙ bit_or-flags d in
    let frame : (d / 8 * 8 + 7) / 4096 * 4096 ≡ page_table_at + struct_bytes * t = omega arith in
    let n : 0 + 1024 * t + v / 4096 % 1024 ≡ v / 4096 = omega arith in
    let base = u32 (v / 4096 * page_size + 1024) in
    let entry : word' ((d / 8 * 8 + 7) / 4096 * 4096 + 4 * (v / 4096 % 1024)) ≡ base / 8 * 8 + 7 =
      rw frame (
        filled.entries t (v / 4096 % 1024) (omega arith) (omega arith)
        ∙ ap (pte_from 1024) n
        ∙ bit_or-flags base) in
    translate_walk word' page_dir_at v _ _ dir entry (omega arith) (omega arith)
    ∙ ap some (omega arith)

-- The number of tables for a memory map.
abbrev pub tables_for : ℕ → (ℕ → ℕ) → ℕ
tables_for detect_count word = get_pte_t_num (get_page_num detect_count (ards_at word))

tables_for-lt :
    (detect_count v : ℕ) (word : ℕ → ℕ)
    → v < memory_end detect_count (ards_at word)
    → (tables_for detect_count word ≤ 1024) × (v < tables_for detect_count word * 2 ^ 22)
unfolding memory_end
tables_for-lt detect_count v word low =
    let pages = get_page_num-ceiling detect_count (ards_at word) in
    let tables = get_pte_t_num-ceiling (get_page_num detect_count (ards_at word)) in
    (omega (arith, pages, tables), omega (arith, pages, tables))

old_set_page-FilledOld :
    (detect_count : ℕ) (m : Paged)
    → let cnt = tables_for detect_count m.word in
      0 < cnt
      → cnt ≤ 1024
      → FilledOld page_dir_at cnt 0 page_table_at 0 m.word (old_set_page detect_count m).word
unfolding old_set_page fill_old_dirs
old_set_page-FilledOld detect_count m some_table few =
    let cnt = tables_for detect_count m.word in
    let one : get_pde_t_num cnt ≡ 1 = omega (arith, get_pde_t_num-ceiling cnt) in
    rw one (fill_old_dir-Filled page_dir_at cnt 0 page_table_at 0 m.word (omega arith))

-- The tables that `Set_Page` builds translate every address below the end of the memory, as
-- `get_page_num` takes it from the memory map, to itself.
pub old_set_page-translate :
    (detect_count v : ℕ) (m : Paged)
    → v < memory_end detect_count (ards_at m.word)
    → translate (old_set_page detect_count m).word (old_set_page detect_count m).cr3 v ≡ some v
old_set_page-translate detect_count v m low =
    let (few, below) = tables_for-lt detect_count v m.word low in
    let cr3 : (old_set_page detect_count m).cr3 ≡ page_dir_at = unfold old_set_page in refl in
    rw cr3 (
      translate-FilledOld (tables_for detect_count m.word) v m.word _ few below
        (old_set_page-FilledOld detect_count m (omega arith) few))
