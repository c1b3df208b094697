-- ===== src/Paging/Fill.antt =====
-- What the loops of `set_page` write.
use finux.Prelude.{
  ℕ, zero, suc, ◌+◌, ◌*◌, ◌≤◌, ◌<◌, ◌≡◌, refl, ◌⊎◌, inl, inr, arith, update, bit_or, ◌∙◌,
}
use finux.Prelude.Bits.{u32}
use finux.Page.{page_size}
use finux.Paging.{pde, fill_table, fill_dir}

-- The entry of page `n`, when the first page base is `offset`.
abbrev pub pte_from : ℕ → ℕ → ℕ
pte_from offset n = bit_or (u32 (n * page_size + offset)) 7

pub record Filled (offset table left pg n : ℕ) (word : ℕ → ℕ) (r : (ℕ → ℕ) × ℕ) : Type 0 where
  pub entries : (k : ℕ) → k < left → (r.0) (table + 4 * (pg + k)) ≡ pte_from offset (n + k)
  pub outside : (a : ℕ) → (a < table + 4 * pg) ⊎ (table + 4 * (pg + left) ≤ a) → (r.0) a ≡ word a
  pub base : r.1 ≡ u32 ((n + left) * page_size + offset)

module _ (offset table left pg n : ℕ) (word : ℕ → ℕ) (r : (ℕ → ℕ) × ℕ)
    (rest : Filled offset table left
      (pg + 1)
      (n + 1)
      (update word (table + 4 * pg) (pte_from offset n))
      r) where
  Filled-entries : (k : ℕ) → k < suc left → (r.0) (table + 4 * (pg + k)) ≡ pte_from offset (n + k)
  Filled-entries zero h =
      let e : table + 4 * (pg + 0) ≡ table + 4 * pg = omega arith in
      let e' : n + 0 ≡ n = omega arith in rw (e, e') (ground (arith, rest.outside (table + 4 * pg)))
  Filled-entries (suc k) h =
      let e : pg + suc k ≡ pg + 1 + k = omega arith in
      let e' : n + suc k ≡ n + 1 + k = omega arith in rw (e, e') (rest.entries k (omega arith))

  Filled-suc : Filled offset table (suc left) pg n word r
  Filled-suc = record {
    entries = Filled-entries;
    outside = λ a h. ground (arith, rest.outside a);
    base = omega (arith, rest.base);
  }

pub fill_table-Filled :
    (offset table left pg n : ℕ) (word : ℕ → ℕ)
    → Filled offset table left pg n word
        (fill_table table left pg (u32 (n * page_size + offset)) word)
unfolding fill_table
fill_table-Filled offset table zero pg n word = record {
  entries = λ k h. absurd (omega arith);
  outside = λ a h. refl;
  base = omega arith;
}
fill_table-Filled offset table (suc left) pg n word =
    let next : u32 (u32 (n * page_size + offset) + page_size) ≡ u32 ((n + 1) * page_size + offset) =
      omega arith in
    rw (fill_table, next)
      (Filled-suc offset table left pg n word _ (
        fill_table-Filled offset table left (pg + 1) (n + 1)
          (update word (table + 4 * pg) (pte_from offset n))))

-- The entry of page `n` from page 0 on.
abbrev pub pte : ℕ → ℕ
pte n = pte_from 0 n

-- `left` tables from `table` on, for the pages from `n` on, and their entries in the directory.
pub record FilledDir (dir left pt table n : ℕ) (word word' : ℕ → ℕ) : Type 0 where
  pub entries :
      (t k : ℕ) → t < left → k < 1024 → word' (table + 4096 * t + 4 * k) ≡ pte (n + 1024 * t + k)
  pub tables : (t : ℕ) → t < left → word' (dir + 4 * (pt + t)) ≡ pde (table + 4096 * t)
  pub outside :
      (a : ℕ) → a < table → (a < dir + 4 * pt) ⊎ (dir + 4 * (pt + left) ≤ a) → word' a ≡ word a

module _ (dir left pt table n : ℕ) (word : ℕ → ℕ) (r : (ℕ → ℕ) × ℕ) (word' : ℕ → ℕ)
    (room : dir + 4 * (pt + suc left) ≤ table)
    (first : Filled 0 table 1024 0 n (update word (dir + 4 * pt) (pde table)) r)
    (rest : FilledDir dir left (pt + 1) (table + 4096) (n + 1024) r.0 word') where
  dir-entries :
      (t k : ℕ)
      → t < suc left
      → k < 1024
      → word' (table + 4096 * t + 4 * k) ≡ pte (n + 1024 * t + k)
  dir-entries zero k h hk =
      let e : table + 4096 * 0 + 4 * k ≡ table + 4 * (0 + k) = omega arith in
      let e' : n + 1024 * 0 + k ≡ n + k = omega arith in
      rw (e, e')
        (rest.outside (table + 4 * (0 + k)) (omega arith) (inr (omega arith)) ∙ first.entries k hk)
  dir-entries (suc t) k h hk =
      let e : table + 4096 * suc t + 4 * k ≡ table + 4096 + 4096 * t + 4 * k = omega arith in
      let e' : n + 1024 * suc t + k ≡ n + 1024 + 1024 * t + k = omega arith in
      rw (e, e') (rest.entries t k (omega arith) hk)

  dir-tables : (t : ℕ) → t < suc left → word' (dir + 4 * (pt + t)) ≡ pde (table + 4096 * t)
  dir-tables zero h =
      let e : dir + 4 * (pt + 0) ≡ dir + 4 * pt = omega arith in
      let e' : table + 4096 * 0 ≡ table = omega arith in
      let later = rest.outside (dir + 4 * pt) (omega arith) (inl (omega arith)) in
      let here = first.outside (dir + 4 * pt) (inl (omega arith)) in
      rw (e, e') (later ∙ here ∙ ground arith)
  dir-tables (suc t) h =
      let e : pt + suc t ≡ pt + 1 + t = omega arith in
      let e' : table + 4096 * suc t ≡ table + 4096 + 4096 * t = omega arith in
      rw (e, e') (rest.tables t (omega arith))

  FilledDir-suc : FilledDir dir (suc left) pt table n word word'
  FilledDir-suc = record {
    entries = dir-entries;
    tables = dir-tables;
    outside = λ a low h. ground (arith, rest.outside a, first.outside a);
  }

pub fill_dir-Filled :
    (dir left pt table n : ℕ) (word : ℕ → ℕ)
    → dir + 4 * (pt + left) ≤ table
    → FilledDir dir left pt table n word
        (fill_dir dir left pt
          (record { word = word; tmptable = table; pagebase = u32 (n * page_size + 0) })).word
unfolding fill_dir
fill_dir-Filled dir zero pt table n word room = record {
  entries = λ t k h. absurd (omega arith);
  tables = λ t h. absurd (omega arith);
  outside = λ a low h. refl;
}
fill_dir-Filled dir (suc left) pt table n word room =
    let filled = fill_table-Filled 0 table 1024 0 n (update word (dir + 4 * pt) (pde table)) in
    rw (fill_dir, filled.base)
      (FilledDir-suc dir left pt table n word _ _ room filled
        (fill_dir-Filled dir left (pt + 1) (table + 4096) (n + 1024) _ (omega arith)))
