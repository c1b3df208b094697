-- ===== src/OldLoader/Counts.antt =====
-- What the counts of the first loader come to.
use finux.Prelude.{
  ℕ, zero, suc, ◌+◌, ◌/◌, ◌%◌, ◌≤◌, ◌<◌, ◌≡◌, refl, ◌⊎◌, inl, inr, arith, ◌&&◌, ◌==◌, ltb,
  Bool-cases, bit_and,
}
use finux.Prelude.Bits.{u32, bit_and_low}
use finux.MemInfo.{E820Ards}
use finux.OldLoader.{get_pte_t_num, get_pde_t_num, highest_usable, memory_end, get_page_num}

-- Both counts round up.
pub get_pte_t_num-ceiling : (n : ℕ) → get_pte_t_num n ≡ (n + 1023) / 1024
unfolding get_pte_t_num
get_pte_t_num-ceiling n =
    let low : bit_and n 0x3ff ≡ n % 1024 = bit_and_low 10 n in rw low (ground arith)

pub get_pde_t_num-ceiling : (n : ℕ) → get_pde_t_num n ≡ (n + 1023) / 1024
unfolding get_pde_t_num
get_pde_t_num-ceiling n =
    let low : bit_and n 0x3ff ≡ n % 1024 = bit_and_low 10 n in rw low (ground arith)

pub get_page_num-ceiling :
    (ards_count : ℕ) (map : ℕ → E820Ards)
    → get_page_num ards_count map ≡ (memory_end ards_count map + 4095) / 4096
unfolding get_page_num
get_page_num-ceiling ards_count map =
    let low : bit_and (memory_end ards_count map) 0xfff ≡ memory_end ards_count map % 4096 =
      bit_and_low 12 (memory_end ards_count map) in
    rw low (ground arith)

-- A range of `left` entries from `i` on, and what the loop makes of the `start` and `lenth` so far:
-- the first of the usable entries with the highest base, when one is higher than `start`.
pub record Highest (map : ℕ → E820Ards) (i left start lenth : ℕ) (r : ℕ × ℕ) : Type 0 where
  pub from :
      (r ≡ (start, lenth))
      ⊎ ((k : ℕ) × (i ≤ k)
          × (k < i + left)
          × ((map k).type ≡ 1)
          × (start < (map k).baselow)
          × ((j : ℕ) → i ≤ j → j < k → (map j).type ≡ 1 → (map j).baselow < (map k).baselow)
          × (r ≡ ((map k).baselow, (map k).lenthlow)))
  pub least : start ≤ r.0
  pub top : (k : ℕ) → i ≤ k → k < i + left → (map k).type ≡ 1 → (map k).baselow ≤ r.0

module _ (map : ℕ → E820Ards) (left i start lenth : ℕ) (r : ℕ × ℕ) where
  -- The entry at `i` is taken.
  Highest-taken :
      (map i).type ≡ 1
      → start < (map i).baselow
      → Highest map (i + 1) left (map i).baselow (map i).lenthlow r
      → Highest map i (suc left) start lenth r
  Highest-taken usable higher rest = record {
    from = elim rest.from [
      | inl same ↦ inr (
        i,
        omega arith,
        omega arith,
        usable,
        higher,
        λ j above below usable_j. absurd (omega (arith, above, below)),
        same,
      )
      | inr (k, low, high, usable_k, higher_k, before, same) ↦ inr (
        k,
        omega arith,
        omega arith,
        usable_k,
        omega arith,
        λ j above below usable_j. ground (arith, before j),
        same,
      )
    ];
    least = omega (arith, rest.least);
    top = λ k low high usable_k. ground (arith, rest.top k, rest.least);
  }

  -- It is not.
  Highest-skipped :
      ((map i).type ≡ 1 → (map i).baselow ≤ start)
      → Highest map (i + 1) left start lenth r
      → Highest map i (suc left) start lenth r
  Highest-skipped lower rest = record {
    from = elim rest.from [
      | inl same ↦ inl same
      | inr (k, low, high, usable_k, higher_k, before, same) ↦ inr (
        k,
        omega arith,
        omega arith,
        usable_k,
        higher_k,
        λ j above below usable_j. ground (arith, before j, lower),
        same,
      )
    ];
    least = rest.least;
    top = λ k low high usable_k. ground (arith, rest.top k, rest.least, lower);
  }

pub highest_usable-Highest :
    (map : ℕ → E820Ards) (left i start lenth : ℕ)
    → Highest map i left start lenth (highest_usable map left i start lenth)
unfolding highest_usable
highest_usable-Highest map zero i start lenth = record {
  from = inl refl;
  least = omega arith;
  top = λ k low high usable. absurd (omega arith);
}
highest_usable-Highest map (suc left) i start lenth =
    elim (Bool-cases (((map i).type == 1) && ltb start (map i).baselow)) [
      | inl taken ↦ rw taken (
          Highest-taken map left i start lenth _ (ground arith) (ground arith)
            (highest_usable-Highest map left (i + 1) (map i).baselow (map i).lenthlow))
      | inr skipped ↦ rw skipped (
          Highest-skipped map left i start lenth _ (λ usable. ground arith)
            (highest_usable-Highest map left (i + 1) start lenth))
    ]

-- `get_page_num` is the number of pages, rounded up, below the sum modulo 2 ^ 32 of a base and a
-- length. Those are of the first of the usable entries with the highest base among the first
-- `ARDSCount + 1`, if that base is above 0; when no usable entry has a base above 0 they are 0 and 0. The counts of the tables and of the directories are the 1024th part
-- of their argument, rounded up.
pub get_page_num-Highest :
    (ards_count : ℕ) (map : ℕ → E820Ards)
    → (r : ℕ × ℕ) × Highest map 0 (ards_count + 1) 0 0 r
      × (get_page_num ards_count map ≡ (u32 (r.0 + r.1) + 4095) / 4096)
      × ((n : ℕ) → get_pte_t_num n ≡ (n + 1023) / 1024)
      × ((n : ℕ) → get_pde_t_num n ≡ (n + 1023) / 1024)
unfolding memory_end
get_page_num-Highest ards_count map = (
  highest_usable map (ards_count + 1) 0 0 0,
  highest_usable-Highest map (ards_count + 1) 0 0 0,
  get_page_num-ceiling ards_count map,
  get_pte_t_num-ceiling,
  get_pde_t_num-ceiling,
)
