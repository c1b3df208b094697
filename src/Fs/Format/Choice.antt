-- ===== src/Fs/Format/Choice.antt =====
-- Which partition `make_fs` takes for its file system.
use finux.Prelude.{
  ℕ, zero, suc, ◌+◌, ◌≤◌, ◌<◌, ◌≡◌, ◌≢◌, refl, ◌∙◌, arith, false, true, ◌==◌, ==_iff, ltb,
  Bool-cases, inl, inr, Option, none, some,
}
use finux.Fs.{Loader, PartTable}
use finux.Fs.Format.{find_part, find_finux_part, logical_base}

module _ (table : ℕ → PartTable) where
  abbrev pub IsFinux : ℕ → Type 0
  IsFinux k = (table k).system_id ≡ 0xd

  find_part-first :
      (left i p : ℕ)
      → i ≤ p
      → p < i + left
      → ((k : ℕ) → i ≤ k → k < p → (table k).system_id ≢ 0xd)
      → IsFinux p
      → find_part left i table ≡ p
  unfolding find_part
  find_part-first zero i p low high before here = absurd (omega arith)
  find_part-first (suc left) i p low high before here = elim (Bool-cases (i == p)) [
    | inl same ↦
        let at : i ≡ p = (==_iff i p).0 same in
        let is_finux : ((table i).system_id == 0xd) ≡ true = (==_iff _ _).1 (rw at here) in
        rw is_finux at
    | inr other ↦
        let differs : (table i).system_id ≢ 0xd = before i (omega arith) (ground (arith, other)) in
        let not_finux : ((table i).system_id == 0xd) ≡ false = ground (arith, differs) in
        rw not_finux (
          find_part-first left (i + 1) p (ground (arith, other)) (omega arith)
            (λ k above below. before k (omega arith) below) here)
  ]

  find_part-none :
      (left i : ℕ)
      → ((k : ℕ) → i ≤ k → k < i + left → (table k).system_id ≢ 0xd)
      → find_part left i table ≡ i + left
  unfolding find_part
  find_part-none zero i all = omega arith
  find_part-none (suc left) i all =
      let differs : (table i).system_id ≢ 0xd = all i (omega arith) (omega arith) in
      let not_finux : ((table i).system_id == 0xd) ≡ false = ground (arith, differs) in
      rw not_finux (
        find_part-none left (i + 1) (λ k low high. all k (omega arith) (omega arith)) ∙ omega arith)

  -- The first partition of the system among `n`, and that there is none.
  pub record First (n p : ℕ) : Type 0 where
    pub low : p < n
    pub before : (k : ℕ) → k < p → (table k).system_id ≢ 0xd
    pub here : IsFinux p

  abbrev pub Without : ℕ → Type 0
  Without n = (k : ℕ) → k < n → (table k).system_id ≢ 0xd

  pub find_part-First : (n p : ℕ) → First n p → find_part n 0 table ≡ p
  find_part-First n p is_first =
      find_part-first n 0 p (omega arith) (omega (arith, is_first.low))
        (λ k above below. is_first.before k below) is_first.here

  pub find_part-Without : (n : ℕ) → Without n → find_part n 0 table ≡ n
  find_part-Without n all = find_part-none n 0 (λ k low high. all k (omega arith)) ∙ omega arith

module _ (unset before : PartTable) (s : Loader) where
  -- The rule of the choice: a primary partition, else a logical one.
  pub data Chooses : Option (PartTable × ℕ) → Type 0 where
    from_primary :
        {p : ℕ} → First s.primary 4 p → Chooses (some (s.primary p, (s.logical 0).first_lba))
    from_logical :
        {p : ℕ}
        → Without s.primary 4
        → (s.logical 0).system_id ≢ 0
        → First s.logical 10 p
        → Chooses (some (s.logical p, logical_base before p s))
    nothing :
        Without s.primary 4 → (s.logical 0).system_id ≢ 0 → Without s.logical 10 → Chooses none
    uninitialised :
        Without s.primary 4
        → (s.logical 0).system_id ≡ 0
        → Chooses (some (unset, (s.logical 0).first_lba))

  -- The partition is the first primary one of the system, with the base `logical[0].first_LBA`;
  -- without one it is the first logical one, or PANIC, if `logical[0]` is not empty; if it is empty
  -- the pointer that nothing has set is used.
  pub find_finux_part-Chooses :
      (choice : Option (PartTable × ℕ)) → Chooses choice → find_finux_part unset before s ≡ choice
  unfolding find_finux_part
  find_finux_part-Chooses _ (from_primary {p} is_first) =
      let at = find_part-First s.primary 4 p is_first in
      let low : ltb p 4 ≡ true = ground (arith, is_first.low) in rw (at, low) refl
  find_finux_part-Chooses _ (from_logical {p} without used is_first) =
      let none_at = find_part-Without s.primary 4 without in
      let at = find_part-First s.logical 10 p is_first in
      let low : ltb p 10 ≡ true = ground (arith, is_first.low) in
      let not_empty : ((s.logical 0).system_id == 0) ≡ false = ground (arith, used) in
      rw (none_at, at, low, not_empty) refl
  find_finux_part-Chooses _ (nothing without used no_logical) =
      let none_at = find_part-Without s.primary 4 without in
      let none_logical = find_part-Without s.logical 10 no_logical in
      let not_empty : ((s.logical 0).system_id == 0) ≡ false = ground (arith, used) in
      rw (none_at, none_logical, not_empty) refl
  find_finux_part-Chooses _ (uninitialised without is_empty) =
      let none_at = find_part-Without s.primary 4 without in
      let empty_first : ((s.logical 0).system_id == 0) ≡ true = (==_iff _ _).1 is_empty in
      rw (none_at, empty_first) refl
