-- ===== src/Fs/Find.antt =====
-- The search in the root directory.
use finux.Prelude.{
  ℕ, zero, suc, ◌+◌, ◌≤◌, ◌<◌, ◌≡◌, ◌≢◌, refl, ◌∙◌, arith, false, inl, inr, Bool-cases, ==_iff,
  ◌==◌, Option, none, some,
}
use finux.Strings.{strcmp}
use finux.Fs.{LoaderGlobals, entry_name, find_entry, find_file_in_root}

module _ (globals : LoaderGlobals) (fuel filename : ℕ) (memory : ℕ → ℕ) where
  -- What `strcmp` says of the name of entry `k`.
  pub data Compares (k order : ℕ) : Type 0 where
    ends : strcmp fuel filename (entry_name globals k) memory ≡ some order → Compares k order

  abbrev pub Differs : ℕ → Type 0
  Differs k = (order : ℕ) × Compares k order × (order ≢ 0)

  find_entry-skip :
      (left i : ℕ)
      → Differs i
      → find_entry globals fuel filename (suc left) i memory
        ≡ find_entry globals fuel filename left (i + 1) memory
  unfolding find_entry
  find_entry-skip left i (order, ends compared, other) =
      let differs : (order == 0) ≡ false = ground arith in rw (compared, differs)

  find_entry-here :
      (left e : ℕ)
      → Compares e 0
      → find_entry globals fuel filename (suc left) e memory ≡ some (some e)
  unfolding find_entry
  find_entry-here left e (ends compared) = rw compared

  pub find_entry-found :
      (left i e : ℕ)
      → i ≤ e
      → e < i + left
      → ((k : ℕ) → i ≤ k → k < e → Differs k)
      → Compares e 0
      → find_entry globals fuel filename left i memory ≡ some (some e)
  unfolding find_entry
  find_entry-found zero i e low high before here = absurd (omega arith)
  find_entry-found (suc left) i e low high before here = elim (Bool-cases (i == e)) [
    | inl same ↦ rw ((==_iff i e).0 same) (find_entry-here left e here)
    | inr other ↦
        find_entry-skip left i (before i (omega arith) (ground (arith, other)))
        ∙ find_entry-found left (i + 1) e (ground (arith, other)) (omega arith)
            (λ k above below. before k (omega arith) below) here
  ]

  find_entry-none :
      (left i : ℕ)
      → ((k : ℕ) → i ≤ k → k < i + left → Differs k)
      → find_entry globals fuel filename left i memory ≡ some none
  unfolding find_entry
  find_entry-none zero i all = refl
  find_entry-none (suc left) i all =
      find_entry-skip left i (all i (omega arith) (omega arith))
      ∙ find_entry-none left (i + 1) (λ k low high. all k (omega arith) (omega arith))

  -- The first of the 100 entries that `strcmp` takes for the name, or that there is none.
  pub data Finds : Option ℕ → Type 0 where
    first : {e : ℕ} → e < 100 → ((k : ℕ) → k < e → Differs k) → Compares e 0 → Finds (some e)
    absent : ((k : ℕ) → k < 100 → Differs k) → Finds none

  -- The search returns the first of the 100 entries that `strcmp` takes for the name, and the null
  -- pointer when it takes none of them for it.
  pub find_file_in_root-Finds :
      (result : Option ℕ)
      → Finds result
      → find_file_in_root globals fuel filename memory ≡ some result
  unfolding find_file_in_root
  find_file_in_root-Finds _ (first {e} low before here) =
      find_entry-found 100 0 e (omega arith) (omega arith) (λ k _ less. before k less) here
  find_file_in_root-Finds _ (absent all) = find_entry-none 100 0 (λ k _ less. all k (omega arith))
