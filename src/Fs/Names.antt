-- ===== src/Fs/Names.antt =====
-- The names of the root directory, which have 12 bytes, and the kernel's name, which has 12
-- characters and a NUL behind them.
use finux.Prelude.{
  ℕ, suc, ◌+◌, ◌*◌, ◌^◌, ◌<◌, ◌≡◌, ◌≢◌, refl, ◌∙◌, arith, inl, inr, none, some, Bool-cases, ◌==◌,
  ==_iff,
}
use finux.Prelude.Bits.{sub32}
use finux.Strings.{strcmp, sign_extend}
use finux.Strings.Compare.{IsString, Agree, strcmp-Agree, last_round}
use finux.Fs.{LoaderGlobals, entry_name, find_file_in_root}
use finux.Fs.Find.{Compares, ends, Differs, first, absent, find_file_in_root-Finds}

module _ (globals : LoaderGlobals) (filename : ℕ) (memory : ℕ → ℕ) where
  open globals use {root_area}

  -- The first eleven characters of the name stand in entry `k`.
  abbrev pub Names : ℕ → Type 0
  Names k = (i : ℕ) → i < 11 → memory (filename + i) ≡ memory (entry_name globals k + i)

  -- The first byte of the entry behind entry `k`, the low byte of its inode number.
  abbrev pub byte_behind : ℕ → ℕ
  byte_behind k = memory (root_area + k * 16 + 16)

  strcmp-Names :
      (fuel k : ℕ)
      → IsString memory filename 12
      → Names k
      → root_area + k * 16 + 16 < 2 ^ 32
      → strcmp (11 + suc fuel) filename (entry_name globals k) memory
        ≡ some (sub32 0 (sign_extend (byte_behind k)))
  strcmp-Names fuel k string names fits =
      let at : filename + 11 + 1 ≡ filename + 12 = omega arith in
      let behind : root_area + k * 16 + 4 + 11 + 1 ≡ root_area + k * 16 + 16 = omega arith in
      let agree : Agree memory filename (entry_name globals k) 11 = record {
        same = names;
        more = λ i low. string.bytes (suc i) (omega arith);
        fits1 = omega (arith, string.fits);
        fits2 = omega arith;
      } in
      let nul : memory (filename + 11 + 1) ≡ 0 = rw at string.end in
      strcmp-Agree 11 (suc fuel) filename (entry_name globals k) memory agree
      ∙ last_round fuel (filename + 11) (entry_name globals k + 11) memory
          (omega (arith, string.fits)) (omega arith) (inr nul)
      ∙ rw (nul, behind) refl

  -- An entry with the kernel's name is taken for it when the byte behind it is 0.
  pub Names-Compares :
      (fuel k : ℕ)
      → IsString memory filename 12
      → Names k
      → root_area + k * 16 + 16 < 2 ^ 32
      → byte_behind k ≡ 0
      → Compares globals (11 + suc fuel) filename memory k 0
  Names-Compares fuel k string names fits zero_behind =
      ends (strcmp-Names fuel k string names fits ∙ rw zero_behind refl)

  sign_extend-zero : (c : ℕ) → c < 256 → c ≢ 0 → sub32 0 (sign_extend c) ≢ 0
  sign_extend-zero c low other = ground arith

  Names-Differs :
      (fuel k : ℕ)
      → IsString memory filename 12
      → Names k
      → root_area + k * 16 + 16 < 2 ^ 32
      → byte_behind k < 256
      → byte_behind k ≢ 0
      → Differs globals (11 + suc fuel) filename memory k
  Names-Differs fuel k string names fits byte other = (
    sub32 0 (sign_extend (byte_behind k)),
    ends (strcmp-Names fuel k string names fits),
    sign_extend-zero (byte_behind k) byte other,
  )

  module _ (fuel e : ℕ) where
    -- Let entry `e` be the one of the 100 entries that has the kernel's name, which is a string of
    -- 12 bytes, while `strcmp` tells the others from it, and let the entries stand below 2^32. With
    -- fuel for 12 rounds the search finds `e` if the byte behind it, the low byte of the next
    -- entry's inode number, is 0, and it finds no entry if that byte is not 0.
    pub find_file_in_root-Names :
        IsString memory filename 12
        → root_area + 1616 < 2 ^ 32
        → e < 100
        → Names e
        → ((k : ℕ) → k < 100 → k ≢ e → Differs globals (11 + suc fuel) filename memory k)
        → byte_behind e < 256
        → (byte_behind e ≡ 0
            → find_file_in_root globals (11 + suc fuel) filename memory ≡ some (some e))
          × (byte_behind e ≢ 0
              → find_file_in_root globals (11 + suc fuel) filename memory ≡ some none)
    find_file_in_root-Names string fits low names others byte = (
      λ zero_behind. find_file_in_root-Finds globals (11 + suc fuel) filename memory (some e) (
          first low (λ k less. others k (omega arith) (omega arith))
            (Names-Compares fuel e string names (omega arith) zero_behind)),
      λ other. find_file_in_root-Finds globals (11 + suc fuel) filename memory none (
          absent (λ k below. elim (Bool-cases (k == e)) [
            | inl same ↦
                rw ((==_iff k e).0 same)
                  (Names-Differs fuel e string names (omega arith) byte other)
            | inr differs ↦ others k below (ground (arith, differs))
          ])),
    )
