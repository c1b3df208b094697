-- ===== src/Strings/Copies.antt =====
-- What `memcpy` and `memset` leave in memory.
use finux.Prelude.{ℕ, zero, suc, ◌+◌, ◌^◌, ◌≤◌, ◌<◌, ◌≡◌, ◌⊎◌, refl, ◌∙◌, update, arith}
use finux.Prelude.Bits.{u8, u32}
use finux.Strings.{copy_bytes, memcpy, set_bytes, memset}

-- The `len` bytes at `dst` are those of `source`, and the others are as before.
pub record Region (dst len : ℕ) (source : ℕ → ℕ) (before after : ℕ → ℕ) : Type 0 where
  pub inside : (i : ℕ) → i < len → after (dst + i) ≡ source i
  pub outside : (a : ℕ) → (a < dst) ⊎ (dst + len ≤ a) → after a ≡ before a

-- One more byte in front.
Region-cons :
    {dst len : ℕ} {source tail : ℕ → ℕ} {before after : ℕ → ℕ} (v : ℕ)
    → Region (dst + 1) len tail (update before dst v) after
    → source 0 ≡ v
    → ((i : ℕ) → i < len → tail i ≡ source (suc i))
    → Region dst (suc len) source before after
Region-cons {dst} {len} {source} {tail} {before} {after} v region first rest = record {
  inside = inside;
  outside = λ a out. region.outside a (ground arith) ∙ ground arith;
}
  where
    inside : (i : ℕ) → i < suc len → after (dst + i) ≡ source i
    inside zero low =
        let at : dst + 0 ≡ dst = omega arith in
        rw at (region.outside dst (ground arith) ∙ ground (arith, first))
    inside (suc i) low =
        let at : dst + 1 + i ≡ dst + suc i = omega arith in
        rw at at (region.inside i (omega arith)) ∙ rest i (omega arith)

copy_bytes-Region :
    (len dst src : ℕ) (memory : ℕ → ℕ)
    → dst + len < 2 ^ 32
    → src + len < 2 ^ 32
    → (dst ≤ src) ⊎ (src + len ≤ dst)
    → Region dst len (λ i. memory (src + i)) memory (copy_bytes len dst src memory)
unfolding copy_bytes
copy_bytes-Region zero dst src memory fits_dst fits_src apart = record {
  inside = λ i low. absurd (omega (arith, low));
  outside = λ a out. refl;
}
copy_bytes-Region (suc len) dst src memory fits_dst fits_src apart =
    let memory1 = update memory dst (memory src) in
    let next_dst : u32 (dst + 1) ≡ dst + 1 = omega arith in
    let next_src : u32 (src + 1) ≡ src + 1 = omega arith in
    let start : src + 0 ≡ src = omega arith in
    let region =
      copy_bytes-Region len (dst + 1) (src + 1) memory1 (omega arith) (omega arith)
        (ground arith) in
    rw (next_dst, next_src)
      (Region-cons (memory src) region (rw start)
        (λ i low. let at : src + 1 + i ≡ src + suc i = omega arith in rw at (ground arith)))

-- `memcpy` copies `len` bytes and touches no other, if both regions end below 2^32 and the
-- destination does not start inside the source behind its first byte.
pub memcpy-Region :
    (dst src len : ℕ) (memory : ℕ → ℕ)
    → dst + len < 2 ^ 32
    → src + len < 2 ^ 32
    → (dst ≤ src) ⊎ (src + len ≤ dst)
    → ((memcpy dst src len memory).0 ≡ dst)
      × Region dst len (λ i. memory (src + i)) memory (memcpy dst src len memory).1
unfolding memcpy
memcpy-Region dst src len memory fits_dst fits_src apart =
    (refl, copy_bytes-Region len dst src memory fits_dst fits_src apart)

set_bytes-Region :
    (n str ch : ℕ) (memory : ℕ → ℕ)
    → str + n < 2 ^ 32
    → Region str n (λ i. u8 ch) memory (set_bytes n str ch memory)
unfolding set_bytes
set_bytes-Region zero str ch memory fits = record {
  inside = λ i low. absurd (omega (arith, low));
  outside = λ a out. refl;
}
set_bytes-Region (suc n) str ch memory fits =
    let next : u32 (str + 1) ≡ str + 1 = omega arith in
    rw next (
      Region-cons (u8 ch)
        (set_bytes-Region n (str + 1) ch (update memory str (u8 ch)) (omega arith)) refl
        (λ i low. refl))

-- `memset` fills `n` bytes that end below 2^32 with the low byte of `ch` and touches no other.
pub memset-Region :
    (str ch n : ℕ) (memory : ℕ → ℕ)
    → str + n < 2 ^ 32
    → ((memset str ch n memory).0 ≡ str)
      × Region str n (λ i. u8 ch) memory (memset str ch n memory).1
unfolding memset
memset-Region str ch n memory fits = (refl, set_bytes-Region n str ch memory fits)
