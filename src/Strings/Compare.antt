-- ===== src/Strings/Compare.antt =====
-- What `strlen` and `strcmp` return.
use Prim.Native.Nat.add
use finux.Prelude.{
  ℕ, zero, suc, ◌+◌, ◌^◌, ◌<◌, ◌≡◌, ◌≢◌, ◌⊎◌, refl, ◌∙◌, ◌==◌, true, false, arith, ==_iff,
  Bool-cases, inl, inr, some, ap,
}
use finux.Prelude.Bits.{u32}
use finux.Strings.{count_bytes, strlen, strcmp, difference}

-- `length` bytes that are not NUL, and a NUL behind them, below 2^32.
pub record IsString (memory : ℕ → ℕ) (str length : ℕ) : Type 0 where
  pub bytes : (i : ℕ) → i < length → memory (str + i) ≢ 0
  pub end : memory (str + length) ≡ 0
  pub fits : str + length < 2 ^ 32

-- The string behind the first byte.
IsString-tail :
    {memory : ℕ → ℕ} {str length : ℕ}
    → IsString memory str (suc length)
    → IsString memory (str + 1) length
IsString-tail {memory} {str} {length} string = record {
  bytes = λ i low.
      let at : str + 1 + i ≡ str + suc i = omega arith in
      rw at (string.bytes (suc i) (omega arith));
  end = let at : str + 1 + length ≡ str + suc length = omega arith in rw at string.end;
  fits = omega (arith, string.fits);
}

count_bytes_lem :
    (fuel length str i : ℕ) (memory : ℕ → ℕ)
    → length < fuel
    → IsString memory str length
    → count_bytes fuel str i memory ≡ some (i + length)
unfolding count_bytes
count_bytes_lem zero length str i memory enough string = absurd (omega arith)
count_bytes_lem (suc fuel) zero str i memory enough string =
    let at : str + 0 ≡ str = omega arith in
    let nul : (memory str == 0) ≡ true = (==_iff _ _).1 (rw at at string.end) in
    let sum : i + 0 ≡ i = omega arith in rw (nul, sum)
count_bytes_lem (suc fuel) (suc length) str i memory enough string =
    let at : str + 0 ≡ str = omega arith in
    let first : memory str ≢ 0 = rw at at (string.bytes 0 (omega arith)) in
    let more : (memory str == 0) ≡ false = ground arith in
    let next : u32 (str + 1) ≡ str + 1 = omega (arith, string.fits) in
    let sum : i + 1 + length ≡ i + suc length = omega arith in
    rw (more, next)
      (count_bytes_lem fuel length (str + 1) (i + 1) memory (omega arith) (IsString-tail string)
        ∙ ap some sum)

-- With more fuel than the length, `strlen` returns the length of a string that ends below 2^32.
pub strlen-length :
    (fuel length str : ℕ) (memory : ℕ → ℕ)
    → length < fuel
    → IsString memory str length
    → strlen fuel str memory ≡ some length
unfolding strlen
strlen-length fuel length str memory enough string =
    count_bytes_lem fuel length str 0 memory enough string ∙ ap some (omega arith)

-- `n` rounds of `strcmp` find equal bytes with no NUL behind any of them.
pub record Agree (memory : ℕ → ℕ) (str1 str2 n : ℕ) : Type 0 where
  pub same : (i : ℕ) → i < n → memory (str1 + i) ≡ memory (str2 + i)
  pub more : (i : ℕ) → i < n → memory (str1 + suc i) ≢ 0
  pub fits1 : str1 + n < 2 ^ 32
  pub fits2 : str2 + n < 2 ^ 32

Agree-tail :
    {memory : ℕ → ℕ} {str1 str2 n : ℕ}
    → Agree memory str1 str2 (suc n)
    → Agree memory (str1 + 1) (str2 + 1) n
Agree-tail {memory} {str1} {str2} {n} agree = record {
  same = λ i low.
      let at1 : str1 + 1 + i ≡ str1 + suc i = omega arith in
      let at2 : str2 + 1 + i ≡ str2 + suc i = omega arith in
      rw (at1, at2) (agree.same (suc i) (omega arith));
  more = λ i low.
      let at1 : str1 + 1 + suc i ≡ str1 + suc (suc i) = omega arith in
      rw at1 (agree.more (suc i) (omega arith));
  fits1 = omega (arith, agree.fits1);
  fits2 = omega (arith, agree.fits2);
}

pub strcmp-Agree :
    (n fuel str1 str2 : ℕ) (memory : ℕ → ℕ)
    → Agree memory str1 str2 n
    → strcmp (n + fuel) str1 str2 memory ≡ strcmp fuel (str1 + n) (str2 + n) memory
unfolding strcmp
strcmp-Agree zero fuel str1 str2 memory agree =
    let at1 : str1 + 0 ≡ str1 = omega arith in
    let at2 : str2 + 0 ≡ str2 = omega arith in rw (add.zero, at1, at2)
strcmp-Agree (suc n) fuel str1 str2 memory agree =
    let at1 : str1 + 0 ≡ str1 = omega arith in
    let at2 : str2 + 0 ≡ str2 = omega arith in
    let one : str1 + suc 0 ≡ str1 + 1 = omega arith in
    let same : (memory str1 == memory str2) ≡ true =
      (==_iff _ _).1 (rw (at1, at2) at (agree.same 0 (omega arith))) in
    let not_nul : memory (str1 + 1) ≢ 0 = rw one at (agree.more 0 (omega arith)) in
    let more : (memory (str1 + 1) == 0) ≡ false = ground arith in
    let next1 : u32 (str1 + 1) ≡ str1 + 1 = omega (arith, agree.fits1) in
    let next2 : u32 (str2 + 1) ≡ str2 + 1 = omega (arith, agree.fits2) in
    let sum1 : str1 + 1 + n ≡ str1 + suc n = omega arith in
    let sum2 : str2 + 1 + n ≡ str2 + suc n = omega arith in
    rw (
      add.suc,
      next1,
      next2,
      same,
      more,
      strcmp-Agree n fuel (str1 + 1) (str2 + 1) memory (Agree-tail agree),
      sum1,
      sum2,
    )

-- The last round returns the difference of the bytes behind the two that it compares.
pub last_round :
    (fuel str1 str2 : ℕ) (memory : ℕ → ℕ)
    → str1 + 1 < 2 ^ 32
    → str2 + 1 < 2 ^ 32
    → (memory str1 ≢ memory str2) ⊎ (memory (str1 + 1) ≡ 0)
    → strcmp (suc fuel) str1 str2 memory ≡ some (difference (str1 + 1) (str2 + 1) memory)
unfolding strcmp
last_round fuel str1 str2 memory fits1 fits2 stops =
    let next1 : u32 (str1 + 1) ≡ str1 + 1 = omega arith in
    let next2 : u32 (str2 + 1) ≡ str2 + 1 = omega arith in
    elim (Bool-cases (memory str1 == memory str2)) [
      | inl same ↦
          let nul : (memory (str1 + 1) == 0) ≡ true = ground (arith, same, stops) in
          rw (next1, next2, same, nul)
      | inr other ↦ rw (next1, next2, other)
    ]

-- Strings that agree below their last byte, which stands at `n`.
Agree-below :
    (n str1 str2 : ℕ) (memory : ℕ → ℕ)
    → IsString memory str1 (n + 1)
    → IsString memory str2 (n + 1)
    → ((i : ℕ) → i < n → memory (str1 + i) ≡ memory (str2 + i))
    → Agree memory str1 str2 n
Agree-below n str1 str2 memory string1 string2 same = record {
  same = same;
  more = λ i low. string1.bytes (suc i) (omega arith);
  fits1 = omega (arith, string1.fits);
  fits2 = omega (arith, string2.fits);
}

-- What is behind the last byte is a NUL in both.
ends :
    (n str1 str2 : ℕ) (memory : ℕ → ℕ)
    → IsString memory str1 (n + 1)
    → IsString memory str2 (n + 1)
    → difference (str1 + n + 1) (str2 + n + 1) memory ≡ 0
ends n str1 str2 memory string1 string2 =
    let at1 : str1 + n + 1 ≡ str1 + (n + 1) = omega arith in
    let at2 : str2 + n + 1 ≡ str2 + (n + 1) = omega arith in
    rw (at1, at2, string1.end, string2.end) refl

module _ (n fuel str1 str2 : ℕ) (memory : ℕ → ℕ) where
  -- Of two strings of one length that agree below the last byte, which stands at `n`, `strcmp`
  -- never tells the last bytes apart: it returns 0, in as many rounds as the strings are long,
  -- for equal strings and for different ones.
  pub strcmp-last_byte :
      IsString memory str1 (n + 1)
      → IsString memory str2 (n + 1)
      → ((i : ℕ) → i < n → memory (str1 + i) ≡ memory (str2 + i))
      → strcmp (n + suc fuel) str1 str2 memory ≡ some 0
  strcmp-last_byte string1 string2 same =
      strcmp-Agree n (suc fuel) str1 str2 memory
        (Agree-below n str1 str2 memory string1 string2 same)
      ∙ last_round fuel (str1 + n) (str2 + n) memory (omega (arith, string1.fits))
          (omega (arith, string2.fits)) stops
      ∙ ap some (ends n str1 str2 memory string1 string2)
    where
      stops : (memory (str1 + n) ≢ memory (str2 + n)) ⊎ (memory (str1 + n + 1) ≡ 0)
      stops = let at1 : str1 + n + 1 ≡ str1 + (n + 1) = omega arith in rw at1 (inr string1.end)

  -- Where two strings first differ at `n`, `strcmp` returns the difference of the bytes behind that
  -- place, in `n + 1` rounds.
  pub strcmp-difference :
      ((i : ℕ) → i < n → memory (str1 + i) ≡ memory (str2 + i))
      → ((i : ℕ) → i < n → memory (str1 + suc i) ≢ 0)
      → memory (str1 + n) ≢ memory (str2 + n)
      → str1 + n + 1 < 2 ^ 32
      → str2 + n + 1 < 2 ^ 32
      → strcmp (n + suc fuel) str1 str2 memory
        ≡ some (difference (str1 + n + 1) (str2 + n + 1) memory)
  strcmp-difference same more other fits1 fits2 =
      strcmp-Agree n (suc fuel) str1 str2 memory
        (record { same = same; more = more; fits1 = omega arith; fits2 = omega arith })
      ∙ last_round fuel (str1 + n) (str2 + n) memory fits1 fits2 (inl other)
