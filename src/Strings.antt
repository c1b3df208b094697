-- ===== src/Strings.antt =====
-- Memory and strings: lib/string.c, on a memory of bytes at 32-bit addresses.
pub mod Copies
pub mod Compare
use finux.Prelude.{
  ℕ, zero, suc, ◌+◌, ◌^◌, ◌-◌, Bool, ◌==◌, ltb, if◌then◌else◌, update, Option, none, some,
}
use finux.Prelude.Bits.{u8, u32, sub32}

-- The loop of `memcpy` with `len` rounds to go.
unfoldable pub copy_bytes : (len tmp s : ℕ) → (ℕ → ℕ) → ℕ → ℕ
copy_bytes zero tmp s memory = memory
copy_bytes (suc len) tmp s memory =
    copy_bytes len (u32 (tmp + 1)) (u32 (s + 1)) (update memory tmp (memory s))

-- The pointer that is returned, and the memory.
unfoldable pub memcpy : (dst src len : ℕ) → (ℕ → ℕ) → ℕ × (ℕ → ℕ)
memcpy dst src len memory = (dst, copy_bytes len dst src memory)

-- The loop of `strlen`; `fuel` bounds its rounds.
unfoldable pub count_bytes : (fuel tmp i : ℕ) → (ℕ → ℕ) → Option ℕ
count_bytes zero tmp i memory = none
count_bytes (suc fuel) tmp i memory =
    let rest = count_bytes fuel (u32 (tmp + 1)) (i + 1) memory in
    if memory tmp == 0 then some i else rest

unfoldable pub strlen : (fuel str : ℕ) → (ℕ → ℕ) → Option ℕ
strlen fuel str memory = count_bytes fuel str 0 memory

-- A `char` as an `int`, by its 32 bits.
abbrev pub sign_extend : ℕ → ℕ
sign_extend c = if ltb c 128 then c else 2 ^ 32 - 256 + c

-- `*str1 - *str2`
abbrev pub difference : (str1 str2 : ℕ) → (ℕ → ℕ) → ℕ
difference str1 str2 memory = sub32 (sign_extend (memory str1)) (sign_extend (memory str2))

-- `*str1++ == *str2++` moves both pointers, whether it holds or not; `fuel` bounds the rounds.
unfoldable pub strcmp : (fuel str1 str2 : ℕ) → (ℕ → ℕ) → Option ℕ
strcmp zero str1 str2 memory = none
strcmp (suc fuel) str1 str2 memory =
    let next1 = u32 (str1 + 1) in
    let next2 = u32 (str2 + 1) in
    let rest = strcmp fuel next1 next2 memory in
    if memory str1 == memory str2
    then if memory next1 == 0 then some (difference next1 next2 memory) else rest
    else some (difference next1 next2 memory)

-- The loop of `memset` with `left` rounds to go.
unfoldable pub set_bytes : (left tmp ch : ℕ) → (ℕ → ℕ) → ℕ → ℕ
set_bytes zero tmp ch memory = memory
set_bytes (suc left) tmp ch memory = set_bytes left (u32 (tmp + 1)) ch (update memory tmp (u8 ch))

unfoldable pub memset : (str ch n : ℕ) → (ℕ → ℕ) → ℕ × (ℕ → ℕ)
memset str ch n memory = (str, set_bytes n str ch memory)
