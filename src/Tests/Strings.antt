-- ===== src/Tests/Strings.antt =====
-- A memory with the strings `cat` at 100 and `car` at 200.
use finux.Prelude.{
  ℕ, zero, suc, ◌+◌, ◌-◌, ◌<◌, ◌≡◌, ◌≢◌, refl, some, [], ◌∷◌, get_or, ltb, if◌then◌else◌, arith,
}
use finux.Strings.{strcmp}
use finux.Strings.Compare.{IsString, strcmp-last_byte}

abbrev words : ℕ → ℕ
words a =
    if ltb a 200
    then get_or (99 ∷ 97 ∷ 116 ∷ []) (a - 100) 0
    else get_or (99 ∷ 97 ∷ 114 ∷ []) (a - 200) 0

cat-IsString : IsString words 100 3
cat-IsString = record { bytes = bytes; end = refl; fits = omega arith }
  where
    bytes : (i : ℕ) → i < 3 → words (100 + i) ≢ 0
    bytes zero low = omega arith
    bytes (suc zero) low = omega arith
    bytes (suc (suc zero)) low = omega arith
    bytes (suc (suc (suc i))) low = absurd (omega (arith, low))

car-IsString : IsString words 200 3
car-IsString = record { bytes = bytes; end = refl; fits = omega arith }
  where
    bytes : (i : ℕ) → i < 3 → words (200 + i) ≢ 0
    bytes zero low = omega arith
    bytes (suc zero) low = omega arith
    bytes (suc (suc zero)) low = omega arith
    bytes (suc (suc (suc i))) low = absurd (omega (arith, low))

same_below : (i : ℕ) → i < 2 → words (100 + i) ≡ words (200 + i)
same_below zero low = refl
same_below (suc zero) low = refl
same_below (suc (suc i)) low = absurd (omega (arith, low))

strcmp-last_byte_example : strcmp 3 100 200 words ≡ some 0
strcmp-last_byte_example = strcmp-last_byte 2 0 100 200 words cat-IsString car-IsString same_below
