-- ===== src/Prelude/Lists.antt =====
-- Lists measured and indexed by native numbers, and membership as a Boolean.
use Prim.Native.Nat.{ℕ, zero, suc, ◌+◌}
use mathlib.Core.Path.{◌≡◌, refl}
use mathlib.Core.Bool.{Bool, true, false, ◌||◌, or_assoc}
use mathlib.Core.List.{List, [], ◌∷◌, ◌++◌}
use native.Mathlib.Omega.{arith}
use finux.Prelude.Tests.{◌==◌}

module _ {ℓ} {A : Type ℓ} where
  abbrev pub length : List A → ℕ
  length [] = 0
  length (x ∷ xs) = suc (length xs)

  abbrev pub get_or : List A → ℕ → A → A
  get_or [] i d = d
  get_or (x ∷ xs) zero d = x
  get_or (x ∷ xs) (suc i) d = get_or xs i d

  abbrev pub set : List A → ℕ → A → List A
  set [] i v = []
  set (x ∷ xs) zero v = v ∷ xs
  set (x ∷ xs) (suc i) v = x ∷ set xs i v

  abbrev pub replicate : ℕ → A → List A
  replicate zero a = []
  replicate (suc n) a = a ∷ replicate n a

  pub length-append : (xs ys : List A) → length (xs ++ ys) ≡ length xs + length ys
  length-append [] ys = omega arith
  length-append (x ∷ xs) ys = omega (arith, length-append xs ys)

abbrev pub has : ℕ → List ℕ → Bool
has a [] = false
has a (x ∷ xs) = (a == x) || has a xs

infix 40 ◌∈◌ ◌∉◌
abbrev pub ◌∈◌ : ℕ → List ℕ → Type 0
a ∈ xs = has a xs ≡ true

abbrev pub ◌∉◌ : ℕ → List ℕ → Type 0
a ∉ xs = has a xs ≡ false

-- No address occurs twice.
abbrev pub Distinct : List ℕ → Type 0
Distinct [] = Unit
Distinct (x ∷ xs) = (x ∉ xs) × Distinct xs

pub has-append : (a : ℕ) (xs ys : List ℕ) → has a (xs ++ ys) ≡ (has a xs || has a ys)
has-append a [] ys = refl
has-append a (x ∷ xs) ys =
    ground (arith, has-append a xs ys, or_assoc (a == x) (has a xs) (has a ys))

-- The parts of a list without repetition, and that they share nothing.
abbrev pub Parts : List ℕ → List ℕ → Type 0
Parts xs ys = Distinct xs × Distinct ys × ((a : ℕ) → a ∈ xs → a ∉ ys)

pub Distinct-split : (xs ys : List ℕ) → Distinct (xs ++ ys) → Parts xs ys
Distinct-split [] ys d = (tt, d, λ a i. absurd (ground arith))
Distinct-split (x ∷ xs) ys (out, d) =
    let (dx, dy, apart) = Distinct-split xs ys d in
    (
      (ground (arith, has-append x xs ys), dx),
      dy,
      λ a i. ground (arith, has-append x xs ys, apart a),
    )

pub Distinct-join :
    (xs ys : List ℕ) → Distinct xs → Distinct ys → ((a : ℕ) → a ∈ xs → a ∉ ys) → Distinct (xs ++ ys)
Distinct-join [] ys dx dy apart = dy
Distinct-join (x ∷ xs) ys dx dy apart = (
  ground (arith, has-append x xs ys, apart x),
  Distinct-join xs ys dx.1 dy (λ a i. apart a (ground arith)),
)
