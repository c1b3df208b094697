-- ===== src/Fs/Partition/Placed.antt =====
-- Arrays into which a list is written from one index on.
use finux.Prelude.{
  ℕ, zero, suc, ◌+◌, ◌≤◌, ◌<◌, ◌≡◌, ◌⊎◌, ◌-◌, refl, sym, ◌∙◌, ◌++◌, length-append, arith, inl, inr,
  ltb, Bool-cases, List, [], ◌∷◌, get_or, length, update,
}

-- The list stands from `at` on, and the other cells are as before.
pub record Placed {ℓ} {A : Type ℓ} (xs : List A) (at : ℕ) (before after : ℕ → A) : Type ℓ where
  pub inside : (k : ℕ) (d : A) → k < length xs → after (at + k) ≡ get_or xs k d
  pub outside : (k : ℕ) → (k < at) ⊎ (at + length xs ≤ k) → after k ≡ before k

pub Placed-none {ℓ} : {A : Type ℓ} (at : ℕ) (f : ℕ → A) → Placed [] at f f
Placed-none at f = record { inside = λ k d low. absurd (omega arith); outside = λ k out. refl }

pub Placed-update {ℓ} :
    {A : Type ℓ} {xs : List A} {at : ℕ} {f g : ℕ → A} {x : A}
    → Placed xs (at + 1) (update f at x) g
    → Placed (x ∷ xs) at f g
Placed-update {A} {xs} {at} {f} {g} {x} rest = record {
  inside = inside;
  outside = λ k out. ground (arith, rest.outside k (ground arith));
}
  where
    inside : (k : ℕ) (d : A) → k < suc (length xs) → g (at + k) ≡ get_or (x ∷ xs) k d
    inside zero d low =
        let here : at + 0 ≡ at = omega arith in ground (arith, rest.outside at (inl (omega arith)))
    inside (suc k) d low =
        let next : at + 1 + k ≡ at + suc k = omega arith in
        rw next at (rest.inside k d (omega arith))

get_or-append_left {ℓ} :
    {A : Type ℓ} (xs ys : List A) (k : ℕ) (d : A)
    → k < length xs
    → get_or (xs ++ ys) k d ≡ get_or xs k d
get_or-append_left [] ys k d low = absurd (omega arith)
get_or-append_left (x ∷ xs) ys zero d low = refl
get_or-append_left (x ∷ xs) ys (suc k) d low = get_or-append_left xs ys k d (omega arith)

get_or-append_right {ℓ} :
    {A : Type ℓ} (xs ys : List A) (k : ℕ) (d : A)
    → length xs ≤ k
    → get_or (xs ++ ys) k d ≡ get_or ys (k - length xs) d
get_or-append_right [] ys k d high = let same : k - 0 ≡ k = omega arith in rw same refl
get_or-append_right (x ∷ xs) ys zero d high = absurd (omega arith)
get_or-append_right (x ∷ xs) ys (suc k) d high =
    let back : suc k - suc (length xs) ≡ k - length xs = omega arith in
    rw back (get_or-append_right xs ys k d (omega arith))

-- A list behind a list.
pub Placed-append {ℓ} :
    {A : Type ℓ} {xs ys : List A} {at : ℕ} {f g h : ℕ → A}
    → Placed xs at f g
    → Placed ys (at + length xs) g h
    → Placed (xs ++ ys) at f h
Placed-append {A} {xs} {ys} {at} {f} {g} {h} one two =
    let both : length (xs ++ ys) ≡ length xs + length ys = length-append xs ys in
    record {
      inside = λ k d low. elim (Bool-cases (ltb k (length xs))) [
        | inl inside ↦
            let below : k < length xs = ground (arith, inside) in
            two.outside (at + k) (inl (omega arith))
            ∙ one.inside k d below
            ∙ sym (get_or-append_left xs ys k d below)
        | inr past ↦
            let above : length xs ≤ k = ground (arith, past) in
            let back : at + length xs + (k - length xs) ≡ at + k = omega (arith, above) in
            rw back at (two.inside (k - length xs) d (omega (arith, both, above)))
            ∙ sym (get_or-append_right xs ys k d (omega (arith, above)))
      ];
      outside =
          λ k out. two.outside k (ground (arith, both)) ∙ one.outside k (ground (arith, both));
    }
