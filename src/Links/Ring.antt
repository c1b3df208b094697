-- ===== src/Links/Ring.antt =====
-- Rings of nodes: what a `list_head` and the nodes behind it stand for.
use finux.Prelude.{
  ℕ, ◌≡◌, refl, Bool, true, ◌&&◌, List, [], ◌∷◌, ◌++◌, arith, ◌==◌, ◌∈◌, ◌∉◌, Distinct,
  Distinct-join, has-append,
}
use finux.Links.{Links}

-- The two fields of neighbours agree.
pub record Linked (h : Links) (p q : ℕ) : Type 0 where
  pub forth : h.next p ≡ q
  pub back : h.prev q ≡ p

-- From `p` the links lead through `xs` to `q`, and back.
pub data Chain (h : Links) : ℕ → List ℕ → ℕ → Type 0 where
  last : {p q : ℕ} → Linked h p q → Chain h p [] q
  step : {p q x : ℕ} {xs : List ℕ} → Linked h p x → Chain h x xs q → Chain h p (x ∷ xs) q

-- The ring of the head `p` and the distinct nodes `xs` behind it.
pub record IsRing (h : Links) (p : ℕ) (xs : List ℕ) : Type 0 where
  pub chain : Chain h p xs p
  pub distinct : Distinct (p ∷ xs)

-- The memories `g` and `h` agree outside the nodes `xs`.
pub record SameOutside (xs : List ℕ) (h g : Links) : Type 0 where
  pub next : (a : ℕ) → a ∉ xs → g.next a ≡ h.next a
  pub prev : (a : ℕ) → a ∉ xs → g.prev a ≡ h.prev a

module _ {h : Links} where
  -- A chain needs the `next` of all its nodes but the last, and the `prev` of all but the first.
  pub Chain-frame :
      {g : Links} {p q : ℕ} {xs : List ℕ}
      → Chain h p xs q
      → ((a : ℕ) → a ∈ (p ∷ xs) → g.next a ≡ h.next a)
      → ((a : ℕ) → a ∈ (q ∷ xs) → g.prev a ≡ h.prev a)
      → Chain g p xs q
  Chain-frame (last {p} {q} l) n v = last (ground (arith, n p, v q, l.forth, l.back))
  Chain-frame (step {p} {x} l c) n v =
      step (ground (arith, n p, v x, l.forth, l.back))
        (Chain-frame c (λ a i. n a (ground arith)) (λ a i. v a (ground arith)))

  pub Chain-append :
      {p x q : ℕ} {xs ys : List ℕ} → Chain h p xs x → Chain h x ys q → Chain h p (xs ++ x ∷ ys) q
  Chain-append (last l) d = step l d
  Chain-append (step l c) d = step l (Chain-append c d)

  pub Chain-split :
      {p q x : ℕ} (xs : List ℕ) {ys : List ℕ}
      → Chain h p (xs ++ x ∷ ys) q
      → Chain h p xs x × Chain h x ys q
  Chain-split [] (step l c) = (last l, c)
  Chain-split (y ∷ xs) (step l c) = let (a, b) = Chain-split xs c in (step l a, b)

  -- The last node of a chain is the `prev` of its end.
  pub prev-mem : {p q : ℕ} {xs : List ℕ} → Chain h p xs q → h.prev q ∈ (p ∷ xs)
  prev-mem (last l) = ground (arith, l.back)
  prev-mem (step l c) = ground (arith, prev-mem c)

  pub next-prev : {p q : ℕ} {xs : List ℕ} → Chain h p xs q → h.next (h.prev q) ≡ q
  next-prev (last l) = rw l.back l.forth
  next-prev (step l c) = next-prev c

  pub next-mem : {p q : ℕ} {xs : List ℕ} → Chain h p xs q → h.next p ∈ (q ∷ xs)
  next-mem (last l) = ground (arith, l.forth)
  next-mem (step l c) = ground (arith, l.forth)

  -- Any node of a ring may be taken for its head.
  pub IsRing-rotate : {p x : ℕ} {xs : List ℕ} → IsRing h p (x ∷ xs) → IsRing h x (xs ++ p ∷ [])
  IsRing-rotate {p} {x} {xs} ring =
      let (c, d) = Chain-split [] ring.chain in
      record {
        chain = Chain-append d c;
        distinct = (
          ground (arith, ring.distinct, has-append x xs (p ∷ [])),
          Distinct-join xs (p ∷ []) ring.distinct.1.1 (refl, tt)
              (λ a i. ground (arith, ring.distinct)),
        );
      }

  pub next-first : {p q x : ℕ} {xs : List ℕ} → Chain h p (x ∷ xs) q → h.next p ≡ x
  next-first (step l c) = l.forth

  -- A chain with nothing between its ends.
  pub next-alone : {p q : ℕ} → Chain h p [] q → h.next p ≡ q
  next-alone (last l) = l.forth

  pub prev-alone : {p q : ℕ} → Chain h p [] q → h.prev q ≡ p
  prev-alone (last l) = l.back

-- A ring survives a change elsewhere.
pub IsRing-frame :
    {h g : Links} {p : ℕ} (zs : List ℕ) {xs : List ℕ}
    → IsRing h p xs
    → SameOutside zs h g
    → ((a : ℕ) → a ∈ (p ∷ xs) → a ∉ zs)
    → IsRing g p xs
IsRing-frame zs ring same apart = record {
  chain = Chain-frame ring.chain (λ a i. same.next a (apart a i)) (λ a i. same.prev a (apart a i));
  distinct = ring.distinct;
}

-- A chain is found by following the links.
abbrev pub is_chain : Links → ℕ → List ℕ → ℕ → Bool
is_chain h p [] q = (h.next p == q) && (h.prev q == p)
is_chain h p (x ∷ xs) q = (h.next p == x) && (h.prev x == p) && is_chain h x xs q

pub is_chain-Chain :
    (h : Links) (p : ℕ) (xs : List ℕ) (q : ℕ) → is_chain h p xs q ≡ true → Chain h p xs q
is_chain-Chain h p [] q found =
    last (record { forth = ground (arith, found); back = ground (arith, found) })
is_chain-Chain h p (x ∷ xs) q found =
    step (record { forth = ground (arith, found); back = ground (arith, found) })
      (is_chain-Chain h x xs q (ground (arith, found)))
