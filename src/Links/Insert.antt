-- ===== src/Links/Insert.antt =====
-- `list_add` and `list_add_tail` on rings.
use finux.Prelude.{
  ℕ, ◌≢◌, refl, List, [], ◌∷◌, ◌++◌, arith, ◌∉◌, Distinct, has-append, Distinct-join,
}
use finux.Links.{Links, link_between, list_add, list_add_tail}
use finux.Links.Ring.{
  Chain, last, step, IsRing, SameOutside, Chain-frame, prev-mem, next-mem, next-prev,
}

module _ {h : Links} (new : ℕ) where
  add-Chain :
      {p : ℕ} {xs : List ℕ}
      → Chain h p xs p
      → Distinct (p ∷ xs)
      → new ∉ (p ∷ xs)
      → Chain (list_add new p h) p (new ∷ xs) p
  unfolding list_add link_between
  add-Chain (last l) d out = step (ground arith) (last (ground arith))
  add-Chain (step l c) d out =
      step (ground arith)
        (step (ground arith) (Chain-frame c (λ a i. ground arith) (λ a i. ground arith)))

  -- Insertion before the end `q` of a chain, between `q->prev` and `q`.
  snoc-Chain :
      {p q : ℕ} {xs : List ℕ}
      → Chain h p xs q
      → Distinct (p ∷ xs)
      → q ∉ xs
      → new ∉ (p ∷ xs)
      → new ≢ q
      → Chain (link_between new (h.prev q) q h) p (xs ++ new ∷ []) q
  unfolding link_between
  snoc-Chain (last l) d end out ne = step (ground arith) (last (ground arith))
  snoc-Chain (step l c) d end out ne =
      step (ground (arith, prev-mem c)) (snoc-Chain c d.1 (ground arith) (ground arith) ne)

  add-SameOutside :
      {p : ℕ} {xs : List ℕ} → Chain h p xs p → SameOutside (new ∷ p ∷ xs) h (list_add new p h)
  unfolding list_add link_between
  add-SameOutside c = record {
    next = λ a o. ground (arith, next-mem c);
    prev = λ a o. ground (arith, next-mem c);
  }

  -- `list_add(new, head)` puts `new` right behind the head of a ring that does not hold it, and
  -- writes to the ring's nodes and to `new` only.
  pub list_add-IsRing :
      {p : ℕ} {xs : List ℕ}
      → IsRing h p xs
      → new ∉ (p ∷ xs)
      → IsRing (list_add new p h) p (new ∷ xs) × SameOutside (new ∷ p ∷ xs) h (list_add new p h)
  list_add-IsRing {p} {xs} ring out = (
    record {
      chain = add-Chain ring.chain ring.distinct out;
      distinct = ground (arith, ring.distinct);
    },
    add-SameOutside ring.chain,
  )

  -- `list_add_tail(new, head->prev)` appends `new` to a ring that does not hold it.
  pub list_add_tail-IsRing :
      {p : ℕ} {xs : List ℕ}
      → IsRing h p xs
      → new ∉ (p ∷ xs)
      → IsRing (list_add_tail new (h.prev p) h) p (xs ++ new ∷ [])
        × SameOutside (new ∷ p ∷ xs) h (list_add_tail new (h.prev p) h)
  unfolding list_add_tail
  list_add_tail-IsRing {p} {xs} ring out = rw (next-prev ring.chain) (
    record {
      chain = snoc-Chain ring.chain ring.distinct ring.distinct.0 out (ground arith);
      distinct = (
        ground (arith, has-append p xs (new ∷ [])),
        Distinct-join xs (new ∷ []) ring.distinct.1 (refl, tt) (λ a i. ground arith),
      );
    },
    unfold link_between in
        record {
          next = λ a o. ground (arith, prev-mem ring.chain);
          prev = λ a o. ground (arith, prev-mem ring.chain);
        },
  )
