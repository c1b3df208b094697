-- ===== src/Links/Remove.antt =====
-- `list_del` and `list_replace` on rings.
use mathlib.Core.List.{append-nil}
use finux.Prelude.{
  ℕ, ◌≢◌, refl, List, [], ◌∷◌, ◌++◌, arith, ◌∈◌, ◌∉◌, Distinct, has-append, Distinct-join,
  Distinct-split,
}
use finux.Links.{Links, init_list_head, unlink, list_del, list_replace}
use finux.Links.Ring.{
  Chain, last, step, IsRing, SameOutside, Chain-frame, Chain-split, IsRing-rotate, prev-mem,
  next-mem,
}

module _ {h : Links} {e : ℕ} where
  -- The chains on the two sides of a deleted node are joined.
  del-Chain :
      {p q : ℕ} {xs ys : List ℕ}
      → Chain h p xs e
      → Chain h e ys q
      → Distinct (p ∷ xs)
      → Distinct (e ∷ ys)
      → ((a : ℕ) → a ∈ (p ∷ xs) → a ∉ (e ∷ ys))
      → q ∉ (e ∷ xs)
      → q ∉ ys
      → Chain (list_del e h) p (xs ++ ys) q
  unfolding list_del unlink init_list_head
  del-Chain {p} (last l) (last m) dx dy apart qx qy = last (ground (arith, apart p))
  del-Chain {p} (last l) (step {x} m d) dx dy apart qx qy =
      step (ground (arith, apart p))
        (Chain-frame d (λ a i. ground (arith, apart p)) (λ a i. ground arith))
  del-Chain {p} (step {x} l c) d dx dy apart qx qy =
      step (ground (arith, apart p, apart x, prev-mem c, next-mem d))
        (del-Chain c d dx.1 dy (λ a i. apart a (ground arith)) (ground arith) qy)

  -- `list_del(entry)` takes a node out of its ring, keeps the order of the others, leaves the node
  -- as a ring of its own, and writes to the ring's nodes only.
  pub list_del-IsRing :
      {p : ℕ} (xs ys : List ℕ)
      → IsRing h p (xs ++ e ∷ ys)
      → IsRing (list_del e h) p (xs ++ ys)
        × IsRing (list_del e h) e []
        × SameOutside (p ∷ xs ++ e ∷ ys) h (list_del e h)
  list_del-IsRing {p} xs ys ring =
      let (c, d) = Chain-split xs ring.chain in
      let (dx, dy, apart) = Distinct-split xs (e ∷ ys) ring.distinct.1 in
      let out = has-append p xs (e ∷ ys) in
      (
        record {
          chain =
              del-Chain c d (ground (arith, out, ring.distinct), dx) dy
                (λ a i. ground (arith, out, ring.distinct, apart a))
                (ground (arith, out, ring.distinct)) (ground (arith, out, ring.distinct));
          distinct = (
            ground (arith, out, ring.distinct, has-append p xs ys),
            Distinct-join xs ys dx dy.1 (λ a i. ground (arith, apart a)),
          );
        },
        record {
          chain = unfold list_del unlink init_list_head in last {p = e} {q = e} (ground arith);
          distinct = (refl, tt);
        },
        unfold list_del unlink init_list_head in
            record {
              next = λ a o. ground (arith, prev-mem c, has-append a xs (e ∷ ys));
              prev = λ a o. ground (arith, next-mem d, has-append a xs (e ∷ ys));
            },
      )

-- Deleting the head leaves the ring of the next node.
pub list_del-head :
    {h : Links} {p x : ℕ} {xs : List ℕ}
    → IsRing h p (x ∷ xs)
    → IsRing (list_del p h) x xs × IsRing (list_del p h) p []
list_del-head {h} {p} {x} {xs} ring =
    let (rest, alone, same) = list_del-IsRing xs [] (IsRing-rotate ring) in
    (rw (append-nil xs) at rest, alone)

-- It writes to the ring's nodes only.
pub list_del-SameOutside :
    {h : Links} {p : ℕ} {xs : List ℕ} → IsRing h p xs → SameOutside (p ∷ xs) h (list_del p h)
unfolding list_del unlink init_list_head
list_del-SameOutside ring = record {
  next = λ a o. ground (arith, prev-mem ring.chain, next-mem ring.chain);
  prev = λ a o. ground (arith, prev-mem ring.chain, next-mem ring.chain);
}

module _ {h : Links} (new old : ℕ) where
  replace-Chain :
      {x : ℕ} {xs : List ℕ}
      → Chain h x xs old
      → Distinct (x ∷ xs)
      → h.next old ∉ xs
      → h.next old ≢ old
      → old ∉ (x ∷ xs)
      → new ∉ (old ∷ x ∷ xs)
      → Chain (list_replace new old h) x xs new
  unfolding list_replace init_list_head
  replace-Chain (last l) d first ne out fresh = last (ground arith)
  replace-Chain (step l c) d first ne out fresh =
      step (ground (arith, prev-mem c))
        (replace-Chain c d.1 (ground arith) ne (ground arith) (ground arith))

  replace-first :
      {xs : List ℕ}
      → Chain h old xs old
      → Distinct (old ∷ xs)
      → new ∉ (old ∷ xs)
      → Chain (list_replace new old h) new xs new
  unfolding list_replace init_list_head
  replace-first (last l) d fresh = last (ground arith)
  replace-first (step l c) d fresh =
      step (ground (arith, prev-mem c))
        (replace-Chain c d.1 (ground (arith, d)) (ground (arith, d)) d.0 fresh)

  replace-SameOutside :
      {xs : List ℕ} → Chain h old xs old → SameOutside (new ∷ old ∷ xs) h (list_replace new old h)
  unfolding list_replace init_list_head
  replace-SameOutside c = record {
    next = λ a o. ground (arith, prev-mem c, next-mem c);
    prev = λ a o. ground (arith, prev-mem c, next-mem c);
  }

  -- `list_replace(new, old)` puts `new`, which the ring does not hold, at the place of `old`,
  -- leaves `old` as a ring of its own, and writes to the ring's nodes and to `new` only.
  pub list_replace-IsRing :
      {xs : List ℕ}
      → IsRing h old xs
      → new ∉ (old ∷ xs)
      → IsRing (list_replace new old h) new xs
        × IsRing (list_replace new old h) old []
        × SameOutside (new ∷ old ∷ xs) h (list_replace new old h)
  list_replace-IsRing ring fresh = (
    record {
      chain = replace-first ring.chain ring.distinct fresh;
      distinct = ground (arith, ring.distinct);
    },
    record {
      chain = unfold list_replace init_list_head in last {p = old} {q = old} (ground arith);
      distinct = (refl, tt);
    },
    replace-SameOutside ring.chain,
  )
