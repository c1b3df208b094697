-- ===== src/Sched/Queue.antt =====
-- The abstract scheduler: one running thread, and a queue of ready ones.
use finux.Prelude.{ℕ, ◌^◌, ◌<◌, ◌≡◌, refl, List, [], ◌∷◌, ◌++◌, arith, ◌∉◌, ap}
use finux.Links.Ring.{IsRing}
use finux.Sched.{elem_of, list_entry, Kernel}

abbrev pub elems : List ℕ → List ℕ
elems [] = []
elems (t ∷ ts) = elem_of t ∷ elems ts

abbrev pub All32 : List ℕ → Type 0
All32 [] = Unit
All32 (t ∷ ts) = (t < 2 ^ 32) × All32 ts

-- `READY_LIST` points to the ring of the queue, which is not empty.
abbrev pub IsReady : Kernel → List ℕ → Type 0
IsReady k [] = ⊥
IsReady k (t ∷ ts) = (k.ready_list ≡ elem_of t) × IsRing k.links (elem_of t) (elems ts)

-- `running` has the processor, and the threads of `queue` wait for it in this order.
pub record Runs (k : Kernel) (running : ℕ) (queue : List ℕ) : Type 0 where
  pub current : k.current_thread ≡ running
  pub ready : IsReady k queue
  pub apart : elem_of running ∉ elems queue
  pub small : All32 (running ∷ queue)

pub elems-append : (xs ys : List ℕ) → elems (xs ++ ys) ≡ elems xs ++ elems ys
elems-append [] ys = refl
elems-append (x ∷ xs) ys = ap (λ l. elem_of x ∷ l) (elems-append xs ys)

pub All32-append : (xs ys : List ℕ) → All32 xs → All32 ys → All32 (xs ++ ys)
All32-append [] ys a b = b
All32-append (x ∷ xs) ys a b = (a.0, All32-append xs ys a.1 b)

pub list_entry-elem_of : (t : ℕ) → t < 2 ^ 32 → list_entry (elem_of t) ≡ t
list_entry-elem_of t h = omega arith
