-- ===== src/Sync/Queue.antt =====
-- Waiters and ready threads: what a round of an acquire and a release do with the two queues.
use mathlib.Core.Path.{subst}
use finux.Prelude.{
  ℕ, ◌-◌, ◌^◌, ◌<◌, ◌≤◌, ◌≡◌, refl, Bool, true, false, ◌||◌, List, [], ◌∷◌, ◌++◌, arith, has, ◌==◌,
  ◌∈◌, ◌∉◌, has-append, sym,
}
use finux.Prelude.Int.{pos, negsuc, is_neg}
use finux.Links.Ring.{IsRing, IsRing-frame, SameOutside, next-first, next-alone}
use finux.Links.{list_del}
use finux.Links.Insert.{list_add_tail-IsRing}
use finux.Links.Remove.{list_del-IsRing, list_del-SameOutside}
use finux.Sched.{Kernel, elem_of, make_ready, thread_yield}
use finux.Sched.Queue.{elems, IsReady, Runs, All32-append, elems-append}
use finux.Sched.Rotate.{make_ready-IsReady}
use finux.Sched.Yield.{thread_yield-Runs, thread_yield-SameOutside}
use finux.Sync.{Lock, wait_on, wake_first, lock_acquire, lock_realse}

-- The threads of `waiters` wait on the list at `list`, and no node stands in two lists.
pub record Waits (k : Kernel) (list r : ℕ) (q waiters : List ℕ) : Type 0 where
  pub runs : Runs k r q
  pub ring : IsRing k.links list (elems waiters)
  pub apart : (a : ℕ) → a ∈ (list ∷ elems waiters) → a ∉ elems (r ∷ q)

wait_on-SameOutside :
    {k : Kernel} (list : ℕ) (flag : Bool) {r : ℕ} {ts ws : List ℕ}
    → Waits k list r ts ws
    → IsRing (wait_on list flag k).links list (elems (ws ++ r ∷ []))
      × SameOutside (elem_of r ∷ list ∷ elems ws) k.links (wait_on list flag k).links
unfolding wait_on
wait_on-SameOutside {k} list flag {r} {ts} {ws} waits =
    let out : elem_of r ∉ (list ∷ elems ws) = ground (arith, waits.apart (elem_of r)) in
    rw (waits.runs.current, elems-append ws (r ∷ []))
      (list_add_tail-IsRing (elem_of r) waits.ring out)

wait_on-Runs :
    {k : Kernel} (list : ℕ) (flag : Bool) {r t : ℕ} {ts ws : List ℕ}
    → Waits k list r (t ∷ ts) ws
    → Runs (wait_on list flag k) r (t ∷ ts)
unfolding wait_on
wait_on-Runs list flag {r} {t} {ts} {ws} waits = record {
  current = waits.runs.current;
  ready = (
    waits.runs.ready.0,
    IsRing-frame (elem_of r ∷ list ∷ elems ws) waits.runs.ready.1
        (unfold wait_on in (wait_on-SameOutside list flag waits).1)
        (λ a i. ground (arith, waits.apart a, waits.runs.apart)),
  );
  apart = waits.runs.apart;
  small = waits.runs.small;
}

-- The nodes of one more waiter.
Waits-apart-snoc :
    {k : Kernel} {list r : ℕ} {ts ws : List ℕ}
    → Waits k list r ts ws
    → (a : ℕ) → a ∈ (list ∷ elems (ws ++ r ∷ []))
    → a ∉ elems ts
Waits-apart-snoc {list} {r} {ts} {ws} waits a i = ground (
  arith,
  waits.apart a,
  waits.runs.apart,
  elems-append ws (r ∷ []),
  has-append a (elems ws) (elem_of r ∷ []),
)

-- A thread that goes behind the waiters and gives the processor away, when two or more are ready.
pub gives_away :
    {k : Kernel} (list : ℕ) (flag : Bool) {r t u : ℕ} {us ws : List ℕ}
    → Waits k list r (t ∷ u ∷ us) ws
    → Waits (thread_yield (wait_on list flag k)) list t (u ∷ us) (ws ++ r ∷ [])
gives_away list flag {r} {t} {u} {us} {ws} waits =
    let waiting = wait_on-Runs list flag waits in
    let ring = (wait_on-SameOutside list flag waits).0 in
    record {
      runs = (thread_yield-Runs waiting).0;
      ring =
          IsRing-frame (elems (t ∷ u ∷ us)) ring (thread_yield-SameOutside waiting)
            (Waits-apart-snoc waits);
      apart = Waits-apart-snoc waits;
    }

-- When two or more threads are ready, a thread that finds the lock taken goes behind the other
-- waiters, and the first ready thread gets the processor; the count stays, and the other ready
-- threads keep their order.
pub lock_acquire-Waits :
    {k : Kernel} {lock : Lock} {r t u : ℕ} {us ws : List ℕ}
    → is_neg lock.value ≡ true
    → Waits k lock.list r (t ∷ u ∷ us) ws
    → let (acquired, lock', k') = lock_acquire lock k in
      (acquired ≡ false) × (lock' ≡ lock) × Waits k' lock.list t (u ∷ us) (ws ++ r ∷ [])
unfolding lock_acquire
lock_acquire-Waits {lock} busy waits = rw busy (refl, refl, gives_away lock.list true waits)

has-elems-snoc :
    (a : ℕ) (ts : List ℕ) (w : ℕ)
    → has a (elems (ts ++ w ∷ [])) ≡ (has a (elems ts) || (a == elem_of w))
has-elems-snoc a ts w =
    ground (arith, elems-append ts (w ∷ []), has-append a (elems ts) (elem_of w ∷ []))

-- Between the two steps of a wake-up the first waiter stands in no list.
module _ {k : Kernel} {list r t w : ℕ} {ts ws : List ℕ}
    (waits : Waits k list r (t ∷ ts) (w ∷ ws)) where
  abbrev taken : Kernel
  taken = record k { links = list_del (elem_of w) k.links }

  taken-IsRing : IsRing taken.links list (elems ws)
  taken-IsRing = (list_del-IsRing [] (elems ws) waits.ring).0

  taken-IsReady : IsReady taken (t ∷ ts)
  taken-IsReady = (
    waits.runs.ready.0,
    IsRing-frame (list ∷ elems (w ∷ ws)) waits.runs.ready.1
        (list_del-IsRing [] (elems ws) waits.ring).2 (λ a i. ground (arith, waits.apart a)),
  )

  woken :
      IsReady (make_ready (elem_of w) taken) (t ∷ ts ++ w ∷ [])
      × SameOutside (elems (w ∷ t ∷ ts)) taken.links (make_ready (elem_of w) taken).links
  woken = make_ready-IsReady taken w t ts taken-IsReady (ground (arith, waits.apart (elem_of w)))

  pub wake_first-Waits : w < 2 ^ 32 → Waits (wake_first list k) list r (t ∷ ts ++ w ∷ []) ws
  unfolding wake_first
  wake_first-Waits small = rw (next-first waits.ring.chain) (record {
    runs = record {
      current = unfold make_ready in waits.runs.current;
      ready = woken.0;
      apart =
          ground
            (arith, waits.runs.apart, waits.apart (elem_of w), has-elems-snoc (elem_of r) ts w);
      small = (waits.runs.small.0, All32-append (t ∷ ts) (w ∷ []) waits.runs.small.1 (small, tt));
    };
    ring =
        IsRing-frame (elems (w ∷ t ∷ ts)) taken-IsRing woken.1
          (λ a i. ground (arith, waits.apart a, waits.ring.distinct));
    apart = λ a i. ground (arith, waits.apart a, waits.ring.distinct, has-elems-snoc a ts w);
  })

-- A release by the holder of a lock (the count is -1), while a thread waits and another is ready,
-- sets the count to 0 and puts the thread that has waited longest behind the ready threads; the
-- other waiters and the ready threads keep their order.
pub lock_realse-Waits :
    {k : Kernel} {lock : Lock} {r t w : ℕ} {ts ws : List ℕ}
    → lock.value ≡ negsuc 0
    → w < 2 ^ 32
    → Waits k lock.list r (t ∷ ts) (w ∷ ws)
    → let (lock', k') = lock_realse lock k in
      (lock' ≡ record lock { value = pos 0 }) × Waits k' lock.list r (t ∷ ts ++ w ∷ []) ws
unfolding lock_realse
lock_realse-Waits held small waits = rw held (refl, wake_first-Waits waits small)

-- The list head of an empty list is taken for a waiter `x`.
head_readied :
    {k : Kernel} {r t : ℕ} {ts : List ℕ} (x : ℕ)
    → x < 2 ^ 32
    → Waits k (elem_of x) r (t ∷ ts) []
    → Runs
        (make_ready (elem_of x) (record k { links = list_del (elem_of x) k.links }))
        r
        (t ∷ ts ++ x ∷ [])
head_readied {k} {r} {t} {ts} x small waits =
    let k' : Kernel = record k { links = list_del (elem_of x) k.links } in
    let kept =
      IsRing-frame (elem_of x ∷ []) waits.runs.ready.1 (list_del-SameOutside waits.ring)
        (λ a i. ground (arith, waits.apart a)) in
    record {
      current = unfold make_ready in waits.runs.current;
      ready =
          (make_ready-IsReady k' x t ts (waits.runs.ready.0, kept)
            (ground (arith, waits.apart (elem_of x)))).0;
      apart =
          ground
            (arith, waits.runs.apart, waits.apart (elem_of x), has-elems-snoc (elem_of r) ts x);
      small = (waits.runs.small.0, All32-append (t ∷ ts) (x ∷ []) waits.runs.small.1 (small, tt));
    }

-- If nobody waits and a thread is ready, a release by the holder (the count is -1) sets the count
-- to 0 and puts the lock's own list head in the ready list, behind the ready threads, where the
-- scheduler will take it for the thread at the address 32 below it.
pub lock_realse-no_waiter :
    {k : Kernel} {lock : Lock} {r t : ℕ} {ts : List ℕ}
    → lock.value ≡ negsuc 0
    → 32 ≤ lock.list
    → lock.list < 2 ^ 32
    → Waits k lock.list r (t ∷ ts) []
    → let (lock', k') = lock_realse lock k in
      (lock' ≡ record lock { value = pos 0 }) × Runs k' r (t ∷ ts ++ (lock.list - 32) ∷ [])
unfolding lock_realse wake_first
lock_realse-no_waiter {k} {lock} {r} {t} {ts} held low high waits =
    let x = lock.list - 32 in
    let e : lock.list ≡ elem_of x = omega arith in
    rw (held, next-alone waits.ring.chain)
      (
        refl,
        subst
            (λ l.
              Runs (make_ready l (record k { links = list_del l k.links })) r (t ∷ ts ++ x ∷ []))
            (sym e) (head_readied x (omega arith) (subst (λ l. Waits k l r (t ∷ ts) []) e waits)),
      )
