-- ===== src/Sync.antt =====
-- Locks and semaphores of kernel/sync/sync.c. The `while` loop of an acquire is split into its
-- rounds: a round that finds the lock taken gives the processor away, and the thread goes on with
-- another round when it is scheduled again.
pub mod Queue
pub mod Count
pub mod Semaphore
pub mod Mutex
pub mod Race
use finux.Prelude.{ℕ, zero, suc, Bool, true, false, not, ◌&&◌, if◌then◌else◌}
use finux.Prelude.Int.{ℤ, pos, succ, pred, is_neg}
use finux.Links.{init_list_head, list_add_tail, list_del}
use finux.Sched.{Kernel, elem_of, make_ready, thread_yield}

-- `struct lock`: the count, and the address of its `list_head`.
pub record Lock : Type 0 where
  pub value : ℤ
  pub list : ℕ

-- `struct sema`
pub record Sema : Type 0 where
  pub value : ℤ
  pub list : ℕ

unfoldable pub get_lock : Lock → Kernel → Lock × Kernel
get_lock lock k =
    (record lock { value = pos 0 }, record k { links = init_list_head lock.list k.links })

-- `cli`, the insertion into the waiters and, for a lock, `sti`.
pub wait_on : ℕ → Bool → Kernel → Kernel
wait_on list flag k = record k {
  links = list_add_tail (elem_of k.current_thread) (k.links.prev list) k.links;
  interrupts = flag;
}

-- One round of the loop: whether the lock is acquired.
pub lock_acquire : Lock → Kernel → Bool × Lock × Kernel
lock_acquire lock k =
    if is_neg lock.value
    then (false, lock, thread_yield (wait_on lock.list true k))
    else (true, record lock { value = pred lock.value }, k)

-- The first waiter, or whatever the `next` of the list head is, goes to the ready list.
pub wake_first : ℕ → Kernel → Kernel
wake_first list k =
    let tmp = k.links.next list in make_ready tmp (record k { links = list_del tmp k.links })

pub lock_realse : Lock → Kernel → Lock × Kernel
lock_realse lock k =
    let lock1 = record lock { value = succ lock.value } in
    (lock1, if not (is_neg lock1.value) then wake_first lock1.list k else k)

-- `value` is below 2^31, so that it is the same number as an `int`.
unfoldable pub get_sema : Sema → ℕ → Kernel → Sema × Kernel
get_sema lock value k =
    (record lock { value = pos value }, record k { links = init_list_head lock.list k.links })

unfoldable pub sema_acquire : Sema → Kernel → Bool × Sema × Kernel
sema_acquire lock k =
    if is_neg lock.value
    then (false, lock, thread_yield (wait_on lock.list false k))
    else (true, record lock { value = pred lock.value }, k)

pub sema_realse : Sema → Kernel → Sema × Kernel
sema_realse lock k =
    let lock1 = record lock { value = succ lock.value } in
    (lock1, if not (is_neg lock1.value) then wake_first lock1.list k else k)

-- `n` acquisitions in a row, and whether each found the semaphore free.
unfoldable pub sema_acquires : ℕ → Sema → Kernel → Bool × Sema × Kernel
sema_acquires zero lock k = (true, lock, k)
sema_acquires (suc n) lock k =
    let (acquired, lock1, k1) = sema_acquires n lock k in
    let (free, lock2, k2) = sema_acquire lock1 k1 in (acquired && free, lock2, k2)
