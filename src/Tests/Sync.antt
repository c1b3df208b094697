-- ===== src/Tests/Sync.antt =====
-- The lock whose list head is at 5000: the thread 1000 runs, 2000 and 3000 are ready, 4000 waits.
use finux.Prelude.{ℕ, ◌≡◌, refl, true, false, List, [], ◌∷◌, update, arith}
use finux.Prelude.Int.{pos, negsuc}
use finux.Links.Ring.{is_chain-Chain}
use finux.Sched.{Kernel}
use finux.Sched.Queue.{Runs}
use finux.Sync.{Lock, lock_acquire, lock_realse}
use finux.Sync.Queue.{Waits, lock_acquire-Waits, lock_realse-Waits, lock_realse-no_waiter}

abbrev held : Lock
held = record { value = negsuc 0; list = 5000 }

abbrev some_waiter : Kernel
some_waiter = record {
  links = record {
    next = update (update (update (update (λ a. 0) 2032 3032) 3032 2032) 5000 4032) 4032 5000;
    prev = update (update (update (update (λ a. 0) 2032 3032) 3032 2032) 5000 4032) 4032 5000;
  };
  ready_list = 2032;
  ready_thread = 0;
  current_thread = 1000;
  ticks = 0;
  interrupts = true;
  screen = λ a. 0;
}

abbrev no_waiter : Kernel
no_waiter = record some_waiter {
  links = record {
    next = update (update (update (λ a. 0) 2032 3032) 3032 2032) 5000 5000;
    prev = update (update (update (λ a. 0) 2032 3032) 3032 2032) 5000 5000;
  };
}

abbrev queue : List ℕ
queue = 2000 ∷ 3000 ∷ []

some_waiter-Runs : Runs some_waiter 1000 queue
some_waiter-Runs = record {
  current = refl;
  ready = (
    refl,
    record {
      chain = is_chain-Chain some_waiter.links 2032 (3032 ∷ []) 2032 refl;
      distinct = (refl, (refl, tt));
    },
  );
  apart = refl;
  small = (omega arith, (omega arith, (omega arith, tt)));
}

some_waiter-Waits : Waits some_waiter 5000 1000 queue (4000 ∷ [])
some_waiter-Waits = record {
  runs = some_waiter-Runs;
  ring = record {
    chain = is_chain-Chain some_waiter.links 5000 (4032 ∷ []) 5000 refl;
    distinct = (refl, (refl, tt));
  };
  apart = λ a i. ground arith;
}

no_waiter-Waits : Waits no_waiter 5000 1000 queue []
no_waiter-Waits = record {
  runs = record {
    current = refl;
    ready = (
      refl,
      record {
        chain = is_chain-Chain no_waiter.links 2032 (3032 ∷ []) 2032 refl;
        distinct = (refl, (refl, tt));
      },
    );
    apart = refl;
    small = (omega arith, (omega arith, (omega arith, tt)));
  };
  ring = record { chain = is_chain-Chain no_waiter.links 5000 [] 5000 refl; distinct = (refl, tt) };
  apart = λ a i. ground arith;
}

lock_acquire-Waits_example :
    let (acquired, lock', k') = lock_acquire held some_waiter in
    (acquired ≡ false) × (lock' ≡ held) × Waits k' 5000 2000 (3000 ∷ []) (4000 ∷ 1000 ∷ [])
lock_acquire-Waits_example = lock_acquire-Waits refl some_waiter-Waits

lock_realse-Waits_example :
    let (lock', k') = lock_realse held some_waiter in
    (lock' ≡ record held { value = pos 0 }) × Waits k' 5000 1000 (2000 ∷ 3000 ∷ 4000 ∷ []) []
lock_realse-Waits_example = lock_realse-Waits refl (omega arith) some_waiter-Waits

lock_realse-no_waiter_example :
    let (lock', k') = lock_realse held no_waiter in
    (lock' ≡ record held { value = pos 0 }) × Runs k' 1000 (2000 ∷ 3000 ∷ 4968 ∷ [])
lock_realse-no_waiter_example =
    lock_realse-no_waiter refl (omega arith) (omega arith) no_waiter-Waits
