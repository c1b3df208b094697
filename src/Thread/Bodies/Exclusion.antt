-- ===== src/Thread/Bodies/Exclusion.antt =====
-- The two test threads never use the lock at once.
use finux.Prelude.{
  ℕ, zero, suc, ◌≡◌, ◌≢◌, refl, arith, true, false, Bool-cases, inl, inr, [], ◌∷◌, List, ◌∈◌,
}
use finux.Prelude.Int.{pos}
use finux.Sync.Mutex.{
  System, Reach, Exclusive, start, later, acquires, realses, ticks, shows, free, held, without,
  Reach-from,
}
use finux.Thread.Bodies.{
  Place, beginning, acquiring, counting, finished, Demo, test_lock1_step, test_lock2_step, has_lock,
  in_lock, step1, step2, DemoStep, runs1, runs2, idles, interrupted, DemoReach, demo_start,
  demo_later,
}

module _ (init_struct t1 t2 : ℕ) where
  -- The system is one that the steps of Sync.Mutex lead to, and a thread in the lock holds it.
  pub record Inv (s0 : System) (d : Demo) : Type 0 where
    pub reach : Reach s0 d.system
    pub holds1 : in_lock d.place1 ≡ true → t1 ∈ d.system.holders
    pub holds2 : in_lock d.place2 ≡ true → t2 ∈ d.system.holders

  abbrev at : Place → Place → System → Demo
  at place1 place2 s = record { system = s; place1 = place1; place2 = place2 }

  without-other : (x y : ℕ) (xs : List ℕ) → x ≢ y → y ∈ xs → y ∈ without x xs
  without-other x y [] apart holds = holds
  without-other x y (z ∷ zs) apart holds = ground (arith, without-other x y zs)

  step1-Inv :
      (s0 s : System) (place1 place2 : Place)
      → t1 ≢ t2
      → s.kernel.current_thread ≡ t1
      → Inv s0 (at place1 place2 s)
      → Inv s0 (step1 (at place1 place2 s))
  unfolding test_lock1_step
  step1-Inv s0 s beginning place2 apart runs inv = record {
    reach = later inv.reach (shows s _);
    holds1 = λ h. ground arith;
    holds2 = inv.holds2;
  }
  step1-Inv s0 s acquiring place2 apart runs inv = elim (Bool-cases (has_lock s)) [
    | inl got ↦ record {
      reach = later inv.reach (acquires s);
      holds1 = λ h. rw (got, runs) (ground arith);
      holds2 = λ h. rw (got, runs) (ground (arith, inv.holds2 h));
    }
    | inr busy ↦ record {
      reach = later inv.reach (acquires s);
      holds1 = λ h. rw busy (inv.holds1 (rw busy at h));
      holds2 = λ h. rw busy (inv.holds2 h);
    }
  ]
  step1-Inv s0 s (counting zero) place2 apart runs inv = record {
    reach = later inv.reach (realses s (rw runs (inv.holds1 refl)));
    holds1 = λ h. ground arith;
    holds2 = λ h. rw runs (without-other t1 t2 s.holders apart (inv.holds2 h));
  }
  step1-Inv s0 s (counting (suc left)) place2 apart runs inv = record {
    reach = later inv.reach (shows s _);
    holds1 = inv.holds1;
    holds2 = inv.holds2;
  }
  step1-Inv s0 s finished place2 apart runs inv = record {
    reach = later inv.reach (shows s _);
    holds1 = inv.holds1;
    holds2 = inv.holds2;
  }

  step2-Inv :
      (s0 s : System) (place1 place2 : Place)
      → t1 ≢ t2
      → s.kernel.current_thread ≡ t2
      → Inv s0 (at place1 place2 s)
      → Inv s0 (step2 (at place1 place2 s))
  unfolding test_lock2_step
  step2-Inv s0 s place1 beginning apart runs inv = record {
    reach = later inv.reach (shows s _);
    holds1 = inv.holds1;
    holds2 = λ h. ground arith;
  }
  step2-Inv s0 s place1 acquiring apart runs inv = elim (Bool-cases (has_lock s)) [
    | inl got ↦ record {
      reach = later inv.reach (acquires s);
      holds1 = λ h. rw (got, runs) (ground (arith, inv.holds1 h));
      holds2 = λ h. rw (got, runs) (ground arith);
    }
    | inr busy ↦ record {
      reach = later inv.reach (acquires s);
      holds1 = λ h. rw busy (inv.holds1 h);
      holds2 = λ h. rw busy (inv.holds2 (rw busy at h));
    }
  ]
  step2-Inv s0 s place1 (counting left) apart runs inv = record {
    reach = later inv.reach (shows s _);
    holds1 = inv.holds1;
    holds2 = inv.holds2;
  }
  step2-Inv s0 s place1 finished apart runs inv = inv

  DemoStep-Inv :
      {d e : Demo} (s0 : System) → t1 ≢ t2 → DemoStep init_struct t1 t2 d e → Inv s0 d → Inv s0 e
  DemoStep-Inv s0 apart (runs1 d runs) inv = step1-Inv s0 d.system d.place1 d.place2 apart runs inv
  DemoStep-Inv s0 apart (runs2 d runs) inv = step2-Inv s0 d.system d.place1 d.place2 apart runs inv
  DemoStep-Inv s0 apart (idles d runs) inv = record {
    reach = later inv.reach (shows d.system _);
    holds1 = inv.holds1;
    holds2 = inv.holds2;
  }
  DemoStep-Inv s0 apart (interrupted d n) inv = record {
    reach = later inv.reach (ticks d.system n);
    holds1 = inv.holds1;
    holds2 = inv.holds2;
  }

  DemoReach-Inv :
      {d e : Demo} (s0 : System) → t1 ≢ t2 → DemoReach init_struct t1 t2 d e → Inv s0 d → Inv s0 e
  DemoReach-Inv s0 apart demo_start inv = inv
  DemoReach-Inv s0 apart (demo_later reach step) inv =
      DemoStep-Inv s0 apart step (DemoReach-Inv s0 apart reach inv)

  -- What `init_thread` leaves to the bodies: a lock that is free.
  pub record IsNew (d : Demo) : Type 0 where
    pub value : d.system.lock.value ≡ pos 0
    pub nobody : d.system.holders ≡ []
    pub place1 : d.place1 ≡ beginning
    pub place2 : d.place2 ≡ beginning

  IsNew-Inv : (d : Demo) → IsNew d → Inv d.system d
  IsNew-Inv d new = record {
    reach = start;
    holds1 = λ h. ground (arith, new.place1);
    holds2 = λ h. ground (arith, new.place2);
  }

  -- One thread holds the lock at most.
  only_holder : (s : System) → Exclusive s → t1 ≢ t2 → t1 ∈ s.holders → t2 ∈ s.holders → ⊥
  only_holder s (free value nobody) apart has1 has2 = ground (arith, nobody)
  only_holder s (held h value one) apart has1 has2 = ground (arith, one)

  -- From a free lock, with the two threads at different addresses, no sequence of steps of
  -- `test_lock1`, `test_lock2` and `init_thread`, each while its thread runs, and of timer ticks
  -- between them leads to both threads being between the acquire and the release; and the lock is
  -- held by nobody with count 0, or by one thread with count -1.
  pub test_locks-Exclusive :
      (d e : Demo)
      → t1 ≢ t2
      → IsNew d
      → DemoReach init_struct t1 t2 d e
      → Exclusive e.system × ¬ ((in_lock e.place1 ≡ true) × (in_lock e.place2 ≡ true))
  test_locks-Exclusive d e apart new reach =
      let inv = DemoReach-Inv d.system apart reach (IsNew-Inv d new) in
      let exclusive = Reach-from inv.reach (free new.value new.nobody) in
      (
        exclusive,
        λ both. only_holder e.system exclusive apart (inv.holds1 both.0) (inv.holds2 both.1),
      )

  step2-in_lock :
      (s : System) (place1 place2 : Place)
      → in_lock place2 ≡ true
      → in_lock (step2 (at place1 place2 s)).place2 ≡ true
  unfolding test_lock2_step
  step2-in_lock s place1 (counting left) inside = refl
  step2-in_lock s place1 beginning inside = absurd (ground arith)
  step2-in_lock s place1 acquiring inside = absurd (ground arith)
  step2-in_lock s place1 finished inside = absurd (ground arith)

  DemoStep-in_lock :
      {d e : Demo}
      → DemoStep init_struct t1 t2 d e
      → in_lock d.place2 ≡ true
      → in_lock e.place2 ≡ true
  DemoStep-in_lock (runs1 d runs) inside = inside
  DemoStep-in_lock (runs2 d runs) inside = step2-in_lock d.system d.place1 d.place2 inside
  DemoStep-in_lock (idles d runs) inside = inside
  DemoStep-in_lock (interrupted d n) inside = inside

  DemoReach-in_lock :
      {d e : Demo}
      → DemoReach init_struct t1 t2 d e
      → in_lock d.place2 ≡ true
      → in_lock e.place2 ≡ true
  DemoReach-in_lock demo_start inside = inside
  DemoReach-in_lock (demo_later reach step) inside =
      DemoStep-in_lock step (DemoReach-in_lock reach inside)

  -- From a free lock, and with the two threads at different addresses: once `test_lock2` is behind
  -- its acquire it stays there, and `test_lock1` is outside of the lock for ever after.
  pub test_lock2-Keeps :
      (d e f : Demo)
      → t1 ≢ t2
      → IsNew d
      → DemoReach init_struct t1 t2 d e
      → in_lock e.place2 ≡ true
      → DemoReach init_struct t1 t2 e f
      → (in_lock f.place2 ≡ true) × (in_lock f.place1 ≡ false)
  test_lock2-Keeps d e f apart new reach inside onward =
      let at_e = DemoReach-Inv d.system apart reach (IsNew-Inv d new) in
      let inv = DemoReach-Inv d.system apart onward at_e in
      let exclusive = Reach-from inv.reach (free new.value new.nobody) in
      let stays = DemoReach-in_lock onward inside in
      (
        stays,
        elim (Bool-cases (in_lock f.place1)) [
          | inl both ↦
              absurd (only_holder f.system exclusive apart (inv.holds1 both) (inv.holds2 stays))
          | inr outside ↦ outside
        ],
      )
