-- ===== src/Pic/Irq.antt =====
-- What `enable_irq` does to the masks of the two controllers.
use finux.Prelude.{
  ℕ, ◌-◌, ◌≤◌, ◌<◌, ◌≡◌, ◌≢◌, refl, ◌∙◌, ◌⊎◌, inl, inr, arith, true, false, ◌&&◌, ◌==◌, ltb, lt→ltb,
  not, Bool-cases, if◌then◌else◌,
}
use finux.Pic.{
  Ports, Cpu, master_8259a_imr, slave_8259a_imr, outb_pic, inb_pic, enable_master, enable_slave,
  enable_irq, cleared,
}
use finux.Pic.Mask.{masked, masked-cleared, ReadsMasks, outb_pic-imr, inb_pic-imr}

module _ (ports : Ports) (reads : ReadsMasks ports) where
  open reads use {Ready, imr}

  -- The masks after `enable_irq`, from those before.
  abbrev pub new_master : ℕ → ℕ → ℕ
  new_master irq now =
      if ltb irq 8 && not (irq == 2)
      then cleared ports irq now
      else if ltb 8 irq && ltb irq 16
      then cleared ports 2 now
      else now

  abbrev pub new_slave : ℕ → ℕ → ℕ
  new_slave irq now = if ltb 8 irq && ltb irq 16 then cleared ports (irq - 8) now else now

  -- A state with these masks.
  pub record Masks (s : ports.State) (master slave : ℕ) : Type 0 where
    pub ready : Ready s
    pub on_master : imr master_8259a_imr s ≡ master
    pub on_slave : imr slave_8259a_imr s ≡ slave

  enable_master-Masks :
      (irq m l : ℕ) (s : ports.State)
      → Masks s m l
      → Masks
          (enable_master ports irq m s)
          (if ltb irq 8 && not (irq == 2) then cleared ports irq m else m)
          l
  unfolding enable_master
  enable_master-Masks irq m l s masks =
      let (ready, out) =
        outb_pic-imr ports reads s master_8259a_imr (cleared ports irq m) masks.ready (inl refl) in
      elim (Bool-cases (ltb irq 8 && not (irq == 2))) [
        | inl writes ↦ rw writes (record {
          ready = ready;
          on_master = out master_8259a_imr;
          on_slave = out slave_8259a_imr ∙ masks.on_slave;
        })
        | inr skips ↦ rw skips masks
      ]

  enable_slave-Masks :
      (irq m m' l : ℕ) (s : ports.State)
      → Masks s m' l
      → Masks
          (enable_slave ports irq m l s)
          (if ltb 8 irq && ltb irq 16 then cleared ports 2 m else m')
          (new_slave irq l)
  unfolding enable_slave
  enable_slave-Masks irq m m' l s masks =
      let (ready1, out1) =
        outb_pic-imr ports reads s master_8259a_imr (cleared ports 2 m) masks.ready (inl refl) in
      let s1 = outb_pic ports (cleared ports 2 m) master_8259a_imr s in
      let (ready2, out2) =
        outb_pic-imr ports reads s1 slave_8259a_imr (cleared ports (irq - 8) l) ready1 (inr refl) in
      elim (Bool-cases (ltb 8 irq && ltb irq 16)) [
        | inl writes ↦ rw writes (record {
          ready = ready2;
          on_master = out2 master_8259a_imr ∙ out1 master_8259a_imr;
          on_slave = out2 slave_8259a_imr;
        })
        | inr skips ↦ rw skips masks
      ]

  -- At most one of the two `if`s is taken.
  one_mask :
      (irq m : ℕ)
      → (if ltb 8 irq && ltb irq 16
          then cleared ports 2 m
          else if ltb irq 8 && not (irq == 2)
          then cleared ports irq m
          else m)
        ≡ new_master irq m
  one_mask irq m = elim (Bool-cases (ltb 8 irq)) [
    | inl above ↦ rw (below irq above) refl
    | inr below' ↦ rw below' refl
  ]
    where
      below : (n : ℕ) → ltb 8 n ≡ true → ltb n 8 ≡ false
      below n above = ground arith

  pub enable_irq-Masks :
      (irq m l : ℕ) (c : Cpu ports)
      → Masks c.device m l
      → Masks (enable_irq ports irq c).device (new_master irq m) (new_slave irq l)
  unfolding enable_irq
  enable_irq-Masks irq m l c masks =
      let (em, ready1, same1) =
        inb_pic-imr ports reads c.device master_8259a_imr masks.ready (inl refl) in
      let s1 = (inb_pic ports master_8259a_imr c.device).1 in
      let (el, ready2, same2) = inb_pic-imr ports reads s1 slave_8259a_imr ready1 (inr refl) in
      let s2 = (inb_pic ports slave_8259a_imr s1).1 in
      let read : Masks s2 m l = record {
        ready = ready2;
        on_master = same2 master_8259a_imr ∙ same1 master_8259a_imr ∙ masks.on_master;
        on_slave = same2 slave_8259a_imr ∙ same1 slave_8259a_imr ∙ masks.on_slave;
      } in
      let done =
        enable_slave-Masks irq m _ l (enable_master ports irq m s2)
          (enable_master-Masks irq m l s2 read) in
      rw (em, el, masks.on_master, same1 slave_8259a_imr, masks.on_slave)
        (record {
          ready = done.ready;
          on_master = done.on_master ∙ one_mask irq m;
          on_slave = done.on_slave;
        })

  masked-new_master :
      (irq m k : ℕ)
      → m < 256
      → irq < 16
      → irq ≢ 2
      → irq ≢ 8
      → k < 8
      → masked k (new_master irq m)
        ≡ (if k == (if ltb irq 8 then irq else 2) then 0 else masked k m)
  masked-new_master irq m k hm hirq not2 not8 hk = elim (Bool-cases (ltb irq 8)) [
    | inl low ↦ rw (low, not_line2 irq not2) (masked-cleared irq k m (ground arith) hk hm)
    | inr high ↦ rw (high, above irq hirq not8 high) (masked-cleared 2 k m (omega arith) hk hm)
  ]
    where
      not_line2 : (n : ℕ) → n ≢ 2 → (n == 2) ≡ false
      not_line2 n h = ground arith

      above : (n : ℕ) → n < 16 → n ≢ 8 → ltb n 8 ≡ false → (ltb 8 n && ltb n 16) ≡ true
      above n small other high = ground arith

  masked-new_slave :
      (irq l k : ℕ)
      → l < 256
      → irq < 16
      → k < 8
      → masked k (new_slave irq l) ≡ (if ltb 8 irq && (k == irq - 8) then 0 else masked k l)
  masked-new_slave irq l k hl hirq hk = elim (Bool-cases (ltb 8 irq)) [
    | inl above ↦ rw (above, lt→ltb irq 16 hirq) (masked-cleared (irq - 8) k l (omega arith) hk hl)
    | inr below ↦ rw below refl
  ]

  -- When both controllers are set up with masks `m` and `l`, below 256, and `irq` is a line below 16
  -- other than 2 and 8, then after `enable_irq` the line itself is let through, line 2 of the master
  -- as well when the line is the slave's, and every other line of both is masked as it was.
  pub enable_irq-masked :
      (irq m l k : ℕ) (c : Cpu ports)
      → Masks c.device m l
      → m < 256
      → l < 256
      → irq < 16
      → irq ≢ 2
      → irq ≢ 8
      → k < 8
      → (masked k (imr master_8259a_imr (enable_irq ports irq c).device)
          ≡ (if k == (if ltb irq 8 then irq else 2) then 0 else masked k m))
        × (masked k (imr slave_8259a_imr (enable_irq ports irq c).device)
            ≡ (if ltb 8 irq && (k == irq - 8) then 0 else masked k l))
  enable_irq-masked irq m l k c masks hm hl hirq not2 not8 hk =
      let done = enable_irq-Masks irq m l c masks in
      rw (done.on_master, done.on_slave)
        (masked-new_master irq m k hm hirq not2 not8 hk, masked-new_slave irq l k hl hirq hk)

  -- When both controllers are set up with masks `m` and `l`, `enable_irq` of line 2, of line 8, or
  -- of a number from 16 on leaves both masks as they are.
  pub enable_irq-ignored :
      (irq m l : ℕ) (c : Cpu ports)
      → Masks c.device m l
      → (irq ≡ 2) ⊎ (irq ≡ 8) ⊎ (16 ≤ irq)
      → (imr master_8259a_imr (enable_irq ports irq c).device ≡ m)
        × (imr slave_8259a_imr (enable_irq ports irq c).device ≡ l)
  enable_irq-ignored irq m l c masks out =
      let done = enable_irq-Masks irq m l c masks in
      rw (done.on_master, done.on_slave, ignored irq out, ignored8 irq out) (refl, refl)
    where
      ignored : (n : ℕ) → (n ≡ 2) ⊎ (n ≡ 8) ⊎ (16 ≤ n) → (ltb n 8 && not (n == 2)) ≡ false
      ignored n h = ground arith

      ignored8 : (n : ℕ) → (n ≡ 2) ⊎ (n ≡ 8) ⊎ (16 ≤ n) → (ltb 8 n && ltb n 16) ≡ false
      ignored8 n h = ground arith
