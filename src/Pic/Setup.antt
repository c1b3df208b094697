-- ===== src/Pic/Setup.antt =====
-- What `Init_8259A` makes of the two controllers.
use finux.Prelude.{ℕ, ◌+◌, ◌≡◌, ◌≢◌, refl, ◌∙◌, arith, ◌==◌, if◌then◌else◌}
use finux.Pic.{Ports, outb_pic, init_8259a}

-- The registers of a controller, and which initialisation word it takes next: 0 for none of them.
pub record Chip : Type 0 where
  pub stage : ℕ
  pub vector_base : ℕ
  pub cascade : ℕ
  pub mode : ℕ
  pub mask : ℕ

-- A byte written to the odd port of a controller is the next initialisation word, or the mask.
abbrev pub data_written : ℕ → Chip → Chip
data_written v c =
    if c.stage == 1
    then record c { stage = 2; vector_base = v }
    else if c.stage == 2
    then record c { stage = 3; cascade = v }
    else if c.stage == 3
    then record c { stage = 0; mode = v }
    else record c { mask = v }

-- What the 8259A's documentation says of the controller whose even port is `c`: the byte 0x11 on that
-- port starts the initialisation, which takes three more words on the odd one, the bytes for another
-- controller do not matter to it, and neither does a delay.
pub record Initialises (ports : Ports) : Type 0 where
  pub chip : (c : ℕ) → ports.State → Chip
  pub starts :
      (c : ℕ) (s : ports.State)
      → chip c (ports.outb 0x11 c s) ≡ record (chip c s) { stage = 1; mask = 0 }
  pub takes :
      (c v : ℕ) (s : ports.State) → chip c (ports.outb v (c + 1) s) ≡ data_written v (chip c s)
  pub others :
      (c p v : ℕ) (s : ports.State) → p ≢ c → p ≢ c + 1 → chip c (ports.outb v p s) ≡ chip c s
  pub delay : (c : ℕ) (s : ports.State) → chip c (ports.io_delay s) ≡ chip c s

module _ (ports : Ports) (chips : Initialises ports) where
  open chips use {chip, starts, takes, others, delay}

  pic_starts :
      (c : ℕ) (s : ports.State)
      → chip c (outb_pic ports 0x11 c s) ≡ record (chip c s) { stage = 1; mask = 0 }
  unfolding outb_pic
  pic_starts c s = delay c (ports.outb 0x11 c s) ∙ starts c s

  pic_takes :
      (c v : ℕ) (s : ports.State) → chip c (outb_pic ports v (c + 1) s) ≡ data_written v (chip c s)
  unfolding outb_pic
  pic_takes c v s = delay c (ports.outb v (c + 1) s) ∙ takes c v s

  pic_others :
      (c p v : ℕ) (s : ports.State) → p ≢ c → p ≢ c + 1 → chip c (outb_pic ports v p s) ≡ chip c s
  unfolding outb_pic
  pic_others c p v s other other_data = delay c (ports.outb v p s) ∙ others c p v s other other_data

  -- The words of the initialisation, with the two masks at its end.
  abbrev pub initialised : (m l : ℕ) → ports.State → ports.State
  initialised m l s =
      let s1 = outb_pic ports 0x11 0x20 s in
      let s2 = outb_pic ports 0x11 0xa0 s1 in
      let s3 = outb_pic ports 0x30 0x21 s2 in
      let s4 = outb_pic ports 0x38 0xa1 s3 in
      let s5 = outb_pic ports 0x4 0x21 s4 in
      let s6 = outb_pic ports 0x2 0xa1 s5 in
      let s7 = outb_pic ports 0x1 0x21 s6 in
      let s8 = outb_pic ports 0x1 0xa1 s7 in
      let s9 = outb_pic ports m 0x21 s8 in outb_pic ports l 0xa1 s9

  -- What both controllers then are, with these masks.
  abbrev pub SetUp : (m l : ℕ) → ports.State → Type 0
  SetUp m l s =
      (chip 0x20 s ≡ record { stage = 0; vector_base = 0x30; cascade = 4; mode = 1; mask = m })
      × (chip 0xa0 s ≡ record { stage = 0; vector_base = 0x38; cascade = 2; mode = 1; mask = l })

  pub initialised-SetUp : (m l : ℕ) (s : ports.State) → SetUp m l (initialised m l s)
  initialised-SetUp m l s =
      let s1 = outb_pic ports 0x11 0x20 s in
      let s2 = outb_pic ports 0x11 0xa0 s1 in
      let s3 = outb_pic ports 0x30 0x21 s2 in
      let s4 = outb_pic ports 0x38 0xa1 s3 in
      let s5 = outb_pic ports 0x4 0x21 s4 in
      let s6 = outb_pic ports 0x2 0xa1 s5 in
      let s7 = outb_pic ports 0x1 0x21 s6 in
      let s8 = outb_pic ports 0x1 0xa1 s7 in
      let s9 = outb_pic ports m 0x21 s8 in
      (
        rw
            (
              pic_others 0x20 0xa1 l s9 (omega arith) (omega arith),
              pic_takes 0x20 m s8,
              pic_others 0x20 0xa1 0x1 s7 (omega arith) (omega arith),
              pic_takes 0x20 0x1 s6,
              pic_others 0x20 0xa1 0x2 s5 (omega arith) (omega arith),
              pic_takes 0x20 0x4 s4,
              pic_others 0x20 0xa1 0x38 s3 (omega arith) (omega arith),
              pic_takes 0x20 0x30 s2,
              pic_others 0x20 0xa0 0x11 s1 (omega arith) (omega arith),
              pic_starts 0x20 s,
            )
            refl,
        rw
            (
              pic_takes 0xa0 l s9,
              pic_others 0xa0 0x21 m s8 (omega arith) (omega arith),
              pic_takes 0xa0 0x1 s7,
              pic_others 0xa0 0x21 0x1 s6 (omega arith) (omega arith),
              pic_takes 0xa0 0x2 s5,
              pic_others 0xa0 0x21 0x4 s4 (omega arith) (omega arith),
              pic_takes 0xa0 0x38 s3,
              pic_others 0xa0 0x21 0x30 s2 (omega arith) (omega arith),
              pic_starts 0xa0 s1,
            )
            refl,
      )

  -- From any state of the two controllers `Init_8259A` leaves them initialised: the lines of the
  -- master have the vectors from 0x30 on and those of the slave from 0x38 on, the slave is on line 2
  -- of the master, both are in the mode for the 8086, and all lines are masked.
  pub init_8259a-Chip :
      (s : ports.State)
      → (chip 0x20 (init_8259a ports s)
          ≡ record { stage = 0; vector_base = 0x30; cascade = 4; mode = 1; mask = 0xff })
        × (chip 0xa0 (init_8259a ports s)
            ≡ record { stage = 0; vector_base = 0x38; cascade = 2; mode = 1; mask = 0xff })
  unfolding init_8259a
  init_8259a-Chip s = initialised-SetUp 0xff 0xff s
