-- ===== src/Pic/Mask.antt =====
-- Which interrupt lines the masks let through.
use finux.Prelude.{
  ℕ, ◌-◌, ◌/◌, ◌%◌, ◌^◌, ◌<◌, ◌≡◌, refl, ◌∙◌, ◌⊎◌, Bool, true, ◌==◌, ==_iff, if◌then◌else◌, bit_and,
}
use finux.Prelude.Bits.{u8, ◌<<<◌}
use finux.Prelude.Table.{all_below, all_below_sound, all_pairs_sound}
use finux.Pic.{Ports, master_8259a_imr, slave_8259a_imr, outb_pic, inb_pic}

-- Bit `k` of a mask: 1 keeps the line out.
abbrev pub masked : ℕ → ℕ → ℕ
masked k imr = imr / 2 ^ k % 2

abbrev cleared_test : ℕ → ℕ → Bool
cleared_test n now =
    all_below 8
      (λ k. masked k (bit_and (255 - u8 (1 <<< n)) now) == (if k == n then 0 else masked k now))

cleared_table : all_below 8 (λ n. all_below 256 (cleared_test n)) ≡ true
unfolding all_below
cleared_table = refl

-- `~(1 << n) & now` clears bit `n` and keeps the others.
pub masked-cleared :
    (n k now : ℕ)
    → n < 8
    → k < 8
    → now < 256
    → masked k (bit_and (255 - u8 (1 <<< n)) now) ≡ (if k == n then 0 else masked k now)
masked-cleared n k now hn hk h = (==_iff _ _).0 (
    all_below_sound 8
      (λ k. masked k (bit_and (255 - u8 (1 <<< n)) now) == (if k == n then 0 else masked k now)) k
      (all_pairs_sound 8 256 cleared_test n now cleared_table hn h) hk)

-- What the 8259A's documentation says of a controller pair that is set up: the ports 0x21 and 0xa1
-- read the masks, a byte written there becomes the mask, and nothing else changes them.
pub record ReadsMasks (ports : Ports) : Type 1 where
  pub Ready : ports.State → Type 0
  pub imr : ℕ → ports.State → ℕ
  pub in_mask :
      (s : ports.State) (p : ℕ)
      → Ready s
      → (p ≡ master_8259a_imr) ⊎ (p ≡ slave_8259a_imr)
      → ((ports.inb p s).0 ≡ imr p s)
        × Ready (ports.inb p s).1
        × ((q : ℕ) → imr q (ports.inb p s).1 ≡ imr q s)
  pub out_mask :
      (s : ports.State) (p v : ℕ)
      → Ready s
      → (p ≡ master_8259a_imr) ⊎ (p ≡ slave_8259a_imr)
      → Ready (ports.outb v p s)
        × ((q : ℕ) → imr q (ports.outb v p s) ≡ (if q == p then v else imr q s))
  pub delay :
      (s : ports.State)
      → Ready s
      → Ready (ports.io_delay s) × ((q : ℕ) → imr q (ports.io_delay s) ≡ imr q s)

module _ (ports : Ports) (reads : ReadsMasks ports) where
  open reads use {Ready, imr, in_mask, out_mask, delay}

  abbrev IsMaskPort : ℕ → Type 0
  IsMaskPort p = (p ≡ master_8259a_imr) ⊎ (p ≡ slave_8259a_imr)

  pub outb_pic-imr :
      (s : ports.State) (p v : ℕ)
      → Ready s
      → IsMaskPort p
      → Ready (outb_pic ports v p s)
        × ((q : ℕ) → imr q (outb_pic ports v p s) ≡ (if q == p then v else imr q s))
  unfolding outb_pic
  outb_pic-imr s p v ready port =
      let (ready1, out) = out_mask s p v ready port in
      let (ready2, kept) = delay (ports.outb v p s) ready1 in (ready2, λ q. kept q ∙ out q)

  pub inb_pic-imr :
      (s : ports.State) (p : ℕ)
      → Ready s
      → IsMaskPort p
      → ((inb_pic ports p s).0 ≡ imr p s)
        × Ready (inb_pic ports p s).1
        × ((q : ℕ) → imr q (inb_pic ports p s).1 ≡ imr q s)
  unfolding inb_pic
  inb_pic-imr s p ready port =
      let (value, ready1, same) = in_mask s p ready port in
      let (ready2, kept) = delay (ports.inb p s).1 ready1 in (value, ready2, λ q. kept q ∙ same q)
