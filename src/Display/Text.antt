-- ===== src/Display/Text.antt =====
-- What a string leaves on the screen.
use finux.Prelude.{
  ℕ, zero, suc, ◌+◌, ◌*◌, ◌^◌, ◌≤◌, ◌<◌, ◌≡◌, ◌∙◌, ap, refl, ◌⊎◌, List, [], ◌∷◌, arith, length,
  get_or,
}
use finux.Prelude.Bits.{u8, u32}
use finux.Display.{Screen, put_cell, dis_loop, dis_str, bytes_at, dis_nchar}

-- From `screen` to `after`: the cells at `local` hold `text` in `color`, and nothing else moved.
pub record Shows (color : ℕ) (text : List ℕ) (local : ℕ) (screen after : Screen) : Type 0 where
  pub characters : (i : ℕ) → i < length text → after (local + 2 * i) ≡ u8 (get_or text i 0)
  pub colors : (i : ℕ) → i < length text → after (local + 2 * i + 1) ≡ u8 color
  pub outside : (a : ℕ) → (a < local) ⊎ (local + 2 * length text ≤ a) → after a ≡ screen a

module _ (color c : ℕ) (text : List ℕ) (local : ℕ) (screen after : Screen)
    (fits : local + 2 * suc (length text) < 2 ^ 32)
    (shows : Shows color text (local + 2) (put_cell color c local screen) after) where
  first_character :
      (i : ℕ) → i < suc (length text) → after (local + 2 * i) ≡ u8 (get_or (c ∷ text) i 0)
  first_character zero h = ground (arith, shows.outside local)
  first_character (suc i) h =
      let e : local + 2 * suc i ≡ local + 2 + 2 * i = omega arith in
      rw e (shows.characters i (omega arith))

  first_color : (i : ℕ) → i < suc (length text) → after (local + 2 * i + 1) ≡ u8 color
  first_color zero h = ground (arith, shows.outside (local + 1))
  first_color (suc i) h =
      let e : local + 2 * suc i ≡ local + 2 + 2 * i = omega arith in
      rw e (shows.colors i (omega arith))

  Shows-step : Shows color (c ∷ text) local screen after
  Shows-step = record {
    characters = first_character;
    colors = first_color;
    outside = λ a h. ground (arith, shows.outside a);
  }

dis_loop-Shows :
    (color : ℕ) (text : List ℕ) (i local : ℕ) (screen : Screen)
    → local + 2 * length text < 2 ^ 32
    → ((dis_loop color text i local screen).0 ≡ i + length text)
      × Shows color text local screen (dis_loop color text i local screen).1
unfolding dis_loop
dis_loop-Shows color [] i local screen fits = (
  omega arith,
  record {
    characters = λ j h. absurd (omega arith);
    colors = λ j h. absurd (omega arith);
    outside = λ a h. refl;
  },
)
dis_loop-Shows color (c ∷ text) i local screen fits =
    let next : u32 (local + 2) ≡ local + 2 = omega arith in
    let (count, shows) =
      dis_loop-Shows color text (i + 1) (local + 2) (put_cell color c local screen) (omega arith) in
    rw (dis_loop, next)
      (omega (arith, count), Shows-step color c text local screen _ (omega arith) shows)

-- A string that ends before offset 2^32 is shown from its row and column on, each character with
-- the colour behind it; no other byte of the screen changes, and the length is returned.
pub dis_str-Shows :
    (text : List ℕ) (color row col : ℕ) (screen : Screen)
    → row * 160 + col * 2 + 2 * length text < 2 ^ 32
    → ((dis_str text color row col screen).0 ≡ length text)
      × Shows color text (row * 160 + col * 2) screen (dis_str text color row col screen).1
unfolding dis_str
dis_str-Shows text color row col screen fits =
    let start : u32 (row * 160 + col * 2) ≡ row * 160 + col * 2 = omega arith in
    let (count, shows) = dis_loop-Shows color text 0 (row * 160 + col * 2) screen fits in
    rw start (omega (arith, count), shows)

length-bytes_at : (memory : ℕ → ℕ) (straddr n : ℕ) → length (bytes_at memory straddr n) ≡ n
length-bytes_at memory straddr zero = refl
length-bytes_at memory straddr (suc n) = omega (arith, length-bytes_at memory (u32 (straddr + 1)) n)

get_or-bytes_at :
    (memory : ℕ → ℕ) (straddr n i : ℕ)
    → i < n
    → straddr + n < 2 ^ 32
    → get_or (bytes_at memory straddr n) i 0 ≡ memory (straddr + i)
get_or-bytes_at memory straddr zero i low fits = absurd (omega arith)
get_or-bytes_at memory straddr (suc n) zero low fits =
    let at : straddr + 0 ≡ straddr = omega arith in rw at refl
get_or-bytes_at memory straddr (suc n) (suc i) low fits =
    let next : u32 (straddr + 1) ≡ straddr + 1 = omega arith in
    let at : straddr + 1 + i ≡ straddr + suc i = omega arith in
    rw next (get_or-bytes_at memory (straddr + 1) n i (omega arith) (omega arith) ∙ ap memory at)

-- `dis_nchar` shows `n` bytes of memory, NULs as well, where both the bytes and the cells end below
-- 2^32; no other byte of the screen changes, and `n` is returned.
pub dis_nchar-Shows :
    (memory : ℕ → ℕ) (straddr color n row col : ℕ) (screen : Screen)
    → straddr + n < 2 ^ 32
    → row * 160 + col * 2 + 2 * n < 2 ^ 32
    → let (count, after) = dis_nchar memory straddr color n row col screen in
      (count ≡ n)
      × ((i : ℕ) → i < n → after (row * 160 + col * 2 + 2 * i) ≡ u8 (memory (straddr + i)))
      × ((a : ℕ)
          → (a < row * 160 + col * 2) ⊎ (row * 160 + col * 2 + 2 * n ≤ a)
          → after a ≡ screen a)
unfolding dis_nchar
dis_nchar-Shows memory straddr color n row col screen fits fits_screen =
    let start : u32 (row * 160 + col * 2) ≡ row * 160 + col * 2 = omega arith in
    let len = length-bytes_at memory straddr n in
    let (count, shows) =
      dis_loop-Shows color (bytes_at memory straddr n) 0 (row * 160 + col * 2) screen
        (omega (arith, len)) in
    rw start (
      omega (arith, count, len),
      λ i low.
          shows.characters i (omega (arith, len))
          ∙ ap u8 (get_or-bytes_at memory straddr n i low fits),
      λ a out. shows.outside a (rw len out),
    )
