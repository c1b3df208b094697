-- ===== src/Display.antt =====
-- Text output of kernel/echo/display.c (boot/display.c is the same file) and the PANIC macro of
-- kernel/debug.h. A string is the list of its bytes before the NUL.
pub mod Text
use Prim.Native.Char.{code}
use Prim.Native.String.{String}
use Prim.Native.String
use finux.Prelude.{ℕ, zero, suc, ◌+◌, ◌*◌, List, [], ◌∷◌, update, length}
use finux.Prelude.Bits.{u8, u32}

-- The bytes of the segment that `%gs` selects.
abbrev pub Screen : Type 0
Screen = ℕ → ℕ

-- The bytes of a string literal.
abbrev pub literal : String → List ℕ
literal String.[] = []
literal (String.◌∷◌ c s) = code c ∷ literal s

-- `movw %ax, %gs:(%edi)` with the character in `%al` and the colour in `%ah`.
abbrev pub put_cell : ℕ → ℕ → ℕ → Screen → Screen
put_cell color word local screen =
    update (update screen local (u8 word)) (u32 (local + 1)) (u8 color)

-- The loop of both functions, on the characters that are left: the number written, and the screen.
unfoldable pub dis_loop : ℕ → List ℕ → ℕ → ℕ → Screen → ℕ × Screen
dis_loop color [] i local screen = (i, screen)
dis_loop color (word ∷ tmp) i local screen =
    dis_loop color tmp (i + 1) (u32 (local + 2)) (put_cell color word local screen)

unfoldable pub dis_str : List ℕ → ℕ → ℕ → ℕ → Screen → ℕ × Screen
unfolding dis_loop
dis_str straddr color row col screen = dis_loop color straddr 0 (u32 (row * 160 + col * 2)) screen

-- The `strlen` bytes of memory from `straddr` on.
abbrev pub bytes_at : (ℕ → ℕ) → ℕ → ℕ → List ℕ
bytes_at memory straddr zero = []
bytes_at memory straddr (suc strlen) = memory straddr ∷ bytes_at memory (u32 (straddr + 1)) strlen

-- A negative `strlen` shows nothing, as 0 does.
unfoldable pub dis_nchar : (ℕ → ℕ) → ℕ → ℕ → ℕ → ℕ → ℕ → Screen → ℕ × Screen
unfolding dis_loop
dis_nchar memory straddr color strlen row col screen =
    dis_loop color (bytes_at memory straddr strlen) 0 (u32 (row * 160 + col * 2)) screen
