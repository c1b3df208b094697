-- ===== src/Exception/Report.antt =====
-- What an exception leaves on the screen.
use finux.Prelude.{
  ℕ, ◌+◌, ◌-◌, ◌*◌, ◌^◌, ◌<◌, ◌≡◌, refl, false, ◌∙◌, inl, List, arith, length, get_or,
}
use finux.Prelude.Bits.{u8}
use finux.Display.{Screen, literal, dis_str}
use finux.Display.Text.{dis_str-Shows}
use finux.Exception.{
  Exception, exception_handler, handle, vector, panic, divide_error, single_step_exception, nmi,
  breakpoint_exception, overflow, bounds_check, inval_opcode, copr_not_available, double_fault,
  copr_seg_overrun, inval_tss, segment_not_present, stack_exception, general_protection, page_fault,
  copr_error, float_error, alignment_check,
}

abbrev pub title : List ℕ
title = literal "EXCEPTION:"

-- `text` stands in the screen's first row from column `col` on, in colour 0xa.
pub record Row (col : ℕ) (text : List ℕ) (screen : Screen) : Type 0 where
  pub characters : (i : ℕ) → i < length text → screen (2 * col + 2 * i) ≡ u8 (get_or text i 0)
  pub colors : (i : ℕ) → i < length text → screen (2 * col + 2 * i + 1) ≡ 0xa

-- The title and the name of the exception stand side by side; the name is not too long for the
-- screen segment. This holds of every name that fits.
pub exception_handler-Row :
    (vec_num : ℕ) (func_name : List ℕ) (screen : Screen)
    → length func_name < 2 ^ 31 - 100
    → Row 0 title (exception_handler vec_num func_name screen).screen
      × Row 10 func_name (exception_handler vec_num func_name screen).screen
unfolding exception_handler
exception_handler-Row vec_num func_name screen fits =
    let (n1, first) = dis_str-Shows title 0xa 0 0 screen (omega arith) in
    let (n2, second) =
      dis_str-Shows func_name 0xa 0 10 (dis_str title 0xa 0 0 screen).1 (omega arith) in
    (
      record {
        characters =
            λ i h. second.outside (2 * 0 + 2 * i) (inl (omega arith)) ∙ first.characters i h;
        colors = λ i h. second.outside (2 * 0 + 2 * i + 1) (inl (omega arith)) ∙ first.colors i h;
      },
      record { characters = λ i h. second.characters i h; colors = λ i h. second.colors i h },
    )

-- The name of each handler, and its vector as include/sys/idt.h numbers them.
pub name : Exception → List ℕ
name divide_error = literal "divide_error"
name single_step_exception = literal "single_step_exception"
name nmi = literal "nmi"
name breakpoint_exception = literal "breakpoint_exception"
name overflow = literal "overflow"
name bounds_check = literal "bounds_check"
name inval_opcode = literal "inval_opcode"
name copr_not_available = literal "copr_not_available"
name double_fault = literal "double_fault"
name copr_seg_overrun = literal "copr_seg_overrun"
name inval_tss = literal "inval_tss"
name segment_not_present = literal "segment_not_present"
name stack_exception = literal "stack_exception"
name general_protection = literal "general_protection"
name page_fault = literal "page_fault"
name copr_error = literal "copr_error"
name float_error = literal "float_error"
name alignment_check = literal "alignment_check"

handle_lem :
    (e : Exception) (screen : Screen)
    → handle e screen ≡ exception_handler (vector e) (name e) screen
unfolding handle name vector
handle_lem divide_error screen = refl
handle_lem _ screen = refl

name-short : (e : Exception) → length (name e) < 2 ^ 31 - 100
unfolding name
name-short divide_error = omega arith
name-short _ = omega arith

-- Every exception leaves the title and, behind it, its own name on the screen, and is handled with
-- the vector that include/sys/idt.h gives it.
pub handle-Row :
    (e : Exception) (screen : Screen)
    → Row 0 title (handle e screen).screen
      × Row 10 (name e) (handle e screen).screen
      × ((handle e screen).vec_num ≡ vector e)
unfolding exception_handler
handle-Row e screen =
    let (first, second) = exception_handler-Row (vector e) (name e) screen (name-short e) in
    rw (handle_lem e screen) (first, second, refl)

-- PANIC leaves its message, of less than 2^31 bytes, on the screen from column 0 on, where it has
-- written `PANIC:` before, and interrupts off.
pub panic-Row :
    (str : List ℕ) (screen : Screen)
    → length str < 2 ^ 31
    → Row 0 str (panic str screen).screen × ((panic str screen).interrupts ≡ false)
unfolding panic
panic-Row str screen fits =
    let shown =
      (dis_str-Shows str 0xa 0 0 (dis_str (literal "PANIC:") 0x9 0 0 screen).1 (omega arith)).1 in
    (record { characters = λ i h. shown.characters i h; colors = λ i h. shown.colors i h }, refl)
