-- ===== src/Switch/Stack.antt =====
-- What pushes leave on the stack.
use finux.Prelude.{
  ℕ, zero, suc, ◌+◌, ◌-◌, ◌*◌, ◌^◌, ◌≤◌, ◌<◌, ◌≡◌, refl, ◌∙◌, ◌⊎◌, inr, arith, List, [], ◌∷◌,
  length, get_or,
}
use finux.Prelude.Bits.{sub32}
use finux.Switch.{Processor, push, push_all}

-- The words of `vs` below the stack pointer of `c`, the first one on top, and nothing else.
pub record Pushed (vs : List ℕ) (c after : Processor) : Type 0 where
  pub esp : after.esp ≡ c.esp - 4 * length vs
  pub words : (k : ℕ) → k < length vs → after.word (c.esp - 4 * (k + 1)) ≡ get_or vs k 0
  pub outside : (a : ℕ) → (a < c.esp - 4 * length vs) ⊎ (c.esp ≤ a) → after.word a ≡ c.word a

module _ (v : ℕ) (vs : List ℕ) (c after : Processor) (room : 4 * suc (length vs) ≤ c.esp)
    (small : c.esp < 2 ^ 32) (rest : Pushed vs (push v c) after) where
  one_push : sub32 c.esp 4 ≡ c.esp - 4
  one_push = omega arith

  Pushed-words :
      (k : ℕ) → k < suc (length vs) → after.word (c.esp - 4 * (k + 1)) ≡ get_or (v ∷ vs) k 0
  Pushed-words zero low =
      let e : c.esp - 4 * (0 + 1) ≡ sub32 c.esp 4 = omega arith in
      rw e (rest.outside (sub32 c.esp 4) (inr (omega arith)) ∙ ground arith)
  Pushed-words (suc k) low =
      let e : c.esp - 4 * (suc k + 1) ≡ sub32 c.esp 4 - 4 * (k + 1) = omega (arith, one_push) in
      rw e (rest.words k (omega arith))

  Pushed-cons : Pushed (v ∷ vs) c after
  Pushed-cons = record {
    esp = omega (arith, rest.esp, one_push);
    words = Pushed-words;
    outside = λ a h. ground (arith, rest.outside a, one_push);
  }

pub push_all-Pushed :
    (vs : List ℕ) (c : Processor)
    → 4 * length vs ≤ c.esp
    → c.esp < 2 ^ 32
    → Pushed vs c (push_all vs c)
unfolding push_all
push_all-Pushed [] c room small = record {
  esp = omega arith;
  words = λ k low. absurd (omega arith);
  outside = λ a h. refl;
}
push_all-Pushed (v ∷ vs) c room small =
    Pushed-cons v vs c _ room small (push_all-Pushed vs (push v c) (omega arith) (omega arith))
