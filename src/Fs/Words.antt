-- ===== src/Fs/Words.antt =====
-- Structures of 32-bit words as bytes, and back.
use finux.Prelude.{ℕ, ◌+◌, ◌*◌, ◌/◌, ◌%◌, ◌^◌, ◌≤◌, ◌<◌, ◌≡◌, ◌∙◌, arith, List, get_or}
use finux.Fs.{word_at, word_bytes}

-- A word is read from its four bytes, wherever these stand.
pub word_at-shift :
    (f g : ℕ → ℕ) (p q : ℕ) → ((j : ℕ) → j < 4 → f (p + j) ≡ g (q + j)) → word_at f p ≡ word_at g q
word_at-shift f g p q same =
    let p0 : p + 0 ≡ p = omega arith in
    let q0 : q + 0 ≡ q = omega arith in
    let first : f p ≡ g q = rw (p0, q0) at (same 0 (omega arith)) in
    omega (arith, first, same 1 (omega arith), same 2 (omega arith), same 3 (omega arith))

pub word_bytes-word :
    (words : List ℕ) (k : ℕ)
    → get_or words k 0 < 2 ^ 32
    → word_at (word_bytes words) (4 * k) ≡ get_or words k 0
word_bytes-word words k small =
    let d0 : 4 * k / 4 ≡ k = omega arith in
    let d1 : (4 * k + 1) / 4 ≡ k = omega arith in
    let d2 : (4 * k + 2) / 4 ≡ k = omega arith in
    let d3 : (4 * k + 3) / 4 ≡ k = omega arith in
    let m0 : 4 * k % 4 ≡ 0 = omega arith in
    let m1 : (4 * k + 1) % 4 ≡ 1 = omega arith in
    let m2 : (4 * k + 2) % 4 ≡ 2 = omega arith in
    let m3 : (4 * k + 3) % 4 ≡ 3 = omega arith in rw (d0, d1, d2, d3, m0, m1, m2, m3) (omega arith)

-- The words of a structure at `p`, read one by one.
pub word_at-word_bytes :
    (f : ℕ → ℕ) (p : ℕ) (words : List ℕ) (size k q : ℕ)
    → ((i : ℕ) → i < size → f (p + i) ≡ word_bytes words i)
    → 4 * k + 4 ≤ size
    → q ≡ p + 4 * k
    → get_or words k 0 < 2 ^ 32
    → word_at f q ≡ get_or words k 0
word_at-word_bytes f p words size k q same fits at small =
    word_at-shift f (word_bytes words) q (4 * k) (λ j low.
      let e : q + j ≡ p + (4 * k + j) = omega arith in rw e (same (4 * k + j) (omega arith)))
    ∙ word_bytes-word words k small
