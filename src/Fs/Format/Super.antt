-- ===== src/Fs/Format/Super.antt =====
-- The super block that is written is the one that is read.
use finux.Prelude.{ℕ, zero, suc, ◌+◌, ◌*◌, ◌^◌, ◌≤◌, ◌<◌, ◌≡◌, refl, arith, List, [], ◌∷◌, get_or}
use finux.Fs.{SuperBlock, Inode, word_at, word_bytes, read_super_block, read_inode}
use finux.Fs.Words.{word_at-shift, word_at-word_bytes}
use finux.Fs.Format.{super_block_words}

-- Words of 32 bits.
abbrev pub Small : List ℕ → Type 0
Small [] = Unit
Small (word ∷ words) = (word < 2 ^ 32) × Small words

Small-get_or : (words : List ℕ) (k : ℕ) → Small words → get_or words k 0 < 2 ^ 32
Small-get_or [] k small = omega arith
Small-get_or (word ∷ words) zero (first, rest) = first
Small-get_or (word ∷ words) (suc k) (first, rest) = Small-get_or words k rest

-- The word at `q` of a sector that starts with the words.
word_lem :
    (f : ℕ → ℕ) (words : List ℕ) (size : ℕ)
    → ((i : ℕ) → i < size → f i ≡ word_bytes words i)
    → Small words
    → (k q : ℕ) → 4 * k + 4 ≤ size
    → q ≡ 4 * k
    → word_at f q ≡ get_or words k 0
word_lem f words size same small k q fits at =
    word_at-word_bytes f 0 words size k q
      (λ i low. let e : 0 + i ≡ i = omega arith in rw e (same i low)) fits (omega arith)
      (Small-get_or words k small)

pub read_super_block-words :
    (f : ℕ → ℕ) (b : SuperBlock)
    → ((i : ℕ) → i < 60 → f i ≡ word_bytes (super_block_words b) i)
    → Small (super_block_words b)
    → read_super_block f ≡ b
unfolding read_super_block
read_super_block-words f b same small =
    let at = word_lem f (super_block_words b) 60 same small in
    rw
      (
        at 0 0 (omega arith) refl,
        at 1 4 (omega arith) refl,
        at 2 8 (omega arith) refl,
        at 3 12 (omega arith) refl,
        at 4 16 (omega arith) refl,
        at 5 20 (omega arith) refl,
        at 6 24 (omega arith) refl,
        at 7 28 (omega arith) refl,
        at 8 32 (omega arith) refl,
        at 9 36 (omega arith) refl,
        at 10 40 (omega arith) refl,
        at 11 44 (omega arith) refl,
        at 12 48 (omega arith) refl,
        at 13 52 (omega arith) refl,
        at 14 56 (omega arith) refl,
      )
      refl

pub read_inode-words :
    (f : ℕ → ℕ) (inode : Inode)
    → let words =
        inode.mode ∷ inode.file_size ∷ inode.file_start_sect ∷ inode.file_sector_cnt ∷ [] in
      ((i : ℕ) → i < 16 → f i ≡ word_bytes words i) → Small words → read_inode f 0 ≡ inode
read_inode-words f inode same small =
    let at =
      word_lem f (inode.mode ∷ inode.file_size ∷ inode.file_start_sect ∷ inode.file_sector_cnt ∷ [])
        16 same small in
    rw
      (
        at 0 0 (omega arith) refl,
        at 1 4 (omega arith) refl,
        at 2 8 (omega arith) refl,
        at 3 12 (omega arith) refl,
      )
      refl

-- The structure is the same where its 60 bytes are.
pub read_super_block-same :
    (f g : ℕ → ℕ) → ((i : ℕ) → i < 60 → f i ≡ g i) → read_super_block f ≡ read_super_block g
unfolding read_super_block
read_super_block-same f g same =
    let word : (q : ℕ) → q + 3 < 60 → word_at f q ≡ word_at g q =
      λ q low. word_at-shift f g q q (λ j lj. same (q + j) (omega arith)) in
    rw
      (
        word 0 (omega arith),
        word 4 (omega arith),
        word 8 (omega arith),
        word 12 (omega arith),
        word 16 (omega arith),
        word 20 (omega arith),
        word 24 (omega arith),
        word 28 (omega arith),
        word 32 (omega arith),
        word 36 (omega arith),
        word 40 (omega arith),
        word 44 (omega arith),
        word 48 (omega arith),
        word 52 (omega arith),
        word 56 (omega arith),
      )
      refl
