-- ===== src/Prelude/Regions.antt =====
-- Regions of memory, by their first address and their length.
use finux.Prelude.{ℕ, ◌+◌, ◌≤◌, ◌⊎◌}

-- Two regions that share nothing.
abbrev pub Apart : (p n q m : ℕ) → Type 0
Apart p n q m = (p + n ≤ q) ⊎ (q + m ≤ p)
