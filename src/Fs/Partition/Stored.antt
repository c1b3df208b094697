-- ===== src/Fs/Partition/Stored.antt =====
-- Writes that stay inside of the arrays.
use finux.Prelude.{ℕ, ◌<◌, ◌≡◌, refl, arith, true, ltb, some, update}
use finux.Fs.{Loader, PartTable}
use finux.Fs.Partition.{set_primary, set_logical}

pub set_primary_lem :
    (i : ℕ) (table : PartTable) (s : Loader)
    → i < 4
    → set_primary i table s ≡ some (record s { primary = update s.primary i table })
unfolding set_primary
set_primary_lem i table s low = let inside : ltb i 4 ≡ true = ground (arith, low) in rw inside refl

pub set_logical_lem :
    (i : ℕ) (table : PartTable) (s : Loader)
    → i < 10
    → set_logical i table s ≡ some (record s { logical = update s.logical i table })
unfolding set_logical
set_logical_lem i table s low = let inside : ltb i 10 ≡ true = ground (arith, low) in rw inside refl
