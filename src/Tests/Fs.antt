-- ===== src/Tests/Fs.antt =====
-- The file system of the loader on small disks.
use finux.Prelude.{
  ℕ, ◌+◌, ◌-◌, ◌%◌, ◌<◌, ◌≡◌, ◌≢◌, refl, ap, sym, arith, inl, inr, Bool, true, false, not, ◌||◌,
  ◌==◌, ==_iff, leb, if◌then◌else◌, [], ◌∷◌, get_or, Option, some, none,
}
use finux.Prelude.Table.{all_below, all_below_sound}
use finux.Display.{literal}
use finux.Strings.{strcmp}
use finux.Strings.Compare.{IsString}
use finux.Tests.Blank.{places, no_super, blank_loader}
use finux.Fs.{
  Loader, Loading, Inode, inode_at, inode_of, entry_name, loader_kernel, find_file_in_root,
  get_inode_array,
}
use finux.Fs.Find.{Compares, ends, Differs, first}
use finux.Fs.Names.{find_file_in_root-Names}
use finux.Fs.Tables.{InodesLoaded, get_inode_array-InodesLoaded}
use finux.Fs.Image.{Fits}
use finux.Fs.Kernel.{Boots, loader_kernel-Boots}

-- The kernel's name, and entry 0 with it, for inode 1: 700 bytes in two sectors from 50 on.
abbrev tables : ℕ → ℕ
tables a =
    if leb 7000 a
    then get_or (literal "vmFinux.core") (a - 7000) 0
    else if leb 4016 a
    then get_or (2 ∷ 0 ∷ 0 ∷ 0 ∷ 188 ∷ 2 ∷ 0 ∷ 0 ∷ 50 ∷ 0 ∷ 0 ∷ 0 ∷ 2 ∷ []) (a - 4016) 0
    else if leb 2004 a
    then get_or (literal "vmFinux.core") (a - 2004) 0
    else if a == 2000
    then 1
    else 0

abbrev loader : (ℕ → ℕ → ℕ) → Loader
loader disk = record (blank_loader disk) {
  memory = tables;
  super_block = record no_super {
    inode_array_start = 70;
    inode_sectors = 4;
    root_start = 74;
    root_sectors = 4;
  };
}

abbrev numbered : ℕ → ℕ → ℕ
numbered l j = (l + j) % 256

entry_0 : Compares places 12 7000 tables 0 0
unfolding strcmp
entry_0 = ends refl

abbrev inode_1 : Inode
inode_1 = record { mode = 2; file_size = 700; file_start_sect = 50; file_sector_cnt = 2 }

kernel_inode : inode_of places 0 tables ≡ inode_1
kernel_inode = refl

fits : Fits places 12 4016 inode_1
fits = record {
  lba = omega arith;
  image = omega arith;
  apart = inr (omega arith);
  size = omega arith;
  place = omega arith;
  kept = inl (omega arith);
  kept_tmp = inr (omega arith);
  enough = omega arith;
}

loader_kernel-Boots_example :
    (loading : Loading) × (loader_kernel places 12 3 (loader numbered) ≡ some loading)
    × Boots places 3 (loader numbered) (some 0) loading
loader_kernel-Boots_example =
    loader_kernel-Boots places 12 3 (loader numbered) (some 0)
      (first (omega arith) (λ k low. absurd (omega arith)) entry_0) kernel_Fits (omega arith)
      (omega arith)
  where
    kernel_Fits :
        (entry : ℕ)
        → some 0 ≡ some entry
        → Fits places 12 (inode_at places entry tables) (inode_of places entry tables)
    kernel_Fits entry same =
        let at : 0 ≡ entry = ap (λ found. elim found [ none ↦ 0 | some e ↦ e ]) same in
        rw (sym at, kernel_inode) fits

-- Whether `strcmp` tells the name of entry `k` from the kernel's.
abbrev differs_test : (ℕ → ℕ) → ℕ → Bool
differs_test memory k = elim (strcmp 12 7000 (entry_name places k) memory) [
  | none ↦ false
  | some order ↦ not (order == 0)
]

differs_test-Differs :
    (memory : ℕ → ℕ) (k : ℕ) → differs_test memory k ≡ true → Differs places 12 7000 memory k
differs_test-Differs memory k passed =
    by_result (strcmp 12 7000 (entry_name places k) memory) refl passed
  where
    by_result :
        (r : Option ℕ)
        → strcmp 12 7000 (entry_name places k) memory ≡ r
        → (elim r [ none ↦ false | some order ↦ not (order == 0) ]) ≡ true
        → Differs places 12 7000 memory k
    by_result none compared passes = absurd (ground (arith, passes))
    by_result (some order) compared passes = (order, ends compared, ground (arith, passes))

all_differ : all_below 100 (λ k. (k == 0) || differs_test tables k) ≡ true
unfolding all_below strcmp
all_differ = refl

others_differ : (k : ℕ) → k < 100 → k ≢ 0 → Differs places 12 7000 tables k
others_differ k low other = differs_test-Differs tables k (
    ground
      (all_below_sound 100 (λ k. (k == 0) || differs_test tables k) k all_differ low, other, arith))

bytes_all : all_below 12 (λ i. not (tables (7000 + i) == 0)) ≡ true
unfolding all_below
bytes_all = refl

names_all : all_below 11 (λ i. tables (7000 + i) == tables (2004 + i)) ≡ true
unfolding all_below
names_all = refl

name-IsString : IsString tables 7000 12
name-IsString = record { bytes = λ i low. bytes i low; end = refl; fits = omega arith }
  where
    bytes : (i : ℕ) → i < 12 → tables (7000 + i) ≢ 0
    bytes i low =
        ground (all_below_sound 12 (λ i. not (tables (7000 + i) == 0)) i bytes_all low, arith)

find_file_in_root-Names_example :
    (tables 2016 ≡ 0 → find_file_in_root places 12 7000 tables ≡ some (some 0))
    × (tables 2016 ≢ 0 → find_file_in_root places 12 7000 tables ≡ some none)
find_file_in_root-Names_example =
    find_file_in_root-Names places 7000 tables 0 0 name-IsString (omega arith) (omega arith)
      same_names others_differ (omega arith)
  where
    same_names : (i : ℕ) → i < 11 → tables (7000 + i) ≡ tables (2004 + i)
    same_names i low =
        (==_iff _ _).0
          (all_below_sound 11 (λ i. tables (7000 + i) == tables (2004 + i)) i names_all low)

abbrev four_sectors : Loader
four_sectors = loader numbered

get_inode_array-InodesLoaded_example :
    InodesLoaded places four_sectors (get_inode_array places four_sectors)
get_inode_array-InodesLoaded_example =
    get_inode_array-InodesLoaded places four_sectors refl (omega arith) (omega arith) (omega arith)
      (inr (omega arith))
