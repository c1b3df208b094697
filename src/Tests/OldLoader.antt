-- ===== src/Tests/OldLoader.antt =====
-- The first loader on a machine with 16M of memory above 1M.
use finux.Prelude.{ℕ, ◌+◌, ◌/◌, ◌≡◌, refl, arith, ◌==◌, if◌then◌else◌, some}
use finux.Prelude.Bits.{u32}
use finux.Paging.Identity.{translate}
use finux.OldLoader.{
  Paged, ards_at, memory_end, highest_usable, get_page_num, get_pte_t_num, get_pde_t_num,
  old_set_page,
}
use finux.OldLoader.Counts.{Highest, get_page_num-Highest}
use finux.OldLoader.Tables.{old_set_page-translate}

-- The first entry has base 0, the second one base 1M and 16M of usable memory.
abbrev bios : ℕ → ℕ
bios a =
    if a == 0x8014
    then 0x100000
    else if a == 0x801c
    then 0x1000000
    else if a == 0x8024
    then 1
    else if a == 0x8010
    then 1
    else 0

abbrev paged : Paged
paged = record { word = bios; cr3 = 0; cr0 = 1 }

end_of_memory : memory_end 1 (ards_at bios) ≡ 0x1100000
unfolding memory_end highest_usable
end_of_memory = refl

old_set_page-translate_example :
    translate (old_set_page 1 paged).word (old_set_page 1 paged).cr3 0x10fffff ≡ some 0x10fffff
old_set_page-translate_example =
    old_set_page-translate 1 0x10fffff paged (omega (arith, end_of_memory))

get_page_num-Highest_example :
    (r : ℕ × ℕ) × Highest (ards_at bios) 0 2 0 0 r
    × (get_page_num 1 (ards_at bios) ≡ (u32 (r.0 + r.1) + 4095) / 4096)
    × ((n : ℕ) → get_pte_t_num n ≡ (n + 1023) / 1024)
    × ((n : ℕ) → get_pde_t_num n ≡ (n + 1023) / 1024)
get_page_num-Highest_example = get_page_num-Highest 1 (ards_at bios)
