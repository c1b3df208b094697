-- ===== src/Tests/Memory.antt =====
-- Page frames and page tables: a machine whose memory map has one usable region.
use finux.Prelude.{ℕ, zero, suc, ◌^◌, ◌-◌, bit_and, ◌+◌, ◌*◌, ◌<◌, ◌≡◌, ◌≢◌, refl, update, arith}
use finux.MemInfo.{E820Ards, MemInfo}
use finux.Page.{Pages, got, map_base, page_size, get_pages, free_pages}
use finux.Page.Run.{mark, get_pages-first}
use finux.Page.Free.{free_pages-get_pages}
use finux.Paging.{Machine}

abbrev region : ℕ → E820Ards
region lenth = record { baselow = 0; basehigh = 0; lenthlow = lenth; lenthhigh = 0; type = 1 }

-- `lenth` bytes of memory from address 0 on.
abbrev pub memory : ℕ → MemInfo
memory lenth = record {
  kernel_info = record { size = 0; start = 0; memory_map_cnt = 1 };
  memory_map = λ i. region lenth;
}

abbrev first_byte : ℕ → Pages
first_byte b = record { bit_map = update (λ a. 0) 0 b; page_cnt = 1000; page_bit_map_cnt = 125 }

get_pages-first_example :
    get_pages 2 (first_byte 0x85) ≡ got (map_base + 3 * page_size) (mark 2 3 (first_byte 0x85))
get_pages-first_example =
    get_pages-first 2 3 (first_byte 0x85) (omega arith) (omega arith) refl lower
  where
    lower : (b : ℕ) → b < 3 → bit_and 0x85 ((2 ^ 2 - 1) * 2 ^ b) ≢ 0
    lower zero low = omega arith
    lower (suc zero) low = omega arith
    lower (suc (suc zero)) low = omega arith
    lower (suc (suc (suc b))) low = absurd (omega (arith, low))

free_pages-get_pages_example :
    (address : ℕ) × (s' : Pages) × (get_pages 1 (first_byte 0x80) ≡ got address s')
    × (free_pages address 1 s' ≡ first_byte 0x80)
free_pages-get_pages_example =
    free_pages-get_pages 1 0 (first_byte 0x80) (omega arith) (omega arith) (omega arith)
      (omega arith) refl (λ b low. absurd (omega (arith, low)))

abbrev pub machine : Machine
machine = record { word = λ a. 0; cr3 = 0; cr0 = 1; pages = first_byte 0 }
