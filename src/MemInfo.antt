-- ===== src/MemInfo.antt =====
-- What the loader leaves about the memory: kernel/mm/mm.h, and the copy by kernel/mm/mm.c.
use finux.Prelude.{ℕ, zero, suc, ◌+◌, ◌*◌, update}

-- `struct kernel_info`
pub record KernelInfo : Type 0 where
  pub size : ℕ
  pub start : ℕ
  pub memory_map_cnt : ℕ

-- `struct e820_ARDS`
pub record E820Ards : Type 0 where
  pub baselow : ℕ
  pub basehigh : ℕ
  pub lenthlow : ℕ
  pub lenthhigh : ℕ
  pub type : ℕ

-- The globals `kernel_info` and `memory_map`. The code also reads `memory_map` past its 5 entries,
-- where it finds what the memory holds.
pub record MemInfo : Type 0 where
  pub kernel_info : KernelInfo
  pub memory_map : ℕ → E820Ards

abbrev pub kernel_info_address : ℕ
kernel_info_address = 0x100000

abbrev pub memory_map_addr : ℕ
memory_map_addr = 0x8000

-- The 32-bit words of the memory at an address, as the structures lay them out.
abbrev pub read_kernel_info : (ℕ → ℕ) → ℕ → KernelInfo
read_kernel_info word p = record {
  size = word p;
  start = word (p + 4);
  memory_map_cnt = word (p + 8);
}

abbrev pub read_ards : (ℕ → ℕ) → ℕ → E820Ards
read_ards word p = record {
  baselow = word p;
  basehigh = word (p + 4);
  lenthlow = word (p + 8);
  lenthhigh = word (p + 12);
  type = word (p + 16);
}

-- The rounds of the loop that are left, at index `i`; an entry has 20 bytes.
copy_map : (ℕ → ℕ) → ℕ → ℕ → (ℕ → E820Ards) → ℕ → E820Ards
copy_map word zero i map = map
copy_map word (suc left) i map =
    copy_map word left (i + 1) (update map i (read_ards word (memory_map_addr + 20 * i)))

unfoldable pub get_memory_info : (ℕ → ℕ) → MemInfo → MemInfo
unfolding copy_map
get_memory_info word info = record {
  kernel_info = read_kernel_info word kernel_info_address;
  memory_map = copy_map word 5 0 info.memory_map;
}
