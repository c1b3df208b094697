-- ===== src/Page/Init.antt =====
-- What `init_page_bit_map` sets up.
use finux.Prelude.{ℕ, ◌-◌, ◌*◌, ◌≤◌, ◌<◌, ◌≡◌, ◌&&◌, ◌==◌, ltb, if◌then◌else◌}
use finux.MemInfo.{E820Ards, MemInfo}
use finux.Page.{Pages, map_base, page_size}

-- What one entry does to the length found so far.
abbrev longer : E820Ards → ℕ → ℕ
longer entry lenth = if entry.type == 1 && ltb lenth entry.lenthlow then entry.lenthlow else lenth

-- The bits of the map cover the addresses from 5M to `lenth`, and only the bit of the first page, the
-- map's own, is set.
pub record Covers (lenth : ℕ) (before after : Pages) : Type 0 where
  pub pages : lenth - map_base ≤ after.page_cnt * page_size
  pub bytes : after.page_cnt ≤ 8 * after.page_bit_map_cnt
  pub first : after.bit_map 0 ≡ 0x80
  pub rest : (a : ℕ) → 0 < a → a < after.page_bit_map_cnt → after.bit_map a ≡ 0
  pub beyond : (a : ℕ) → 0 < a → after.page_bit_map_cnt ≤ a → after.bit_map a ≡ before.bit_map a
