-- ===== src/Links.antt =====
-- The intrusive circular lists of include/list.h and lib/list.c.
-- A node is the address of its `struct list_head`; the two fields are two memories.
pub mod Insert
pub mod Remove
pub mod Ring
use finux.Prelude.{ℕ, update}

-- `next` and `prev` of every node.
pub record Links : Type 0 where
  pub next : ℕ → ℕ
  pub prev : ℕ → ℕ

abbrev pub set_next : ℕ → ℕ → Links → Links
set_next p q h = record h { next = update h.next p q }

abbrev pub set_prev : ℕ → ℕ → Links → Links
set_prev p q h = record h { prev = update h.prev p q }

-- `INIT_LIST_HEAD`
unfoldable pub init_list_head : ℕ → Links → Links
init_list_head list h = let h1 = set_prev list list h in set_next list list h1

-- `__list_add`
unfoldable pub link_between : ℕ → ℕ → ℕ → Links → Links
link_between new prev next h =
    let h1 = set_prev next new h in
    let h2 = set_next new next h1 in let h3 = set_prev new prev h2 in set_next prev new h3

unfoldable pub list_add : ℕ → ℕ → Links → Links
list_add new head h = link_between new head (h.next head) h

unfoldable pub list_add_tail : ℕ → ℕ → Links → Links
list_add_tail new tail h = link_between new tail (h.next tail) h

-- `__list_del`
unfoldable pub unlink : ℕ → ℕ → Links → Links
unlink prev next h = let h1 = set_next prev next h in set_prev next prev h1

unfoldable pub list_del : ℕ → Links → Links
list_del entry h = init_list_head entry (unlink (h.prev entry) (h.next entry) h)

-- Every read is of the memory that the writes before it have left.
unfoldable pub list_replace : ℕ → ℕ → Links → Links
list_replace new old h =
    let h1 = set_next new (h.next old) h in
    let h2 = set_prev (h1.next new) new h1 in
    let h3 = set_prev new (h2.prev old) h2 in
    let h4 = set_next (h3.prev new) new h3 in init_list_head old h4
