-- ===== src/Fs/Partition/Primary.antt =====
-- The entries of the first sector, and that the first loop reads all of them.
use finux.Prelude.{
  ℕ, suc, ◌+◌, ◌*◌, ◌≤◌, ◌<◌, some, ◌≡◌, ◌≢◌, refl, ◌∙◌, arith, false, true, ◌==◌, ==_iff,
  Bool-cases, inl, inr, if◌then◌else◌, ltb, List, [], ◌∷◌, length, update,
}
use finux.Fs.{Loader, PartTable}
use finux.Fs.Partition.{entry_at, read_primary}
use finux.Fs.Partition.Stored.{set_primary_lem, set_logical_lem}
use finux.Fs.Partition.Placed.{Placed, Placed-none, Placed-update}

-- The entries from `tab_local` on, of which there are at most `left`; the last one, when there are
-- fewer, is in front of an empty one.
pub data IsTable (buf : ℕ → ℕ) : (left tab_local : ℕ) → List PartTable → Type 0 where
  full : {tab_local : ℕ} → IsTable buf 0 tab_local []
  end :
      {left tab_local : ℕ}
      → (entry_at buf tab_local).system_id ≡ 0
      → IsTable buf (suc left) tab_local []
  entry :
      {left tab_local : ℕ} {entries : List PartTable}
      → (entry_at buf tab_local).system_id ≢ 0
      → IsTable buf left (tab_local + 16) entries
      → IsTable buf (suc left) tab_local (entry_at buf tab_local ∷ entries)

-- The entries of extended partitions.
abbrev pub extended : List PartTable → List PartTable
extended [] = []
extended (table ∷ tables) =
    if table.system_id == 5 then table ∷ extended tables else extended tables

module _ (buf : ℕ → ℕ) (s : Loader) where
  -- What the loop leads to from two arrays.
  pub record Reads (entries : List PartTable) (left prim tab_local logic : ℕ)
      (primary logical : ℕ → PartTable) : Type 0 where
    pub primary_after : ℕ → PartTable
    pub logical_after : ℕ → PartTable
    pub reads :
        read_primary buf left prim tab_local logic
          (record s { primary = primary; logical = logical })
        ≡ some (
          logic + length (extended entries),
          record s { primary = primary_after; logical = logical_after },
        )
    pub placed : Placed entries prim primary primary_after
    pub placed_extended : Placed (extended entries) logic logical logical_after

  Reads-stop :
      (left prim tab_local logic : ℕ) (primary logical : ℕ → PartTable)
      → read_primary buf left prim tab_local logic
          (record s { primary = primary; logical = logical })
        ≡ some (logic, record s { primary = primary; logical = logical })
      → Reads [] left prim tab_local logic primary logical
  Reads-stop left prim tab_local logic primary logical stops =
      let sum : logic + 0 ≡ logic = omega arith in
      record {
        primary_after = primary;
        logical_after = logical;
        reads = rw sum stops;
        placed = Placed-none prim primary;
        placed_extended = Placed-none logic logical;
      }

  module _ (left prim tab_local logic : ℕ) (primary logical : ℕ → PartTable)
      (entries : List PartTable) (here : (entry_at buf tab_local).system_id ≢ 0)
      (bound : tab_local < 0x200) (room : prim < 4) where
    abbrev table : PartTable
    table = entry_at buf tab_local

    used : (table.system_id == 0) ≡ false
    used = ground (arith, here)

    inside : ltb tab_local 0x200 ≡ true
    inside = ground (arith, bound)

    -- One round on an extended partition, and on another one.
    Reads-extended :
        (table.system_id == 5) ≡ true
        → logic < 10
        → Reads entries left
            (prim + 1)
            (tab_local + 16)
            (logic + 1)
            (update primary prim table)
            (update logical logic table)
        → Reads (table ∷ entries) (suc left) prim tab_local logic primary logical
    unfolding read_primary
    Reads-extended is_extended few r =
        let sum : logic + 1 + length (extended entries) ≡ logic + suc (length (extended entries)) =
          omega arith in
        let before : Loader = record s { primary = primary; logical = logical } in
        let stored : Loader = record s {
          primary = primary;
          logical = update logical logic table;
        } in
        record {
          primary_after = r.primary_after;
          logical_after = r.logical_after;
          reads =
              rw
                (
                  used,
                  inside,
                  is_extended,
                  set_logical_lem logic table before few,
                  set_primary_lem prim table stored room,
                )
                (r.reads ∙ rw sum refl);
          placed = Placed-update r.placed;
          placed_extended = rw is_extended (Placed-update r.placed_extended);
        }

    Reads-other :
        (table.system_id == 5) ≡ false
        → Reads entries left (prim + 1) (tab_local + 16) logic (update primary prim table) logical
        → Reads (table ∷ entries) (suc left) prim tab_local logic primary logical
    unfolding read_primary
    Reads-other other r =
        let before : Loader = record s { primary = primary; logical = logical } in
        record {
          primary_after = r.primary_after;
          logical_after = r.logical_after;
          reads = rw (used, inside, other, set_primary_lem prim table before room) r.reads;
          placed = Placed-update r.placed;
          placed_extended = rw other r.placed_extended;
        }

  pub read_primary-Reads :
      (left prim tab_local logic : ℕ) (primary logical : ℕ → PartTable) (entries : List PartTable)
      → IsTable buf left tab_local entries
      → tab_local + left * 16 < 0x210
      → prim + length entries ≤ 4
      → logic + length (extended entries) ≤ 10
      → Reads entries left prim tab_local logic primary logical
  unfolding read_primary
  read_primary-Reads left prim tab_local logic primary logical _ full bound room few =
      Reads-stop 0 prim tab_local logic primary logical refl
  read_primary-Reads (suc left) prim tab_local logic primary logical _ (end none_here) bound room
        few =
      let stops : ((entry_at buf tab_local).system_id == 0) ≡ true = (==_iff _ _).1 none_here in
      Reads-stop (suc left) prim tab_local logic primary logical (rw stops refl)
  read_primary-Reads (suc left) prim tab_local logic primary logical _ (entry {entries} here rest)
        bound room few =
      elim (Bool-cases ((entry_at buf tab_local).system_id == 5)) [
        | inl is_extended ↦
            let few_after : logic + suc (length (extended entries)) ≤ 10 = rw is_extended at few in
            Reads-extended left prim tab_local logic primary logical entries here (omega arith)
              (omega (arith, room)) is_extended (omega (arith, few_after))
              (read_primary-Reads left (prim + 1) (tab_local + 16) (logic + 1) _ _ entries rest
                (omega arith) (omega (arith, room)) (omega (arith, few_after)))
        | inr other ↦
            Reads-other left prim tab_local logic primary logical entries here (omega arith)
              (omega (arith, room)) other
              (read_primary-Reads left (prim + 1) (tab_local + 16) logic _ logical entries rest
                (omega arith) (omega (arith, room)) (rw other at few))
      ]

  -- One round on a partition that is not an extended one.
  pub read_primary-step :
      (left prim tab_local logic : ℕ)
      → (entry_at buf tab_local).system_id ≢ 0
      → (entry_at buf tab_local).system_id ≢ 5
      → tab_local < 0x200
      → prim < 4
      → read_primary buf (suc left) prim tab_local logic s
        ≡ read_primary buf left
            (prim + 1)
            (tab_local + 16)
            logic
            (record s { primary = update s.primary prim (entry_at buf tab_local) })
  unfolding read_primary
  read_primary-step left prim tab_local logic here other bound room =
      let used : ((entry_at buf tab_local).system_id == 0) ≡ false = ground (arith, here) in
      let not_extended : ((entry_at buf tab_local).system_id == 5) ≡ false =
        ground (arith, other) in
      let inside : ltb tab_local 0x200 ≡ true = ground arith in
      rw (used, not_extended, inside, set_primary_lem prim (entry_at buf tab_local) s room) refl

  -- The end of the loop at an empty entry.
  pub read_primary-stops :
      (left prim tab_local logic : ℕ)
      → (entry_at buf tab_local).system_id ≡ 0
      → read_primary buf (suc left) prim tab_local logic s ≡ some (logic, s)
  unfolding read_primary
  read_primary-stops left prim tab_local logic none_here =
      let stops : ((entry_at buf tab_local).system_id == 0) ≡ true = (==_iff _ _).1 none_here in
      rw stops refl
