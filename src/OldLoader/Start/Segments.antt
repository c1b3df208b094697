-- ===== src/OldLoader/Start/Segments.antt =====
-- The segments and the task of the first loader.
use finux.Prelude.{◌^◌, ◌<◌, ◌≡◌, refl, arith}
use finux.Desc.{kernel_cs, kernel_ds, kernel_tss, dis_gs}
use finux.Desc.Fields.{read_gate, read_segment, gdt_entry_init-read_segment}
use finux.OldLoader.Start.{OldNames, OldSegments, old_cstart, set_task, call_gate}
use finux.OldLoader.Start.Vectors.{open_gate, old_gate-call}

module _ (names : OldNames) where
  -- The table and the registers when the task is loaded.
  pub record HasTask (s : OldSegments) : Type 0 where
    pub null : s.gdt 0 ≡ record { a = 0; b = 0 }
    pub kernel_code : s.gdt 4 ≡ names.kernel_code
    pub kernel_date : s.gdt 5 ≡ names.kernel_date
    pub user_code : s.gdt 6 ≡ names.user_code
    pub user_date : s.gdt 7 ≡ names.user_date
    pub task :
        read_segment (s.gdt 8)
        ≡ record { base = names.tss_at; limit = 104; access = 0x89; size = 0 }
    pub display :
        read_segment (s.gdt 9) ≡ record { base = 0xb8000; limit = 0xffff; access = 0x92; size = 0 }
    pub registers : (s.cs ≡ kernel_cs) × (s.ds ≡ kernel_ds) × (s.gs ≡ dis_gs) × (s.tr ≡ kernel_tss)
    pub stack : (s.tss.sp0 ≡ s.esp) × (s.tss.ss0 ≡ s.ss)

  -- With 32-bit addresses of the task's structure and of `Call_Gate_Test`, and a 16-bit selector: after
  -- `Cstart` and the first part of `GDT_Changed` the table holds the null descriptor, the four code
  -- and data segments of the header, the task with a limit one below the place of `tss_len`, and the
  -- screen; the registers select them, the stack of ring 0 in the task is the one in use, and
  -- `Call_Gate` puts a call gate to `Call_Gate_Test` for every ring into entry 3.
  pub set_task-HasTask :
      (s : OldSegments)
      → names.tss_at < 2 ^ 32
      → names.call_gate_test < 2 ^ 32
      → names.kcs_selector < 2 ^ 16
      → let after = set_task names (old_cstart names s) in
        HasTask after
        × (read_gate (call_gate names after.gdt 3)
            ≡ open_gate 0xc names.kcs_selector names.call_gate_test)
  unfolding set_task old_cstart call_gate
  set_task-HasTask s task_word gate_word selector = (
    record {
      null = refl;
      kernel_code = refl;
      kernel_date = refl;
      user_code = refl;
      user_date = refl;
      task =
          gdt_entry_init-read_segment 0x89 names.tss_at 104 (omega arith) task_word (omega arith);
      display =
          gdt_entry_init-read_segment 0x92 0xb8000 0xffff (omega arith) (omega arith) (omega arith);
      registers = (refl, refl, refl, refl);
      stack = (refl, refl);
    },
    old_gate-call names.kcs_selector names.call_gate_test gate_word selector,
  )
