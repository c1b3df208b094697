-- ===== src/Tests/Idt.antt =====
-- The interrupt table of a machine whose ports are memory and whose lines are all masked.
use finux.Idt.{Handlers, IdtState}
use finux.Tests.Machine.{plain, all_masked}

abbrev pub handlers : Handlers
handlers = record {
  exception = λ e. 0x200100;
  sys_entry = 0x200200;
  irq00_handler = 0x200300;
  timer_address = 0x200400;
}

abbrev pub empty : IdtState plain
empty = record {
  idt = λ n. record { a = 0; b = 0 };
  idtr = record { size = 0; address = 0 };
  cpu = all_masked;
  interrupt = λ n. 0;
}
