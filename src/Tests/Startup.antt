-- ===== src/Tests/Startup.antt =====
-- A start of the kernel with 32M of memory.
use finux.Startup.{Linked, Computer}
use finux.Startup.Up.{Up}
use finux.Tests.Machine.{plain, booted}
use finux.Tests.Memory.{memory, machine}
use finux.Tests.Idt.{handlers, empty}
use finux.Tests.Thread.{globals, fresh}

abbrev linked : Linked
linked = record {
  tss_address = 0x203000;
  gdt_address = 0x202000;
  idt_address = 0x205000;
  handlers = handlers;
  globals = globals;
}

abbrev computer : Computer plain
computer = record {
  gdt = booted;
  info = memory 0x2000000;
  paging = machine;
  idt = empty;
  threads = fresh;
}
