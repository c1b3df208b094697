-- ===== src/Switch/Entries.antt =====
-- What the entries that switch threads have in common, and `switch_to`.
use finux.Prelude.{ℕ, ◌+◌, ◌≡◌, ◌∙◌, ap}
use finux.Switch.{Processor, restore_registers, lret, load_esp, switch_to}
use finux.Switch.Frames.{Running, Saved, KeepsFrame, restored-Running, Saved-kept}

-- What the C functions do that an entry calls: they leave `u` as the current thread, whose frame the
-- processor will go on with as `d`, and the frame of the thread that called alone.
pub record Switches (current_thread_at thread base_at u base : ℕ) (d before after : Processor)
    : Type 0 where
  pub current : after.word current_thread_at ≡ u
  pub next : Saved d u base after.word
  pub kept : KeepsFrame thread base_at before.word after.word

-- The end of both entries.
pub resumed :
    (current_thread_at thread base_at u base : ℕ) (c d before after : Processor)
    → Switches current_thread_at thread base_at u base d before after
    → Saved c thread base_at before.word
    → let final = lret (restore_registers (load_esp current_thread_at after)) in
      Running d (base + 56) final × Saved c thread base_at final.word
unfolding load_esp lret restore_registers
resumed current_thread_at thread base_at u base c d before after switches saved =
    let next = switches.next in
    let loaded : Processor = load_esp current_thread_at after in
    let here : loaded.esp ≡ base = ap after.word switches.current ∙ next.esp in
    (
      restored-Running d base loaded next.room here next.frame,
      Saved-kept before.word after.word switches.kept saved,
    )

-- `switch_to` of a thread that does not run goes on as the thread does.
pub switch_to-Running :
    (c d : Processor) (thread base : ℕ)
    → Saved d thread base c.word
    → c.eax ≡ c.word thread
    → Running d (base + 56) (switch_to c)
unfolding switch_to
switch_to-Running c d thread base saved argument =
    restored-Running d base (record c { esp = c.eax }) saved.room (argument ∙ saved.esp) saved.frame
