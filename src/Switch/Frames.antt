-- ===== src/Switch/Frames.antt =====
-- The frames of threads that do not run, and what a switch does with them.
use finux.Prelude.{
  ℕ, ◌+◌, ◌-◌, ◌*◌, ◌^◌, ◌≤◌, ◌<◌, ◌≡◌, refl, ◌∙◌, ap, ◌⊎◌, inl, inr, arith, get_or, update,
}
use finux.Prelude.Bits.{u32}
use finux.Switch.{Processor, register_list, save_registers, restore_registers, lret, store_esp}
use finux.Switch.Stack.{Pushed, push_all-Pushed}

-- The frame at `base` from which the processor goes on as `d`; its eighth word is not used.
pub record Frame (d : Processor) (base : ℕ) (word : ℕ → ℕ) : Type 0 where
  pub gs : word (base + 0) ≡ d.gs
  pub fs : word (base + 4) ≡ d.fs
  pub es : word (base + 8) ≡ d.es
  pub ds : word (base + 12) ≡ d.ds
  pub edi : word (base + 16) ≡ d.edi
  pub esi : word (base + 20) ≡ d.esi
  pub ebp : word (base + 24) ≡ d.ebp
  pub ebx : word (base + 32) ≡ d.ebx
  pub edx : word (base + 36) ≡ d.edx
  pub ecx : word (base + 40) ≡ d.ecx
  pub eax : word (base + 44) ≡ d.eax
  pub eip : word (base + 48) ≡ d.eip
  pub cs : word (base + 52) ≡ d.cs

-- The registers of `d`, with this stack pointer.
pub record Running (d : Processor) (esp : ℕ) (after : Processor) : Type 0 where
  pub eax : after.eax ≡ d.eax
  pub ecx : after.ecx ≡ d.ecx
  pub edx : after.edx ≡ d.edx
  pub ebx : after.ebx ≡ d.ebx
  pub ebp : after.ebp ≡ d.ebp
  pub esi : after.esi ≡ d.esi
  pub edi : after.edi ≡ d.edi
  pub ds : after.ds ≡ d.ds
  pub es : after.es ≡ d.es
  pub fs : after.fs ≡ d.fs
  pub gs : after.gs ≡ d.gs
  pub eip : after.eip ≡ d.eip
  pub cs : after.cs ≡ d.cs
  pub stack : after.esp ≡ esp

-- Popping a frame.
module _ (d : Processor) (base : ℕ) (c : Processor) (room : base + 56 < 2 ^ 32)
    (here : c.esp ≡ base) (frame : Frame d base c.word) where
  popped : (n v : ℕ) → n < 56 → c.word (base + n) ≡ v → c.word (u32 (c.esp + n)) ≡ v
  popped n v low at = let e : u32 (c.esp + n) ≡ base + n = omega (arith, here) in ap c.word e ∙ at

  popped_behind :
      (n v : ℕ) → n < 8 → c.word (base + (48 + n)) ≡ v → c.word (u32 (u32 (c.esp + 48) + n)) ≡ v
  popped_behind n v low at =
      let e : u32 (u32 (c.esp + 48) + n) ≡ base + (48 + n) = omega (arith, here) in ap c.word e ∙ at

  pub restored-Running : Running d (base + 56) (lret (restore_registers c))
  unfolding lret restore_registers
  restored-Running = record {
    gs = popped 0 d.gs (omega arith) frame.gs;
    fs = popped 4 d.fs (omega arith) frame.fs;
    es = popped 8 d.es (omega arith) frame.es;
    ds = popped 12 d.ds (omega arith) frame.ds;
    edi = popped 16 d.edi (omega arith) frame.edi;
    esi = popped 20 d.esi (omega arith) frame.esi;
    ebp = popped 24 d.ebp (omega arith) frame.ebp;
    ebx = popped 32 d.ebx (omega arith) frame.ebx;
    edx = popped 36 d.edx (omega arith) frame.edx;
    ecx = popped 40 d.ecx (omega arith) frame.ecx;
    eax = popped 44 d.eax (omega arith) frame.eax;
    eip = popped_behind 0 d.eip (omega arith) frame.eip;
    cs = popped_behind 4 d.cs (omega arith) frame.cs;
    stack = omega (arith, here);
  }

-- A thread that does not run: its frame, and its `esp`, which points to the frame.
pub record Saved (d : Processor) (thread base : ℕ) (word : ℕ → ℕ) : Type 0 where
  pub esp : word thread ≡ base
  pub room : base + 56 < 2 ^ 32
  pub frame : Frame d base word

-- An address outside of a frame.
abbrev pub Beside : ℕ → ℕ → Type 0
Beside a base = (a < base) ⊎ (base + 56 ≤ a)

Frame-update :
    {d : Processor} {base : ℕ} {word : ℕ → ℕ} (a v : ℕ)
    → Beside a base
    → Frame d base word
    → Frame d base (update word a v)
Frame-update a v beside frame = record {
  gs = ground (arith, frame.gs);
  fs = ground (arith, frame.fs);
  es = ground (arith, frame.es);
  ds = ground (arith, frame.ds);
  edi = ground (arith, frame.edi);
  esi = ground (arith, frame.esi);
  ebp = ground (arith, frame.ebp);
  ebx = ground (arith, frame.ebx);
  edx = ground (arith, frame.edx);
  ecx = ground (arith, frame.ecx);
  eax = ground (arith, frame.eax);
  eip = ground (arith, frame.eip);
  cs = ground (arith, frame.cs);
}

pub Frame-kept :
    {d : Processor} {base : ℕ} (word word' : ℕ → ℕ)
    → ((a : ℕ) → base ≤ a → a < base + 56 → word' a ≡ word a)
    → Frame d base word
    → Frame d base word'
Frame-kept {base} word word' same frame = record {
  gs = same (base + 0) (omega arith) (omega arith) ∙ frame.gs;
  fs = same (base + 4) (omega arith) (omega arith) ∙ frame.fs;
  es = same (base + 8) (omega arith) (omega arith) ∙ frame.es;
  ds = same (base + 12) (omega arith) (omega arith) ∙ frame.ds;
  edi = same (base + 16) (omega arith) (omega arith) ∙ frame.edi;
  esi = same (base + 20) (omega arith) (omega arith) ∙ frame.esi;
  ebp = same (base + 24) (omega arith) (omega arith) ∙ frame.ebp;
  ebx = same (base + 32) (omega arith) (omega arith) ∙ frame.ebx;
  edx = same (base + 36) (omega arith) (omega arith) ∙ frame.edx;
  ecx = same (base + 40) (omega arith) (omega arith) ∙ frame.ecx;
  eax = same (base + 44) (omega arith) (omega arith) ∙ frame.eax;
  eip = same (base + 48) (omega arith) (omega arith) ∙ frame.eip;
  cs = same (base + 52) (omega arith) (omega arith) ∙ frame.cs;
}

-- Memory that is the same in a frame and at the thread that it belongs to.
abbrev pub KeepsFrame : (thread base : ℕ) (word word' : ℕ → ℕ) → Type 0
KeepsFrame thread base word word' =
    (a : ℕ) → (a ≡ thread) ⊎ ((base ≤ a) × (a < base + 56)) → word' a ≡ word a

pub Saved-kept :
    {d : Processor} {thread base : ℕ} (word word' : ℕ → ℕ)
    → KeepsFrame thread base word word'
    → Saved d thread base word
    → Saved d thread base word'
Saved-kept word word' same saved = record {
  esp = same _ (inl refl) ∙ saved.esp;
  room = saved.room;
  frame = Frame-kept word word' (λ a low high. same a (inr (low, high))) saved.frame;
}

-- The pushes in front of a call. The two words at the stack pointer are those that `lret` will take.
module _ (c : Processor) (eip cs : ℕ) (room : 48 ≤ c.esp) (small : c.esp + 8 < 2 ^ 32)
    (at_eip : c.word c.esp ≡ eip) (at_cs : c.word (c.esp + 4) ≡ cs) where
  abbrev pub returning : Processor
  returning = record c { eip = eip; cs = cs }

  pub saved-Pushed : Pushed (register_list c) c (save_registers c)
  unfolding save_registers
  saved-Pushed = push_all-Pushed (register_list c) c room (omega arith)

  kept_above :
      (n v : ℕ) → c.word (c.esp + n) ≡ v → (save_registers c).word (c.esp - 48 + (48 + n)) ≡ v
  kept_above n v at =
      let e : c.esp - 48 + (48 + n) ≡ c.esp + n = omega arith in
      ap (save_registers c).word e ∙ saved-Pushed.outside (c.esp + n) (inr (omega arith)) ∙ at

  pushed :
      (k : ℕ)
      → k < 12
      → (save_registers c).word (c.esp - 48 + 4 * (11 - k)) ≡ get_or (register_list c) k 0
  pushed k low =
      let e : c.esp - 48 + 4 * (11 - k) ≡ c.esp - 4 * (k + 1) = omega arith in
      ap (save_registers c).word e ∙ saved-Pushed.words k low

  pub save_registers-Frame : Frame returning (c.esp - 48) (save_registers c).word
  save_registers-Frame = record {
    gs = pushed 11 (omega arith);
    fs = pushed 10 (omega arith);
    es = pushed 9 (omega arith);
    ds = pushed 8 (omega arith);
    edi = pushed 7 (omega arith);
    esi = pushed 6 (omega arith);
    ebp = pushed 5 (omega arith);
    ebx = pushed 3 (omega arith);
    edx = pushed 2 (omega arith);
    ecx = pushed 1 (omega arith);
    eax = pushed 0 (omega arith);
    eip = kept_above 0 eip (ap c.word (omega arith) ∙ at_eip);
    cs = kept_above 4 cs at_cs;
  }

  -- `current_thread` and the thread's structure are not on the stack.
  module _ (current_thread_at thread : ℕ) (is_current : c.word current_thread_at ≡ thread)
      (beside : Beside current_thread_at (c.esp - 48))
      (beside_thread : Beside thread (c.esp - 48)) where
    abbrev pub stored : Processor
    stored = store_esp current_thread_at (save_registers c)

    stored-word : (a : ℕ) → stored.word a ≡ update (save_registers c).word thread (c.esp - 48) a
    unfolding store_esp
    stored-word a =
        let same : (save_registers c).word current_thread_at ≡ thread =
          saved-Pushed.outside current_thread_at (ground arith) ∙ is_current in
        rw (same, saved-Pushed.esp) refl

    pub stored-Saved : Saved returning thread (c.esp - 48) stored.word
    stored-Saved =
        Saved-kept (update (save_registers c).word thread (c.esp - 48)) stored.word
          (λ a h. stored-word a)
          (record {
            esp = ground arith;
            room = omega arith;
            frame = Frame-update thread (c.esp - 48) beside_thread save_registers-Frame;
          })
