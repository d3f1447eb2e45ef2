-- ===== src/Driver/Init/Registers.antt =====
-- ath9k/init.c: the accesses to the registers, which some devices want one at a time. A register is a
-- u32, by its offset.
use ucsma_rate_control.Base.{
  ℕ, ◌-◌, ◌^◌, ◌≡◌, refl, ap, ◌∙◌, Bool, true, false, Option, none, some, List, [], ◌∷◌, ◌++◌, ◌==◌,
  bit_and, bit_or, if◌then◌else◌,
}
use ucsma_rate_control.Base.Replay.{and_then, replay_by, replay_by-append}

pub data RegCall : Type 0 where
  lock_serial unlock_serial : RegCall
  read32 : (offset : ℕ) → RegCall
  write32 : (offset val : ℕ) → RegCall

-- The registers after an access, the calls, and the value returned, 0 for a write.
pub record Access : Type 0 where
  pub registers : ℕ → ℕ
  pub reg_calls : List RegCall
  pub value : ℕ

abbrev pub write_reg : (offset val : ℕ) → (ℕ → ℕ) → ℕ → ℕ
write_reg offset val mem reg = if reg == offset then val else mem reg

-- `NR_CPUS > 1 && ah->config.serialize_regmode == SER_REG_MODE_ON`, as one test.
abbrev pub serially : (serialize : Bool) → List RegCall → List RegCall
serially serialize calls =
    if serialize then lock_serial ∷ (calls ++ (unlock_serial ∷ [])) else calls

unfoldable pub iowrite32 : (serialize : Bool) (val offset : ℕ) → (ℕ → ℕ) → Access
iowrite32 serialize val offset mem = record {
  registers = write_reg offset val mem;
  reg_calls = serially serialize (write32 offset val ∷ []);
  value = 0;
}

unfoldable pub ioread32 : (serialize : Bool) (offset : ℕ) → (ℕ → ℕ) → Access
ioread32 serialize offset mem = record {
  registers = mem;
  reg_calls = serially serialize (read32 offset ∷ []);
  value = mem offset;
}

-- `~clr` of a u32 is 2 ^ 32 - 1 - clr.
abbrev pub modified : (val set clr : ℕ) → ℕ
modified val set clr = bit_or (bit_and val (2 ^ 32 - 1 - clr)) set

unfoldable pub reg_rmw : (serialize : Bool) (offset set clr : ℕ) → (ℕ → ℕ) → Access
reg_rmw serialize offset set clr mem =
    let val = modified (mem offset) set clr in
    record {
      registers = write_reg offset val mem;
      reg_calls = serially serialize (read32 offset ∷ write32 offset val ∷ []);
      value = val;
    }

pub data RegOp : Type 0 where
  write : (offset val : ℕ) → RegOp
  read : (offset : ℕ) → RegOp
  rmw : (offset set clr : ℕ) → RegOp

abbrev pub access : (serialize : Bool) → RegOp → (ℕ → ℕ) → Access
access serialize (write offset val) mem = iowrite32 serialize val offset mem
access serialize (read offset) mem = ioread32 serialize offset mem
access serialize (rmw offset set clr) mem = reg_rmw serialize offset set clr mem

-- Accesses one after the other, with all their calls, and the registers that they leave.
unfoldable pub accesses : (serialize : Bool) → List RegOp → (ℕ → ℕ) → Access
accesses serialize [] mem = record { registers = mem; reg_calls = []; value = 0 }
accesses serialize (op ∷ ops) mem =
    let now = access serialize op mem in
    let later = accesses serialize ops now.registers in
    record later { reg_calls = now.reg_calls ++ later.reg_calls }

-- The registers and their lock; taking it twice or giving it back when it is free is `none`.
pub record Bus : Type 0 where
  pub locked : Bool
  pub cells : ℕ → ℕ

unfoldable pub on_bus : RegCall → Bus → Option Bus
on_bus lock_serial b = if b.locked then none else some (record b { locked = true })
on_bus unlock_serial b = if b.locked then some (record b { locked = false }) else none
on_bus (read32 offset) b = some b
on_bus (write32 offset val) b = some (record b { cells = write_reg offset val b.cells })

access_replay :
    (serialize : Bool) (op : RegOp) (mem : ℕ → ℕ)
    → replay_by on_bus (access serialize op mem).reg_calls (record { locked = false; cells = mem })
      ≡ some (record { locked = false; cells = (access serialize op mem).registers })
unfolding iowrite32 ioread32 reg_rmw on_bus replay_by
access_replay true (write offset val) mem = refl
access_replay true (read offset) mem = refl
access_replay true (rmw offset set clr) mem = refl
access_replay false (write offset val) mem = refl
access_replay false (read offset) mem = refl
access_replay false (rmw offset set clr) mem = refl

same_registers :
    (one other : Bool) (op : RegOp) (mem : ℕ → ℕ)
    → (access one op mem).registers ≡ (access other op mem).registers
unfolding iowrite32 ioread32 reg_rmw
same_registers one other (write offset val) mem = refl
same_registers one other (read offset) mem = refl
same_registers one other (rmw offset set clr) mem = refl

-- Whether or not the accesses are made one at a time, they leave the same registers.
pub accesses_same :
    (one other : Bool) (ops : List RegOp) (mem : ℕ → ℕ)
    → (accesses one ops mem).registers ≡ (accesses other ops mem).registers
unfolding accesses
accesses_same one other [] mem = refl
accesses_same one other (op ∷ ops) mem =
    accesses_same one other ops (access one op mem).registers
    ∙ ap (λ cells. (accesses other ops cells).registers) (same_registers one other op mem)

-- The calls of the accesses never take the lock twice, leave it free, and write what the accesses
-- leave.
pub accesses_replay :
    (serialize : Bool) (ops : List RegOp) (mem : ℕ → ℕ)
    → replay_by on_bus
        (accesses serialize ops mem).reg_calls
        (record { locked = false; cells = mem })
      ≡ some (record { locked = false; cells = (accesses serialize ops mem).registers })
unfolding accesses replay_by
accesses_replay serialize [] mem = refl
accesses_replay serialize (op ∷ ops) mem =
    let now = access serialize op mem in
    replay_by-append on_bus now.reg_calls (accesses serialize ops now.registers).reg_calls
      (record { locked = false; cells = mem })
    ∙ ap (λ left. and_then left (replay_by on_bus (accesses serialize ops now.registers).reg_calls))
        (access_replay serialize op mem)
    ∙ accesses_replay serialize ops now.registers
