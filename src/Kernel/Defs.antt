-- ===== src/Kernel/Defs.antt =====
-- Calls of the kernel in program order, with what a call returned where the code looks at it.
-- Registers, register fields and bits are names.
use ucsma_rate_control.Base.{ℕ, ◌%◌, ◌^◌, List, Bool}
use ucsma_rate_control.Base.Int.{ℤ}
use ucsma_rate_control.Kernel.Time.{Timespec}

abbrev pub u32 : ℕ → ℕ
u32 n = n % 2 ^ 32

pub data Reg : Type 0 where
  dlcl_ifs : (qnum : ℕ) → Reg
  dmisc : (qnum : ℕ) → Reg
  pcu_misc : Reg
  gbl_ifs_slot gbl_ifs_sifs gbl_ifs_eifs : Reg

pub data Field : Type 0 where
  lcl_ifs_cwmin lcl_ifs_cwmax lcl_ifs_aifs : Field

pub data Bit : Type 0 where
  force_quiet_coll : Bit

pub data Call : Type 0 where
  spin_lock_irqsave spin_unlock_irqrestore : Call
  gpio_set_value : (pin value : ℕ) → Call
  gpio_get_value : (pin : ℕ) (value : Bool) → Call
  udelay : (usecs : ℕ) → Call
  ndelay : (nsecs : ℕ) → Call
  getnstimeofday : Timespec → Call
  get_random_bytes : (word : ℕ) → Call
  reg_read : Reg → (value : ℕ) → Call
  reg_write : Reg → (value : ℕ) → Call
  reg_set_bit reg_clr_bit : Reg → Bit → Call
  reg_rmw_field : Reg → Field → (value : ℕ) → Call
  reg_read_field : Reg → Field → (value : ℕ) → Call
  hrtimer_init hrtimer_cancel : Call
  hrtimer_start : (nsecs : ℕ) → Call
  hrtimer_forward_now : (nsecs : ℕ) → Call
  mod_timer : (jiffies : ℕ) → Call
  init_timer add_timer del_timer del_timer_sync : Call
  do_gettimeofday queue_work : Call
  gpio_request_array : (result : ℤ) → Call
  gpio_free_array : Call
  gpio_to_irq : (pin : ℕ) (result : ℤ) → Call
  request_irq : (irq result : ℤ) → Call
  request_any_context_irq : (irq result : ℤ) → Call
  free_irq : (irq : ℤ) → Call
  print_record : (by_timer : Bool) → Timespec → Call
  print_edge : (rising : Bool) (pin : ℕ) → Call

-- What a run of a function leaves: the module's variables, the calls made, and the value returned.
pub record Outcome (S R : Type 0) : Type 0 where
  pub state : S
  pub calls : List Call
  pub result : R
