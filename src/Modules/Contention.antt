-- ===== src/Modules/Contention.antt =====
-- kernel-module/set_contention_window.c (ath9k/set_contention_window.c is the same file): reading the
-- queues' registers, and writing three fields of one.
use ucsma_rate_control.Base.{ℕ, zero, suc, ◌+◌, ◌≡◌, refl, List, [], ◌∷◌, ◌++◌}
use ucsma_rate_control.Kernel.{
  Call, Reg, Field, dlcl_ifs, dmisc, lcl_ifs_cwmin, lcl_ifs_cwmax, lcl_ifs_aifs, reg_read,
  reg_write, reg_rmw_field, reg_read_field, mod_timer, queue_work, reg_set_bit, reg_clr_bit,
}

-- What the registers and their fields hold while the functions run.
pub record Registers : Type 0 where
  pub value : Reg → ℕ
  pub field : Reg → Field → ℕ

-- One queue: its window, and its other register before and after a write that is commented out.
pub read_rounds : (rounds qnum : ℕ) → Registers → List Call
read_rounds zero qnum r = []
read_rounds (suc rounds) qnum r =
    reg_read (dlcl_ifs qnum) (r.value (dlcl_ifs qnum))
    ∷ reg_read (dmisc qnum) (r.value (dmisc qnum))
    ∷ reg_read (dmisc qnum) (r.value (dmisc qnum))
    ∷ read_rounds rounds (qnum + 1) r

-- Both outcomes of `mod_timer` return; `jiffies` is `usecs_to_jiffies(5000000)`.
pub edit_contention_window : (jiffies : ℕ) → Registers → List Call
unfolding read_rounds
edit_contention_window jiffies r = read_rounds 8 0 r ++ mod_timer jiffies ∷ []

pub cw_timer_handler : List Call
cw_timer_handler = queue_work ∷ []

pub show_rounds : (rounds qnum : ℕ) → Registers → List Call
show_rounds zero qnum r = []
show_rounds (suc rounds) qnum r =
    reg_read (dlcl_ifs qnum) (r.value (dlcl_ifs qnum))
    ∷ reg_read_field (dlcl_ifs qnum) lcl_ifs_cwmin (r.field (dlcl_ifs qnum) lcl_ifs_cwmin)
    ∷ reg_read_field (dlcl_ifs qnum) lcl_ifs_cwmax (r.field (dlcl_ifs qnum) lcl_ifs_cwmax)
    ∷ reg_read_field (dlcl_ifs qnum) lcl_ifs_aifs (r.field (dlcl_ifs qnum) lcl_ifs_aifs)
    ∷ show_rounds rounds (qnum + 1) r

-- `r` is what the registers hold after the three writes. The function returns 0.
pub test_init : Registers → List Call
unfolding show_rounds
test_init r =
    reg_rmw_field (dlcl_ifs 1) lcl_ifs_cwmin 0
    ∷ reg_rmw_field (dlcl_ifs 1) lcl_ifs_cwmax 0
    ∷ reg_rmw_field (dlcl_ifs 1) lcl_ifs_aifs 0
    ∷ show_rounds 10 0 r

-- The calls that change a register, and the number of those that read one.
abbrev pub writes : List Call → List Call
writes [] = []
writes (reg_write reg value ∷ calls) = reg_write reg value ∷ writes calls
writes (reg_rmw_field reg field value ∷ calls) = reg_rmw_field reg field value ∷ writes calls
writes (reg_set_bit reg bit ∷ calls) = reg_set_bit reg bit ∷ writes calls
writes (reg_clr_bit reg bit ∷ calls) = reg_clr_bit reg bit ∷ writes calls
writes (c ∷ calls) = writes calls

abbrev pub reads : List Call → ℕ
reads [] = 0
reads (reg_read reg value ∷ calls) = suc (reads calls)
reads (reg_read_field reg field value ∷ calls) = suc (reads calls)
reads (c ∷ calls) = reads calls

-- The work of the timer changes no register, in any state of them; loading changes three fields
-- of queue 1 and no other. They make 24 and 40 reads.
pub contention_writes :
    (jiffies : ℕ) (r r' : Registers)
    → (writes (edit_contention_window jiffies r) ≡ [])
      × (reads (edit_contention_window jiffies r) ≡ 24)
      × (writes (test_init r')
          ≡ reg_rmw_field (dlcl_ifs 1) lcl_ifs_cwmin 0
            ∷ reg_rmw_field (dlcl_ifs 1) lcl_ifs_cwmax 0
            ∷ reg_rmw_field (dlcl_ifs 1) lcl_ifs_aifs 0
            ∷ [])
      × (reads (test_init r') ≡ 40)
unfolding edit_contention_window test_init
contention_writes jiffies r r' = (refl, refl, refl, refl)
