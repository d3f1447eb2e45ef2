-- ===== src/Driver/State.antt =====
-- ath9k/main.c and ath9k.h: the driver's state as far as power saving and sending read it.
use ucsma_rate_control.Base.{ℕ, Bool}
use ucsma_rate_control.Base.Int.{ℤ}
use ucsma_rate_control.Exports.{Exports}

-- The modes of the hardware; they are declared outside the repository.
pub data PowerMode : Type 0 where
  awake full_sleep network_sleep undefined : PowerMode

-- The bits of `ps_flags`.
pub record PsFlags : Type 0 where
  pub wait_for_beacon : Bool
  pub wait_for_cab : Bool
  pub wait_for_pspoll_data : Bool
  pub wait_for_tx_ack : Bool
  pub beacon_sync : Bool
  pub wait_for_ani : Bool

pub record Softc : Type 0 where
  pub ps_usecount : ℕ
  pub ps_flags : PsFlags
  pub open ps_flags use *
  pub ps_enabled : Bool
  pub ps_idle : Bool
  pub power_mode : PowerMode
  -- Whether the timer that puts the hardware to sleep is armed.
  pub sleep_timer : Bool
  pub cap_autosleep : Bool
  pub exports : Exports
  pub open exports use *

-- Calls of the other parts of the driver and of the kernel, in program order.
pub data Call : Type 0 where
  lock_pm unlock_pm lock_cc unlock_cc : Call
  del_sleep_timer mod_sleep_timer : Call
  set_power : PowerMode → Call
  update_cycle_counters clear_cycle_counters : Call
  stop_gen_timer stop_dma_recv : Call
  set_rx_abort : Bool → Call
  start_tx : Call
  count_tx_failed : Call
  free_skb : Call
  get_txq_props : (qnum : ℕ) → Call
  set_txq_props : (qnum cwmin cwmax : ℕ) → Call
  reset_tx_queue : (qnum : ℕ) → Call
  lock_mutex unlock_mutex cancel_tx_work wait_tx drain_all : Call
  wake_queues queue_tx_work : Call
  lock_pcu unlock_pcu lock_txq unlock_txq : Call
  cancel_paprd_work cancel_pll_work cancel_mci_work cancel_reset_work : Call
  queue_pll_work queue_reset_work : Call
  start_ani stop_ani stop_queues set_beacon p2p_ps_timer : Call
  txq_schedule : (i : ℕ) → Call
  drain_txqs stop_recv start_recv : (done : Bool) → Call
  update_txpow mci_set_txpower mci_enable : Call
  tasklet_disable tasklet_enable schedule_tasklet schedule_beacon_tasklet : Call
  kill_tasklet kill_beacon_tasklet synchronize_irq : Call
  hw_reset : (fastcc : Bool) (status : ℤ) → Call
  -- `global` is the bit ATH9K_INT_GLOBAL of the mask at the call.
  disable_interrupts enable_interrupts : (global : Bool) → Call
  kill_interrupts inc_intr_ref reset_intr_ref set_interrupts : Call
  get_isr update_trig_level check_watchdog check_alive : Call
  rx_tasklet : (hp : Bool) → Call
  tx_tasklet tx_edma_tasklet wake_tx_wait gen_timer_isr btcoex_interrupt : Call
  config_pci : (powersave : Bool) → Call
  set_tsfadjust : Bool → Call
  update_survey update_survey_nf set_radar_params set_rxfilter spectral_config spectral_trigger :
      Call
  start_btcoex stop_btcoex log_error : Call
  aggr_sleep aggr_wakeup key_config warn_no_slot : Call
  key_delete : (index : ℕ) → Call
  set_tx_filter : (index : ℕ) (filtered : Bool) → Call
  set_bssidmask set_opmode assign_slot remove_slot node_init node_cleanup write_associd mci_update :
      Call
  led_on led_off free_frag get_channel phy_disable init_crypto reset_tsf : Call
  read_tsf set_tsf update_noa parse_noa find_station init_global_settings check_ani : Call
  start_gen_timer : (at : ℕ) → Call
  beacon_config : Call
  lock_rcu unlock_rcu : Call
  update_max_aggr : (burst_time : ℕ) → Call
  txq_update : (qnum aifs cwmin cwmax burst_time : ℕ) → Call
  write_eifs : (clocks : ℕ) → Call
  aggr_start aggr_stop aggr_resume start_ba_cb stop_ba_cb : Call
  update_survey_stats process_descriptor : Call
  tasklet_disable_beacon tasklet_enable_beacon : Call
