-- ===== src/Driver/Init/Regulatory.antt =====
-- ath9k/init.c: what the driver does when the regulatory domain changes.
use ucsma_rate_control.Base.{
  ℕ, ◌*◌, ◌%◌, ◌^◌, Option, none, some, List, [], ◌∷◌, ◌++◌, if◌then◌else◌,
}
use ucsma_rate_control.Driver.Init.Defs.{Attached}

pub data RegulatoryCall : Type 0 where
  notifier_apply ps_wakeup ps_restore set_dfs_domain : RegulatoryCall
  set_txpowerlimit : (limit : ℕ) → RegulatoryCall

pub record Notified : Type 0 where
  pub state : Attached
  pub calls : List RegulatoryCall

-- `max_power` is that of the current channel, if there is one, and `power_limit` what the hardware
-- then allows; `config.txpowlimit` is a u16.
unfoldable pub reg_notifier : (max_power : Option ℕ) (power_limit : ℕ) → Attached → Notified
reg_notifier none power_limit sc = record { state = sc; calls = notifier_apply ∷ [] }
reg_notifier (some max_power) power_limit sc =
    let limit = 2 * max_power % 2 ^ 16 in
    record {
      state = record sc { txpowlimit = limit; curtxpow = power_limit };
      calls =
          notifier_apply
            ∷ ps_wakeup
            ∷ set_txpowerlimit limit
            ∷ (if sc.dfs_detector then set_dfs_domain ∷ [] else [])
          ++ (ps_restore ∷ []);
    }
