-- ===== src/Driver/Spectral.antt =====
-- ath9k/main.c: the modes of the scan of the spectrum, and the two ends of a scan by software.
use ucsma_rate_control.Base.{◌≡◌, refl, Bool, true, false, not, List, [], ◌∷◌, if◌then◌else◌}
use ucsma_rate_control.Base.Int.{ℤ, pos, negsuc, is_negative}
use ucsma_rate_control.Driver.State.{PowerMode, Softc, Call, spectral_config, log_error}
use ucsma_rate_control.Driver.Operations.{awake_for}
use ucsma_rate_control.Driver.Init.Defs.{SpecConfig}

-- `enum spectral_mode`; `unknown_mode` is any other value.
pub data SpectralMode : Type 0 where
  disabled background manual chanscan unknown_mode : SpectralMode

-- `sc->spec_config` and `sc->spectral_mode` with the state of power saving.
pub record Spectrum : Type 0 where
  pub softc : Softc
  pub spec : SpecConfig
  pub mode : SpectralMode

pub record SpectralRun : Type 0 where
  pub state : Spectrum
  pub calls : List Call
  pub result : ℤ

abbrev pub is_known : SpectralMode → Bool
is_known unknown_mode = false
is_known _ = true

-- The cases of the mode.
unfoldable pub mode_config : SpectralMode → SpecConfig → SpecConfig
mode_config disabled spec = record spec { enabled = false }
mode_config background spec = record spec { endless = true; enabled = true }
mode_config chanscan spec = record spec { endless = false; enabled = true }
mode_config manual spec = record spec { endless = false; enabled = true }
mode_config unknown_mode spec = spec

module _ (setpower : PowerMode → PowerMode → PowerMode) (btcoex : Bool) where
  -- `has_trigger` is whether the hardware has the operation; the function then returns -1.
  unfoldable pub spectral_scan_config : (has_trigger : Bool) → SpectralMode → Spectrum → SpectralRun
  unfolding mode_config awake_for
  spectral_scan_config has_trigger mode s =
      let done = awake_for setpower btcoex (spectral_config ∷ []) s.softc in
      if not has_trigger
      then record { state = s; calls = log_error ∷ []; result = negsuc 0 }
      else if not (is_known mode)
      then record { state = s; calls = []; result = negsuc 0 }
      else record {
        state = record { softc = done.state; spec = mode_config mode s.spec; mode = mode };
        calls = done.calls;
        result = pos 0;
      }

abbrev pub is_disabled : SpectralMode → Bool
is_disabled disabled = true
is_disabled _ = false

-- A call that returns 0 has the mode kept, and scanning is enabled in every mode but the disabled one.
pub spectral_mode_kept :
    (setpower : PowerMode → PowerMode → PowerMode) (btcoex has_trigger : Bool) (mode : SpectralMode)
    (s : Spectrum)
    → is_negative (spectral_scan_config setpower btcoex has_trigger mode s).result ≡ false
    → let after = (spectral_scan_config setpower btcoex has_trigger mode s).state in
      (after.mode ≡ mode) × (after.spec.enabled ≡ not (is_disabled mode))
unfolding spectral_scan_config mode_config
spectral_mode_kept setpower btcoex false mode s returns = absurd (cc)
spectral_mode_kept setpower btcoex true disabled s returns = (refl, refl)
spectral_mode_kept setpower btcoex true background s returns = (refl, refl)
spectral_mode_kept setpower btcoex true manual s returns = (refl, refl)
spectral_mode_kept setpower btcoex true chanscan s returns = (refl, refl)
spectral_mode_kept setpower btcoex true unknown_mode s returns = absurd (cc)

-- `op_flags`' bit for a scan, which the two operations set and clear.
abbrev pub sw_scan_start : (scanning : Bool) → Bool
sw_scan_start scanning = true

abbrev pub sw_scan_complete : (scanning : Bool) → Bool
sw_scan_complete scanning = false
