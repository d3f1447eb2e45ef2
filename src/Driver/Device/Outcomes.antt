-- ===== src/Driver/Device/Outcomes.antt =====
-- ath9k/main.c: what the interrupt handler, the tasklet and the reset work each leave.
use ucsma_rate_control.Base.{
  ◌≡◌, refl, ◌∙◌, ◌⊎◌, inl, inr, Bool, true, false, not, ◌||◌, Option, some, [], ◌∷◌, arith,
  if◌then◌else◌, Bool-cases,
}
use ucsma_rate_control.Driver.State.{PowerMode, get_isr, kill_interrupts}
use ucsma_rate_control.Driver.Device.{Ints, Device}
use ucsma_rate_control.Driver.Device.Isr.{IsrInputs, ath_isr, dispatch_isr, masked, is_sched, Isr}
use ucsma_rate_control.Driver.Device.Gate.{Gate, enter, replay, replay_nil, replay_cons}
use ucsma_rate_control.Driver.Device.Sound.{IsSound, dispatch-SameRun, dispatch-replay, scheduled}

-- The calls are allowed, and the driver is sound after them.
pub record Leaves (d : Device) (o : Option Gate) : Type 0 where
  pub gate : Gate
  pub left : o ≡ some gate
  pub sound : IsSound d gate

isr_read :
    (setpower : PowerMode → PowerMode → PowerMode) (s : Ints) (d : Device) (g : Gate)
    → IsSound d g
    → g.on ≡ true
    → Leaves
        (dispatch_isr setpower s d).state
        (replay (get_isr ∷ (dispatch_isr setpower s d).calls) g)
unfolding enter
isr_read setpower s d g v on =
    let same = dispatch-SameRun setpower s d in
    record {
      gate = scheduled (is_sched s) g;
      left =
          replay_cons get_isr (dispatch_isr setpower s d).calls g ∙ dispatch-replay setpower s d g;
      sound = record {
        asked = same.same_global ∙ v.asked;
        present = same.same_invalid ∙ v.present;
        balanced = elim (Bool-cases (is_sched s)) [
          | inl yes' ↦ rw yes' (ground (arith, v.balanced, v.apart))
          | inr no' ↦ rw no' v.balanced
        ];
        alive = ground (arith, v.alive);
        apart = ground (arith, v.apart);
        marked = rw same.same_reset (ground (arith, v.marked));
      };
    }

-- Either branch of a test.
if-Leaves :
    (b : Bool) (x y : Isr) (g : Gate)
    → (b ≡ true → Leaves x.state (replay x.calls g))
    → (b ≡ false → Leaves y.state (replay y.calls g))
    → Leaves (if b then x else y).state (replay (if b then x else y).calls g)
if-Leaves true x y g f h = f refl
if-Leaves false x y g f h = h refl

pub isr_outcome :
    (setpower : PowerMode → PowerMode → PowerMode) (inp : IsrInputs) (d : Device) (g : Gate)
    → IsSound d g
    → (inp.pending ≡ false) ⊎ (g.on ≡ true)
    → Leaves (ath_isr setpower inp d).state (replay (ath_isr setpower inp d).calls g)
unfolding ath_isr enter
isr_outcome setpower inp d g v may =
    let seen = masked inp.status d.imask in
    let forced = if d.diag_trigger_error then record seen { fatal = true } else seen in
    let calm = record d { diag_trigger_error = false } in
    let calm_sound : IsSound calm g = record {
      asked = v.asked;
      present = v.present;
      balanced = v.balanced;
      alive = v.alive;
      apart = v.apart;
      marked = v.marked;
    } in
    if-Leaves (d.op_invalid || not inp.pending) _ _ g
      (λ closed. record { gate = g; left = replay_nil g; sound = v })
      (λ pending.
        let on : g.on ≡ true = ground (arith, may, pending) in
        if-Leaves d.op_hw_reset _ _ g
          (λ hung. record {
            gate = record g { on = false };
            left = replay_cons kill_interrupts [] g ∙ replay_nil (record g { on = false });
            sound = record {
              asked = v.asked;
              present = v.present;
              balanced = v.balanced;
              alive = ground (arith, v.marked, hung);
              apart = inl refl;
              marked = v.marked;
            };
          })
          (λ fine. isr_read setpower forced calm g calm_sound on))
