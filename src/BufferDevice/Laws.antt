-- ===== src/BufferDevice/Laws.antt =====
-- kernel-module/buffer_number.c: loading, unloading, reading and writing the device.
use ucsma_rate_control.Base.{
  ℕ, ◌+◌, ◌-◌, ◌*◌, ◌^◌, ◌≡◌, refl, Bool, true, false, not, ◌&&◌, Option, none, some, List, [], ◌∷◌,
  arith, if◌then◌else◌, length,
}
use ucsma_rate_control.Base.Int.{ℤ, pos, negsuc, ◌≤ℤ◌, is_negative, signed_of}
use ucsma_rate_control.BufferDevice.{
  Call, register_chrdev, unregister_chrdev, class_create, device_create, class_destroy,
  class_unregister, device_destroy, Device, Answers, init, exit, read_device,
}

-- What the calls leave registered; `none` is a release of what is not there. `class_destroy` is
-- documented to unregister the class.
pub record Registry : Type 0 where
  pub chrdev : Bool
  pub class : Bool
  pub device : Bool

abbrev pub registry : Bool → Bool → Bool → Registry
registry c k d = record { chrdev = c; class = k; device = d }

abbrev release : Bool → Registry → Option Registry
release true r = some r
release false r = none

abbrev pub enter : Call → Registry → Option Registry
enter (register_chrdev z) r = if is_negative z then some r else some (record r { chrdev = true })
enter (unregister_chrdev z) r = release r.chrdev (record r { chrdev = false })
enter (class_create made) r = if made then some (record r { class = true }) else some r
enter (device_create made) r = if made then some (record r { device = true }) else some r
enter class_destroy r = release r.class (record r { class = false })
enter class_unregister r = release r.class (record r { class = false })
enter device_destroy r = release r.device (record r { device = false })

abbrev and_then : Option Registry → (Registry → Option Registry) → Option Registry
and_then none next = none
and_then (some r) next = next r

abbrev pub replay : List Call → Registry → Option Registry
replay [] r = some r
replay (c ∷ calls) r = and_then (enter c r) (replay calls)

-- Loading registers the device number, the class and the device or, on every failure, nothing in
-- the end.
pub init-all_or_nothing :
    (a : Answers) (d : Device)
    → replay (init a d).calls (registry false false false)
      ≡ some (
          if not (is_negative a.major) && (a.class_made && a.device_made)
          then registry true true true
          else registry false false false)
unfolding init
init-all_or_nothing a d = ground arith

-- Unloading releases the class twice: after all three were registered, its calls are a misuse.
pub exit_misuse : (d : Device) → replay (exit d) (registry true true true) ≡ none
unfolding exit
exit_misuse d = refl

abbrev pub int_of_bytes : List ℕ → ℤ
int_of_bytes (a ∷ b ∷ c ∷ d ∷ []) = signed_of (2 ^ 32) (a * 2 ^ 24 + b * 2 ^ 16 + c * 2 ^ 8 + d)
int_of_bytes _ = pos 0

-- For an int and whatever length is asked for, a read that copies puts the four bytes of the
-- counter into the user's buffer, from which the counter is read back, and returns 0.
pub read_back :
    (z : ℤ) (len : ℕ) (d : Device)
    → negsuc (2 ^ 31 - 1) ≤ℤ z
    → z ≤ℤ pos (2 ^ 31 - 1)
    → let r = read_device z len 0 d in
      (int_of_bytes r.copied ≡ z) × (length r.copied ≡ 4) × (r.result ≡ pos 0)
unfolding read_device
read_back (pos n) len d lo hi = (ground arith, refl, refl)
read_back (negsuc n) len d lo hi = (ground arith, refl, refl)
