-- ===== src/BufferDevice.antt =====
-- kernel-module/buffer_number.c and ath9k/buffer_number.c: the character device through which user
-- space reads the number of buffers. The two copies differ in names only; the line numbers are the
-- same in both. The copy in ath9k compiles: it reads `buf_counter`, the other an undeclared name.
pub mod Laws
pub mod Reader
mod Tests
use ucsma_rate_control.Base.{
  ℕ, zero, suc, ◌+◌, ◌-◌, ◌/◌, ◌%◌, ◌^◌, ◌<◌, ◌≡◌, Bool, true, false, Option, none, some, List, [],
  ◌∷◌, ◌++◌, ltb, ◌==◌, if◌then◌else◌, length,
}
use ucsma_rate_control.Base.Int.{ℤ, pos, negsuc, is_zero, is_negative, pattern_of}

-- Calls of the kernel, with their results: a class and a device are `true` where they could be made.
pub data Call : Type 0 where
  register_chrdev : (result : ℤ) → Call
  unregister_chrdev : (major : ℤ) → Call
  class_create device_create : (made : Bool) → Call
  class_destroy class_unregister device_destroy : Call

pub record Device : Type 0 where
  pub major_number : ℤ
  pub size_of_message : ℤ
  pub number_opens : ℕ
  pub message : List ℕ

pub record Outcome (R : Type 0) : Type 0 where
  pub state : Device
  pub calls : List Call
  pub result : R

-- What the kernel answers while the module is loaded; `code` is what PTR_ERR gives of a failed pointer.
pub record Answers : Type 0 where
  pub major : ℤ
  pub class_made : Bool
  pub device_made : Bool
  pub code : ℤ

pub init : Answers → Device → Outcome ℤ
init a d =
    let d' = record d { major_number = a.major } in
    if is_negative a.major
    then record { state = d'; calls = register_chrdev a.major ∷ []; result = a.major }
    else if a.class_made
    then (if a.device_made
        then record {
          state = d';
          calls = register_chrdev a.major ∷ class_create true ∷ device_create true ∷ [];
          result = pos 0;
        }
        else record {
          state = d';
          calls =
              register_chrdev a.major
              ∷ class_create true
              ∷ device_create false
              ∷ class_destroy
              ∷ unregister_chrdev a.major
              ∷ [];
          result = a.code;
        })
    else record {
      state = d';
      calls = register_chrdev a.major ∷ class_create false ∷ unregister_chrdev a.major ∷ [];
      result = a.code;
    }

pub exit : Device → List Call
exit d = device_destroy ∷ class_unregister ∷ class_destroy ∷ unregister_chrdev d.major_number ∷ []

-- `numberOpens++`, an int that wraps.
pub open_device : Device → Outcome ℤ
open_device d = record {
  state = record d { number_opens = (d.number_opens + 1) % 2 ^ 32 };
  calls = [];
  result = pos 0;
}

-- The four bytes of an int, the most significant first, as on the MIPS boards.
abbrev pub int_bytes : ℤ → List ℕ
int_bytes z =
    let p = pattern_of (2 ^ 32) z in p / 2 ^ 24 ∷ p / 2 ^ 16 % 256 ∷ p / 2 ^ 8 % 256 ∷ p % 256 ∷ []

-- A read: the bytes put into the user's buffer, whose length `len` is not looked at. `uncopied` is
-- what `copy_to_user` returns.
pub record Read : Type 0 where
  pub state : Device
  pub copied : List ℕ
  pub result : ℤ

pub read_device : (buf_counter : ℤ) (len uncopied : ℕ) → Device → Read
read_device buf_counter len uncopied d =
    if uncopied == 0
    then record {
      state = record d { size_of_message = pos 0 };
      copied = int_bytes buf_counter;
      result = pos 0;
    }
    else record { state = d; copied = int_bytes buf_counter; result = negsuc 13 }

-- The decimal digits of a number below 10 ^ fuel.
digits_onto : (fuel n : ℕ) → List ℕ → List ℕ
digits_onto zero n rest = rest
digits_onto (suc fuel) n rest =
    if ltb n 10 then (n + b'0') ∷ rest else digits_onto fuel (n / 10) ((n % 10 + b'0') ∷ rest)

-- `sprintf(message, "%s(%zu letters)", buffer, len)`, with its terminator.
pub written : (buffer : List ℕ) (len : ℕ) → List ℕ
unfolding digits_onto
written buffer len =
    buffer
    ++ b'('
      ∷ digits_onto 10 len (b' ' ∷ b'l' ∷ b'e' ∷ b't' ∷ b't' ∷ b'e' ∷ b'r' ∷ b's' ∷ b')' ∷ 0 ∷ [])

-- A write: `none` where the text is longer than the 256 bytes of `message`. `size_of_message` is its
-- length without the terminator.
pub write_device : (buffer : List ℕ) (len : ℕ) → Device → Option (Outcome ℕ)
write_device buffer len d =
    let text = written buffer len in
    if ltb 256 (length text)
    then none
    else some (record {
      state = record d { message = text; size_of_message = pos (length text - 1) };
      calls = [];
      result = len;
    })
