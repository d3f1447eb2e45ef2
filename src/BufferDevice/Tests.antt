-- ===== src/BufferDevice/Tests.antt =====
-- kernel-module/buffer_number.c at concrete inputs.
use ucsma_rate_control.Base.{◌≡◌, true, false, some, []}
use ucsma_rate_control.Base.Int.{pos, negsuc}
use ucsma_rate_control.BufferDevice.{Device, Answers, init}
use ucsma_rate_control.BufferDevice.Laws.{replay, registry, init-all_or_nothing}

abbrev closed : Device
closed = record { major_number = pos 0; size_of_message = pos 0; number_opens = 0; message = [] }

-- The class is made, the device is not.
abbrev no_device : Answers
no_device = record { major = pos 240; class_made = true; device_made = false; code = negsuc 11 }

init-all_or_nothing_example :
    replay (init no_device closed).calls (registry false false false)
    ≡ some (registry false false false)
unfolding init
init-all_or_nothing_example = init-all_or_nothing no_device closed
