-- ===== src/Lib.antt =====
-- The verification library of the U-CSMA rate control: the kernel module that sends and relays
-- the unlocking signal, the driver code that it reads and wakes, the character device that
-- publishes the number of transmit buffers, and the program that sends frames at the rate which
-- that number allows.
--
-- How the parts interact. ath9k/main.c exports three variables: the list of transmit buffers
-- (NULL until the first frame), the counter of buffers, and a flag. kernel-module/unlock.c counts
-- the list at every pulse and every interrupt, writes the counter, and sets the contention window
-- of the eight hardware queues from it. ath9k/buffer_number.c hands the counter to user space.
-- packetspammer/packetspammer.c reads a number from that device after each frame and pauses in
-- proportion to it.
--
-- Files:
--
--   Base and its children: the shared names, lists over the native numbers, lists of calls
--   replayed on a ledger (Replay), C's ints and shorts with their wrap-around (Int), bytes
--   written into a buffer (Bytes), and statements checked over a table (Table).
--   Exports: the three variables that ath9k/main.c exports, as a record that the driver and the
--   modules share.
--   Kernel: the calls that the modules make, as data in program order (Defs); the timespec and
--   its subtraction, a parameter with the documented behaviour of timespec_sub as its law (Time);
--   and what a list of calls leaves acquired, by the rules of the kernel's interface (Ledger).
--   The kernel's answers (times, random words, results of requests) are arguments of the
--   handlers.
--   Unlock: kernel-module/unlock.c. Its variables are the record Unlock; unlock_timer_handler,
--   unlock_r_irq_handler, unlock_init and unlock_exit are functions from that record to the new
--   record, the calls and the value returned. Its children: Buffers (the count), Window (the
--   registers), Period (the next delay), Irq and Expiry (the handlers), Lifecycle (loading and
--   unloading), Lockout (histories of late interrupts), Running (the step relation and its
--   invariant), and Life (a whole life of the module).
--   UnlockLog: kernel-module/unlock_with_log.c, the same protocol with a log of 1000 pulses.
--   RateControl: the path of the number of buffers through three of the parts, and, in Probed,
--   from the set-up of the buffers in ath9k/init.c on; that ath_tx_init hands it the number of
--   buffers is taken from the call in ath9k_init_device.
--   Spammer: packetspammer/packetspammer.c. Interface (opening it), Mac (hardware addresses),
--   Options (the command line, and in Header what it makes of the frame's header), Frame (the
--   bytes of the frame and its length), Dump (the hexadecimal listing, a line as a value), Pace
--   (the pause), and Loop (the sending loop).
--   Driver: ath9k/main.c. Window is ath_cw_update; Power is ath9k_ps_wakeup, ath9k_ps_restore and
--   ath_ps_full_sleep; Transmit is ath9k_tx; Queues has the two tests for pending frames, and
--   Flush ath9k_flush. Device is the reset: its state is the record Device with the fields and
--   flags that a reset, the interrupt handler and the tasklet share, and its functions, from
--   ath_prepare_reset to ath_reset_work, return the new state with the calls that they make. Its
--   children Isr, Tasklet and StartStop are ath_isr, ath9k_tasklet, and ath9k_start and
--   ath9k_stop. Gate is a ledger of the references to the interrupts, by the rules that the
--   comments of the file give; Sound is the invariant, Outcomes, Served and Restored follow each
--   function through it, Events lets interrupts, tasklets and resets happen in any order, Halting
--   has starting and the reset that gets stuck, and Stopping has stopping. Antenna is
--   fill_chainmask, ath9k_set_antenna and ath9k_get_antenna. Interfaces is ath9k_vif_iter and the
--   summary, and adding, changing and removing an interface. Keys is the stations' keys and their
--   sleep, (ath9k_sta_add to ath9k_sta_notify, ath9k_set_key). PeerToPeer is the timer that
--   follows a group owner's absences, Bss is ath9k_bss_info_changed with the primary station
--   (Primary), Operations the shorter operations, from ath9k_conf_tx to ath9k_get_stats, and
--   Spectral the modes of the scan of the spectrum. Keys.Slots and Keys.Refine compare a
--   station's table with a set. Config turns power saving on and off, Channel is ath_set_channel
--   with the table of statistics, and Configure is ath9k_config. An interrupt, a tasklet and a
--   reset run each as a whole: the locks are calls, and the tasklet is off during a reset. A
--   tasklet that waits when the driver stops runs inside tasklet_kill, as the kernel lets it. The
--   tasklet of the beacons is a call only.
--   Driver.Dma and Driver.Init: ath9k/init.c. Dma is ath_descdma_setup with the macros of
--   ath9k/ath9k.h. In Init, the record Attached has the fields of struct ath_softc, struct ath_hw
--   and struct ath_common that the file writes; Platform is the quirks and the EEPROM in a file,
--   Attach ath9k_init_softc and ath9k_deinit_softc, Capabilities ath9k_set_hw_capab and the
--   limits of power, Probe ath9k_init_device, ath9k_deinit_device and the module's start and end,
--   Registers the accesses to the registers, Regulatory ath9k_reg_notifier. Held is the ledger of
--   what the calls acquire; Laws, Accounts and Undone follow every path through it, and QueueMap
--   has the queues of the four classes. What the kernel, mac80211 and the driver's other files
--   return is in the records AttachInputs and ProbeInputs; ath_txq_setup is taken to return a
--   queue.
--   BufferDevice: kernel-module/buffer_number.c, of which ath9k/buffer_number.c is a copy with
--   other names; Reader is ath9k/read_buffer_number.c.
--   Modules: the small kernel modules. Watch is the loading and unloading that
--   kernel-module/interrupt_test_node2.c and kernel-module/record_gpio_event.c share; NodeTwo and
--   Recorder are their handlers; NodeOne is kernel-module/interrupt_test_node1.c; Timeline is
--   kernel-module/gpio_timeline.c; ReleaseBit is kernel-module/flip_quiet_coll_bit.c; Contention
--   is kernel-module/set_contention_window.c; Timing is kernel-module/kernel_timing_test.c.
--
-- Widths. u32 values keep their reduction modulo 2 ^ 32, ints are signed numbers with the
-- conversion written out, and an int that overflows is an outcome of its own. An address copied
-- beyond the header of the frame is an outcome of its own, too; the other copies of
-- packetspammer/packetspammer.c cut what is beyond the buffer, and their theorem asks that they
-- fit. The two loops of ath_descdma_setup that wait for a condition run on fuel: the number of
-- skipped descriptors, which each round makes smaller for descriptors below 4096 bytes, and the
-- length of the block, which each round takes at least one byte of; with both the set-up is
-- proved to end. There is no other fuel except the rounds of the loops that count to a constant
-- (eight queues, six bytes of an address, ten digits of a u32, 32 bits of a mask), which are
-- those of the source. The sending loop runs over the list of what the outside answers, one entry
-- for each round.
--
-- Not modelled. The rest of ath9k/main.c (WoW, TX99 and debugging, and the table of operations)
-- is the Linux driver, as are the declarations of ath9k.h that nothing here reads; of
-- ath9k/init.c the set-up of locks, timers and work items is left out. What the chip and the
-- driver's other files answer during a reset, an interrupt, a configuration or a probe are
-- arguments. packetspammer/radiotap.c and its headers are the radiotap parser of the Linux
-- wireless stack, and kernel-module/gpio-irq-latency-test.c is taken from another project.
-- Printing is left out, and with it the usage text and the speed thread of
-- packetspammer/packetspammer.c, whose numbers are floating point. Interrupts on several
-- processors are not modelled: a handler runs to its end before the next starts, except that the
-- lock is acquired and released by its own calls.
pub mod RateControl
pub mod UnlockLog
pub mod Modules
pub mod Base
pub mod Exports
pub mod Kernel
pub mod Unlock
pub mod Spammer
pub mod Driver
pub mod BufferDevice
