-- ===== src/Modules/Tests.antt =====
-- The small kernel modules at concrete inputs.
use ucsma_rate_control.Base.{
  ℕ, ◌+◌, ◌/◌, ◌%◌, ◌≡◌, ◌⊎◌, false, arith, replicate, length-replicate, ◌==◌,
}
use ucsma_rate_control.Base.Int.{pos, negsuc}
use ucsma_rate_control.Kernel.Clock.{clock, at}
use ucsma_rate_control.Modules.Watch.{Answers}
use ucsma_rate_control.Modules.Recorder.{Recorder, record_count}
use ucsma_rate_control.Modules.NodeTwo.{NodeTwo}
use ucsma_rate_control.Modules.Timeline.{Irqs, txinfo_init, listening, txinfo_init-replay}
use ucsma_rate_control.Modules.Timeline
use ucsma_rate_control.Modules.NodeOne.{
  IrqLatencyTest, Inputs, interrupt_test_node1_timer_handler, IsTest, node_one-IsTest,
}
use ucsma_rate_control.Modules.Contention.{Registers}
use ucsma_rate_control.Modules.Timing.{Clocks}

-- The request succeeds with the answer of a nested interrupt.
abbrev nested : Answers
nested = record { gpios = pos 0; irq = pos 40; request = pos 1 }

abbrev two_recorded : Recorder
two_recorded = record {
  records = replicate record_count (at 1 0);
  cur_count = 2;
  unlock_irq = pos 40;
}

abbrev node : NodeTwo
node = record { unlock_irq = pos 40; last_interrupt_time = 4294967295 }

abbrev third_fails : Timeline.Answers
third_fails = record {
  gpios = pos 0;
  irq1 = pos 40;
  irq2 = pos 41;
  irq3 = pos 42;
  request1 = pos 0;
  request2 = pos 0;
  request3 = negsuc 15;
}

abbrev no_irqs : Irqs
no_irqs = record { first = pos 0; second = pos 0; third = pos 0 }

abbrev one_left : IrqLatencyTest
one_left = record {
  test_count = 98;
  missed_count = 1;
  max_count = 100;
  results = replicate 10000 0;
  avg_nsecs = 900;
  min_nsecs = 700;
  max_nsecs = 1200;
}

one_left-IsTest : IsTest one_left
one_left-IsTest = record {
  whole = length-replicate {A = ℕ} 10000 0;
  in_bounds = omega arith;
  most = omega arith;
  ordered = omega arith;
}

-- The input is high in the third round of the loop.
abbrev answered : Inputs
answered = record { start = at 5 0; end = at 5 800; level = λ i. i == 2 }

node_one-IsTest_example :
    let r = interrupt_test_node1_timer_handler clock answered one_left in
    (r.state.test_count + r.state.missed_count ≡ 98 + 1 + 1)
    × (IsTest r.state ⊎ (r.restarted ≡ false))
node_one-IsTest_example = node_one-IsTest clock answered one_left one_left-IsTest (omega arith)

abbrev registers : Registers
registers = record { value = λ reg. 0x002ffc0f; field = λ reg field. 15 }

-- The seconds change between the two readings, and every round of a loop takes a microsecond.
abbrev clocks : Clocks
clocks = record {
  st = record { tv_sec = pos 5; tv_usec = 999_998 };
  en = record { tv_sec = pos 6; tv_usec = 3 };
  s = at 6 10;
  e = at 6 5010;
  st_loop = record { tv_sec = pos 7; tv_usec = 0 };
  en_loop = λ i. record { tv_sec = pos (7 + i / 1_000_000); tv_usec = i % 1_000_000 };
  s_loop = at 20 0;
  e_loop = λ i. at (20 + i / 1_000_000) (i % 1_000_000);
}
