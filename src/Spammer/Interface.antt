-- ===== src/Spammer/Interface.antt =====
-- packetspammer/packetspammer.c: opening the interface. What libpcap answers is an argument.
use ucsma_rate_control.Base.{
  ℕ, ◌+◌, ◌≡◌, Bool, true, false, List, [], ◌∷◌, ◌++◌, arith, if◌then◌else◌,
}

-- The link types that the program knows; their numbers belong to libpcap.
pub data Encap : Type 0 where
  prism radio other : Encap

pub data Program : Type 0 where
  source_at_4a source_at_0a : Program

pub data Call : Type 0 where
  open_live : (opened : Bool) → Call
  datalink : Encap → Call
  compile : Program → (compiled : Bool) → Call
  setfilter : (accepted : Bool) → Call
  freecode setnonblock clear_buffer create_thread : Call

-- What libpcap answers.
pub record Pcap : Type 0 where
  pub opened : Bool
  pub encap : Encap
  pub compiled : Bool
  pub accepted : Bool

pub data Result : Type 0 where
  returned : (code : ℕ) → Result
  ready : (capture_header_length header_length : ℕ) → Result

pub record Opened : Type 0 where
  pub calls : List Call
  pub result : Result

-- From the compilation of the filter on.
pub set_filter : Pcap → Program → (header_length : ℕ) → (before : List Call) → Opened
set_filter p program header_length before =
    if p.compiled
    then record {
      calls =
          before
          ++ compile program true
            ∷ setfilter p.accepted
            ∷ freecode
            ∷ setnonblock
            ∷ clear_buffer
            ∷ create_thread
            ∷ [];
      result = ready 0x40 header_length;
    }
    else record { calls = before ++ compile program false ∷ []; result = returned 1 }

pub open_encap : Pcap → Encap → (before : List Call) → Opened
unfolding set_filter
open_encap p prism before = set_filter p source_at_4a 0x20 before
open_encap p radio before = set_filter p source_at_0a 0x18 before
open_encap p other before = record { calls = before; result = returned 1 }

pub open_interface : Pcap → Opened
unfolding open_encap
open_interface p =
    if p.opened
    then open_encap p p.encap (open_live true ∷ datalink p.encap ∷ [])
    else record { calls = open_live false ∷ []; result = returned 1 }

-- The compiled programs less those freed, and the threads started.
abbrev compiled_of : Call → ℕ
compiled_of (compile filter true) = 1
compiled_of (compile filter false) = 0
compiled_of _ = 0

abbrev freed_of : Call → ℕ
freed_of freecode = 1
freed_of _ = 0

abbrev threads_of : Call → ℕ
threads_of create_thread = 1
threads_of _ = 0

abbrev pub total : (Call → ℕ) → List Call → ℕ
total count [] = 0
total count (c ∷ calls) = count c + total count calls

abbrev pub is_ready : Result → ℕ
is_ready (returned code) = 0
is_ready (ready capture_header_length header_length) = 1

-- On every path a filter that is compiled is freed, and the thread that prints the speed is started
-- exactly when the program goes on to send; it goes on also where the filter is not accepted.
pub open_interface-frees :
    (p : Pcap)
    → let o = open_interface p in
      (total compiled_of o.calls ≡ total freed_of o.calls)
      × (total threads_of o.calls ≡ is_ready o.result)
unfolding open_interface open_encap set_filter
open_interface-frees p = ground arith
