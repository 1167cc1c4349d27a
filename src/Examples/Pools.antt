-- ===== src/Examples/Pools.antt =====
-- The driver's packets on the heap.
use ciot_vlc.Base.{
  ℕ, ◌≡◌, refl, true, false, ◌==◌, if◌then◌else◌, Option, none, some, List, [], ◌∷◌, ◌++◌, length,
  replicate, arith, length-append, length-replicate,
}
use ciot_vlc.Pru.{writew}
use ciot_vlc.VlcTx.Driver.{encode_blocks, write_packet_to_pru_memory}
use ciot_vlc.VlcTx.Pool.{Driver, write_next}
use ciot_vlc.VlcTx.Linked.{VlcPacket, Linked, vlc_setup_pool, next_packet}
use ciot_vlc.VlcTx.Linked.Chain.{Chain, nil, cons}
use ciot_vlc.VlcTx.Linked.Represents.{Represents}
use ciot_vlc.VlcTx.Linked.Enqueue.{SameCall, vlc_tx_refines}
use ciot_vlc.VlcTx.Linked.Dequeue.{next_packet_refines}
use ciot_vlc.VlcTx.Linked.Start.{vlc_setup_pool-Represents}
use ciot_vlc.Examples.Drivers.{checksum, cleared}

abbrev zeros : VlcPacket
zeros = record { next = none; datalen = 0; data_array = replicate 2010 0 }

-- Two rounds get memory, and the third none.
abbrev answers : List (Option (ℕ × VlcPacket))
answers = some (10, zeros) ∷ some (20, zeros) ∷ none ∷ []

abbrev idle : ℕ → Driver
idle free = record {
  ppool = free;
  tx_queue = [];
  stopped = false;
  is_write_next = true;
  write_idx = 4;
  pru0 = writew (writew cleared 0 4) 2 4;
  vlc_q_pkt = [];
}

abbrev nothing_linked : Linked
nothing_linked = record { ppool = none; tx_queue = none; stopped = false; heap = λ a. none }

zeros_size : length (replicate {A = ℕ} 2010 0) ≡ 2010
zeros_size = length-replicate {A = ℕ} 2010 0

two_free : Represents (vlc_setup_pool answers nothing_linked) (idle 2)
two_free =
    vlc_setup_pool-Represents answers (λ a. none) (idle 2)
      (refl, zeros_size, (refl, zeros_size, tt)) refl refl refl

vlc_tx_refines_example : SameCall 2 (7 ∷ 8 ∷ []) (vlc_setup_pool answers nothing_linked) (idle 2)
vlc_tx_refines_example =
    vlc_tx_refines 2 (7 ∷ 8 ∷ []) two_free (omega arith) (omega arith) (omega arith)

-- One packet of 2 bytes of payload waits, and none is free.
abbrev waiting_array : List ℕ
waiting_array = (2 ∷ 0 ∷ 1 ∷ 0 ∷ 1 ∷ 0 ∷ 5 ∷ 0 ∷ 0 ∷ 0 ∷ 7 ∷ 8 ∷ []) ++ replicate 1998 0

waiting_size : length waiting_array ≡ 2010
waiting_size = omega (
  arith,
  length-append {0} {A = ℕ} (2 ∷ 0 ∷ 1 ∷ 0 ∷ 1 ∷ 0 ∷ 5 ∷ 0 ∷ 0 ∷ 0 ∷ 7 ∷ 8 ∷ []) (replicate 1998 0),
  length-replicate {A = ℕ} 1998 0,
)

abbrev one_linked : Linked
one_linked = record {
  ppool = none;
  tx_queue = some 10;
  stopped = true;
  heap = λ a. some (record { next = none; datalen = 12; data_array = waiting_array });
}

abbrev one_waits : Driver
one_waits = record (idle 0) { tx_queue = waiting_array ∷ []; stopped = true }

one_waits_linked : Represents one_linked one_waits
one_waits_linked = record {
  pool = [];
  queue = (10, waiting_array) ∷ [];
  free = nil;
  waiting = cons {k = 12} refl refl nil;
  apart = λ a h. absurd (ground (arith, h));
  whole = (
    tt,
    (
      omega (
        arith,
        length-append {0} {A = ℕ} (2 ∷ 0 ∷ 1 ∷ 0 ∷ 1 ∷ 0 ∷ 5 ∷ 0 ∷ 0 ∷ 0 ∷ 7 ∷ 8 ∷ [])
            (replicate 1998 0),
        length-replicate {A = ℕ} 1998 0,
      ),
      tt,
    ),
  );
  count = refl;
  content = refl;
  stopped = refl;
}

written : (d' : Driver) × (write_next checksum one_waits one_waits.tx_queue ≡ some d')
unfolding write_next write_packet_to_pru_memory encode_blocks
written = (_, refl)

next_packet_refines_example :
    (s' : Linked) × (next_packet one_linked ≡ some (some waiting_array, s'))
    × Represents s' written.0
next_packet_refines_example = next_packet_refines checksum one_waits_linked written.1

-- A second packet, at 20, was taken from the free ones.
abbrev two_packets : Linked
two_packets = record one_linked {
  heap = λ a.
      if a == 10
      then some (record { next = none; datalen = 12; data_array = waiting_array })
      else some zeros;
}

abbrev two_packets_linked : Represents two_packets one_waits
two_packets_linked = record {
  pool = [];
  queue = (10, waiting_array) ∷ [];
  free = nil;
  waiting = cons {k = 12} refl refl nil;
  apart = λ a h. absurd (ground (arith, h));
  whole = (tt, (waiting_size, tt));
  count = refl;
  content = refl;
  stopped = refl;
}
