-- ===== src/Examples/Queues.antt =====
-- Queues with a node or two, and a report written and read.
use ciot_vlc.Base.{ℕ, ◌≡◌, refl, none, some, List, [], ◌∷◌, ◌++◌, ◌==◌, if◌then◌else◌, arith}
use ciot_vlc.Queue.{cell, Heap, Queue}
use ciot_vlc.Queue.Chain.{IsQueue, nil, cons, has}
use ciot_vlc.Queue.Fifo.{Represents, PushRefines, push_refines, PopRefines, pop_refines}
use ciot_vlc.Queue.Destruct.{destruct_queue, destruct_queue_lem}
use ciot_vlc.Report.{
  StatusReport, pattern_bytes, convert_report_packet_to_string, generate_status_report_from_string,
}
use ciot_vlc.Report.RoundTrip.{IsReport, generate-convert}
use ciot_vlc.Examples.Data.{sample}

-- One node, at 5.
abbrev heap : Heap
heap b = if b == 5 then some (cell sample none) else none

abbrev empty : Queue
empty = record { head = none; tail = none; size = 0; limit = 2 }

abbrev single : Queue
single = record { head = some 5; tail = some 5; size = 1; limit = 2 }

empty-IsQueue : IsQueue heap empty []
empty-IsQueue = record { chain = nil; tail = refl; size = refl; bound = omega arith }

single-IsQueue : IsQueue heap single ((5, sample) ∷ [])
single-IsQueue = record {
  chain = cons refl refl nil;
  tail = refl;
  size = refl;
  bound = omega arith;
}

single-Represents : Represents heap single (record { items = sample ∷ []; limit = 2 })
single-Represents = record {
  nodes = (5, sample) ∷ [];
  holds = single-IsQueue;
  items = refl;
  limit = refl;
}

push_refines_example : PushRefines heap empty (record { items = []; limit = 2 }) 5 sample
push_refines_example =
    push_refines 5 sample none
      (record { nodes = []; holds = empty-IsQueue; items = refl; limit = refl }) refl refl

pop_refines_example : PopRefines heap single (record { items = sample ∷ []; limit = 2 })
pop_refines_example = pop_refines single-Represents

destruct_queue_lem_example :
    (g : Heap) × (destruct_queue 3 (some single) heap ≡ some g)
    × ((b : ℕ) → g b ≡ (if has b ((5, sample) ∷ []) then none else heap b))
destruct_queue_lem_example = destruct_queue_lem ((5, sample) ∷ []) 3 single-IsQueue (omega arith)

-- A report on ten packets, in two bytes.
abbrev report : StatusReport
report = record {
  node_id = 1;
  ack_number = 300;
  pattern_length = 10;
  ack_bit_pattern = 0 ∷ 1 ∷ 1 ∷ 0 ∷ 0 ∷ 0 ∷ 1 ∷ 1 ∷ 0 ∷ 1 ∷ [];
  n_vlc = 1;
  vlc_data = record { vlc_tx_id = 1; vlc_link_quality = 200 } ∷ [];
}

report-IsReport : IsReport report
report-IsReport = record {
  node = omega arith;
  ack = omega arith;
  small = omega arith;
  pattern = refl;
  bits = omega arith;
  number = omega arith;
  entries = refl;
  vlc = omega arith;
}

generate-convert_example :
    (bytes : List ℕ) × (convert_report_packet_to_string report 1 ≡ some bytes)
    × (generate_status_report_from_string (bytes ++ 9 ∷ []) ≡ some report)
unfolding pattern_bytes
generate-convert_example = generate-convert report (9 ∷ []) report-IsReport (omega arith)
