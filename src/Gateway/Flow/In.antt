-- ===== src/Gateway/Flow/In.antt =====
-- The packets in flight across `generate_packet` and `schedule_packet`.
use ciot_vlc.Base.{
  ℕ, suc, ◌+◌, ◌%◌, ◌≤◌, ◌<◌, ◌≡◌, refl, ap, some, List, [], ◌∷◌, ◌++◌, if◌then◌else◌, ◌==◌, length,
  arith, append_assoc, length-append, take_all,
}
use ciot_vlc.Packet.{Packet}
use ciot_vlc.Queue.Fifo
use ciot_vlc.Gateway.State.{Gateway, decrement, store, payload_size, rf_queue_size, max_seq_number}
use ciot_vlc.Gateway.Produce.{generate_packet, generate_random_node, schedule_packet, to_rf}
use ciot_vlc.Gateway.Schedule.{SchedulingResult, rf_mode}
use ciot_vlc.Gateway.Flow.{Flow, in_flight, upto, numbers-append, AreFull-append, total}

-- What `schedule` gives with one transmitter.
abbrev pub to_rf_mode : SchedulingResult
to_rf_mode = record { mode = rf_mode; vlc_tgt_set = 0 ∷ []; n_vlc_tgt = 1 }

module _ {D : Type 0} {n : ℕ} {g : Gateway D} (f : Flow n g) where
  pub lengths : length g.rf_queue.items + length g.node_queue.items ≤ n
  lengths =
      let a = total f in
      let b =
        length-append {0} g.rf_sent
          (g.tbf_queue.items ++ (g.rf_queue.items ++ g.node_queue.items)) in
      let c = length-append {0} g.tbf_queue.items (g.rf_queue.items ++ g.node_queue.items) in
      let d = length-append {0} g.rf_queue.items g.node_queue.items in omega (arith, a, b, c, d)

  pub generate_packet-Flow :
      (bytes : List ℕ)
      → length bytes ≡ payload_size
      → n < rf_queue_size
      → Flow (suc n) (generate_packet bytes g)
  unfolding generate_packet Fifo.push
  generate_packet-Flow bytes len few =
      let p : Packet = record (generate_random_node 1 bytes) { seq_number = g.arr_seq } in
      let g' : Gateway D = record g {
        arr_seq = suc n;
        node_queue = record g.node_queue { items = g.node_queue.items ++ p ∷ [] };
        gn = g.gn + 1;
      } in
      let small : g.gn ≤ n = omega (arith, lengths, f.gn) in
      let made : generate_packet bytes g ≡ g' =
        ground (arith, small, f.arr, f.gn, few, f.node_limit) in
      let more : in_flight g' ≡ in_flight g ++ p ∷ [] = simp append_assoc in
      let fl : Flow (suc n) g' = record {
        ordered =
            rw (more, numbers-append (in_flight g) p, f.ordered)
              (ap (λ (k : ℕ). upto n ++ k ∷ []) f.arr);
        full = rw more (
            AreFull-append (in_flight g) p f.full (record {
              node = refl;
              vlc = refl;
              len = refl;
              bytes = rw (take_all payload_size bytes len) len;
            }));
        gn = omega (arith, f.gn, length-append {0} g.node_queue.items (p ∷ []));
        r = f.r;
        tbf = f.tbf;
        tbf_small = f.tbf_small;
        node_limit = f.node_limit;
        rf_limit = f.rf_limit;
        tbf_limited = f.tbf_limited;
        vlc = f.vlc;
        arr = refl;
        unsched = f.unsched;
        tokens = f.tokens;
        few = few;
      } in
      rw made fl

  pub schedule_packet-Flow :
      (now : ℕ) → (g' : Gateway D) × (schedule_packet now to_rf_mode g ≡ some g') × Flow n g'
  unfolding schedule_packet to_rf decrement store Fifo.pop Fifo.push
  schedule_packet-Flow now = go g.node_queue.items refl
    where
      go :
          (l : List Packet)
          → g.node_queue.items ≡ l
          → (g' : Gateway D) × (schedule_packet now to_rf_mode g ≡ some g') × Flow n g'
      go [] e =
          let g' : Gateway D = record g { unsched_seq = (g.unsched_seq + 1) % max_seq_number } in
          (
            g',
            ground (arith, e),
            record {
              ordered = f.ordered;
              full = f.full;
              gn = f.gn;
              r = f.r;
              tbf = f.tbf;
              tbf_small = f.tbf_small;
              node_limit = f.node_limit;
              rf_limit = f.rf_limit;
              tbf_limited = f.tbf_limited;
              vlc = f.vlc;
              arr = f.arr;
              unsched = omega arith;
              tokens = f.tokens;
              few = f.few;
            },
          )
      go (p ∷ rest) e =
          let room = lengths in
          let g' : Gateway D = record g {
            node_queue = record g.node_queue { items = rest };
            unsched_seq = (g.unsched_seq + 1) % max_seq_number;
            gn = length rest;
            rf_queue = record g.rf_queue { items = g.rf_queue.items ++ p ∷ [] };
            pkt_state = λ j. if g.unsched_seq == j then 3 else g.pkt_state j;
            r = g.r + 1;
          } in
          let same : in_flight g' ≡ in_flight g = simp (e, append_assoc) in
          (
            g',
            ground (arith, e, f.gn, f.rf_limit, f.few, room, f.unsched),
            record {
              ordered = rw same f.ordered;
              full = rw same f.full;
              gn = refl;
              r = omega (arith, f.r, length-append {0} g.rf_queue.items (p ∷ []));
              tbf = f.tbf;
              tbf_small = f.tbf_small;
              node_limit = f.node_limit;
              rf_limit = f.rf_limit;
              tbf_limited = f.tbf_limited;
              vlc = f.vlc;
              arr = f.arr;
              unsched = omega arith;
              tokens = f.tokens;
              few = f.few;
            },
          )
