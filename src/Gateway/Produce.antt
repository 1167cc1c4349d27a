-- ===== src/Gateway/Produce.antt =====
-- One round of `generate_packet`, `schedule_packet` and `check_unacked` of
-- `gateway (eth)_gateway/main.c`. `malloc` is taken to give memory.
use ciot_vlc.Base.{
  ℕ, zero, suc, ◌+◌, ◌-◌, ◌%◌, ◌^◌, Bool, ◌&&◌, Option, none, some, List, [], ◌∷◌, ◌++◌, ◌>>=◌,
  ◌==◌, ltb, leb, if◌then◌else◌, length, get_elem?, set, take,
}
use ciot_vlc.Packet.{Packet}
use ciot_vlc.Queue.Fifo
use ciot_vlc.Queue.Fifo.{Fifo}
use ciot_vlc.Gateway.State.{
  Gateway, node_queue_size, max_seq_number, max_unacked_vlc_packet, payload_size,
  timeout_nanosecond, vlc_unacked, rf, decrement, store,
}
use ciot_vlc.Gateway.Schedule.{SchedulingResult, idle_mode, rf_mode}

-- `generate_random_node`: `bytes` are the low bytes of what `rand` gives.
unfoldable pub generate_random_node : ℕ → List ℕ → Packet
generate_random_node node_id bytes = record {
  node_id = node_id;
  vlc_id = 1;
  payload_len = payload_size;
  seq_number = 0;
  payload = take payload_size bytes;
}

-- `a[l] = a[n - 1]; n--;`, the removal of entry `l`.
unfoldable pub swap_remove : List Packet → ℕ → Option (List Packet)
swap_remove a l = do last ← get_elem? a (length a - 1); some (take (length a - 1) (set a l last))

-- `node_id - 1 == 0 && seq_number == j`.
unfoldable pub is_packet : ℕ → Packet → Bool
is_packet j p = (p.node_id == 1) && (p.seq_number == j)

-- The index of the first entry that the loop over the array takes.
unfoldable pub find_unacked : ℕ → List Packet → Option ℕ
unfolding is_packet
find_unacked j [] = none
find_unacked j (p ∷ a) =
    let later = find_unacked j a in if is_packet j p then some 0 else later >>= λ l. some (suc l)

module _ {D : Type 0} where
  -- `n_generated_packets` is 1. The queue's answer is not looked at.
  unfoldable pub generate_packet : List ℕ → Gateway D → Gateway D
  unfolding generate_random_node
  generate_packet bytes g =
      let pN : Packet = record (generate_random_node 1 bytes) { seq_number = g.arr_seq } in
      if ltb (g.gn + 1) node_queue_size
      then record g {
        arr_seq = (g.arr_seq + 1) % max_seq_number;
        node_queue = (Fifo.push g.node_queue pN).1;
        gn = g.gn + 1;
      }
      else g

  unfoldable pub to_rf : ℕ → Packet → Gateway D → Option (Gateway D)
  to_rf unsched_pkt_idx temp g = do
    gn ← decrement g.gn
    pkt_state ← store g.pkt_state unsched_pkt_idx rf
    some (record g {
      gn = gn;
      rf_queue = (Fifo.push g.rf_queue temp).1;
      pkt_state = pkt_state;
      r = g.r + 1;
    })

  -- With one target, transmitter 0. More targets push one node several times (`Queue.Alias`),
  -- and are outside this model, as is a transmitter other than 0.
  unfoldable pub to_vlc : ℕ → ℕ → Packet → List ℕ → Gateway D → Option (Gateway D)
  to_vlc now unsched_pkt_idx temp (zero ∷ []) g = do
    gn ← decrement g.gn
    let vlc_temp : Packet = record temp { vlc_id = 0 }
    pkt_state ← store g.pkt_state unsched_pkt_idx vlc_unacked
    expire_time ← store g.expire_time unsched_pkt_idx (now + timeout_nanosecond)
    let n_unacked_vlc_packet = length g.unacked_vlc_packet
    some (record g {
      gn = gn;
      vlc_queue = (Fifo.push g.vlc_queue vlc_temp).1;
      d_vlc = g.d_vlc + 1;
      pkt_state = pkt_state;
      expire_time = expire_time;
      unacked_vlc_packet =
          if ltb (n_unacked_vlc_packet + 1) max_unacked_vlc_packet
          then g.unacked_vlc_packet ++ vlc_temp ∷ []
          else g.unacked_vlc_packet;
    })
  to_vlc now unsched_pkt_idx temp _ g = none

  -- The round with what `pop` gave and left. `unsched_seq` moves on even where it gave nothing.
  unfoldable pub schedule_popped :
      ℕ → SchedulingResult → Gateway D → Option Packet → Fifo → Option (Gateway D)
  schedule_popped now sched_result g none rest =
      some (record g { node_queue = rest; unsched_seq = (g.unsched_seq + 1) % max_seq_number })
  schedule_popped now sched_result g (some temp) rest =
      let g' : Gateway D = record g {
        node_queue = rest;
        unsched_seq = (g.unsched_seq + 1) % max_seq_number;
      } in
      if sched_result.mode == rf_mode
      then to_rf g.unsched_seq temp g'
      else to_vlc now g.unsched_seq temp sched_result.vlc_tgt_set g'

  -- The round after `schedule` has given its result.
  unfoldable pub schedule_packet : ℕ → SchedulingResult → Gateway D → Option (Gateway D)
  unfolding schedule_popped
  schedule_packet now sched_result g =
      if sched_result.mode == idle_mode
      then some g
      else (let (temp, rest) = Fifo.pop g.node_queue in
          schedule_popped now sched_result g temp rest)

  -- The body of the loop for number `j`; from `MAX_SEQ_NUMBER` on it reads past `expire_time`.
  unfoldable pub check_one : ℕ → ℕ → Gateway D → Option (Gateway D)
  unfolding find_unacked swap_remove
  check_one now j g =
      if leb max_seq_number j
      then none
      else if (g.pkt_state j == vlc_unacked) && leb (g.expire_time j) now
      then elim (find_unacked j g.unacked_vlc_packet) [
        | none ↦ some g
        | some l ↦ do
          resend ← get_elem? g.unacked_vlc_packet l
          pkt_state ← store g.pkt_state j rf
          unacked ← swap_remove g.unacked_vlc_packet l
          some (record g {
            rf_queue = (Fifo.push g.rf_queue resend).1;
            pkt_state = pkt_state;
            r = g.r + 1;
            unacked_vlc_packet = unacked;
          })
      ]
      else some g

  -- `for (j = from; j < from + n; j++)`.
  unfoldable pub check_from : ℕ → ℕ → ℕ → Gateway D → Option (Gateway D)
  unfolding check_one
  check_from zero from now g = some g
  check_from (suc n) from now g = do g' ← check_one now from g; check_from n (suc from) now g'

  -- The bound of the loop is read again in each round; no step of the loop changes it. Where
  -- `unacked_seq` is negative, a pattern from 2 ^ 31 on, the loop begins below the bound and reads in
  -- front of `expire_time`.
  unfoldable pub check_unacked : ℕ → Gateway D → Option (Gateway D)
  unfolding check_from
  check_unacked now g =
      if leb (2 ^ 31) g.unacked_seq
      then none
      else check_from (g.unsched_seq - g.unacked_seq) g.unacked_seq now g
