-- ===== src/Link/World/Serving.antt =====
-- Steps that bring everything sent to the node: the gateway's rounds, deliveries and rounds of
-- `process_data`.
use ciot_vlc.Base.{
  ℕ, zero, suc, ◌-◌, ◌≤◌, ◌<◌, ◌≡◌, refl, sym, ◌∙◌, true, some, List, [], ◌∷◌, ◌++◌, bind_some,
  arith, length, append_assoc, ltb, ltb→lt, Bool-cases, inl, inr,
}
use ciot_vlc.Doubles.{Doubles}
use ciot_vlc.Packet.{Packet}
use ciot_vlc.Queue.Fifo
use ciot_vlc.Gateway.State.{Gateway}
use ciot_vlc.Gateway.Send.{rf_mac}
use ciot_vlc.Gateway.Step.{
  Event, transmit_rf_round, add_token_round, tbf_transmit_round, transmit_vlc_round,
  generate_packet_round, schedule_packet_round, receive_report_round, receive_vlc_report_round,
  Interfaces, step, run,
}
use ciot_vlc.Gateway.Flow.{numbers}
use ciot_vlc.Gateway.Flow.Drain.{no_items}
use ciot_vlc.Gateway.Flow.Run.{AreLossless, generated}
use ciot_vlc.Node.Status.{max_seq_number, max_ack_bit_pattern}
use ciot_vlc.Node.Track.{mem}
use ciot_vlc.Node.Rounds.{step_node}
use ciot_vlc.Link.Node.{taken, process_next-IsNode}
use ciot_vlc.Link.System.{process_next_left}
use ciot_vlc.Link.World.{
  World, WorldEvent, gateway_round, rf_delivery, node_round, Allowed, step_world, Runs, stay, then,
}
use ciot_vlc.Link.World.Invariant.{number_bound, IsWorld, sent_at}
use ciot_vlc.Link.World.Steps.{step_world-IsWorld, taken_below, delivered, delivery_made}
use ciot_vlc.Link.World.Status.{mem-append_left}

mem-last :
    (k : ℕ) (l : List Packet) (q : Packet) → q.seq_number ≡ k → mem k (numbers (l ++ q ∷ [])) ≡ true
mem-last k [] q e = ground (arith, e)
mem-last k (p ∷ l) q e = ground (arith, mem-last k l q e)

no_generation :
    (x : Event) (events : List Event)
    → generated (x ∷ events) ≡ 0
    → (generated (x ∷ []) ≡ 0) × (generated events ≡ 0)
no_generation (generate_packet_round bytes) events e = absurd (omega (arith, e))
no_generation transmit_rf_round events e = (refl, e)
no_generation add_token_round events e = (refl, e)
no_generation (tbf_transmit_round sent) events e = (refl, e)
no_generation transmit_vlc_round events e = (refl, e)
no_generation (schedule_packet_round now) events e = (refl, e)
no_generation (receive_report_round numbytes buf) events e = (refl, e)
no_generation (receive_vlc_report_round buf) events e = (refl, e)

module _ (F : Doubles) (i : Interfaces) (own : i.rf_if_mac ≡ rf_mac) where
  open F use {D}

  pub Runs-trans : {w w1 w2 : World D} → Runs F i w w1 → Runs F i w1 w2 → Runs F i w w2
  Runs-trans a stay = a
  Runs-trans a (then x b allowed e) = then x (Runs-trans a b) allowed e

  -- The world after a step that is known.
  pub goes_to :
      (x : WorldEvent) (w w' : World D)
      → IsWorld i.ether_type w
      → Allowed x w
      → step_world F i x w ≡ some w'
      → Runs F i w w' × IsWorld i.ether_type w'
  goes_to x w w' v a e =
      let (w3, e3, v3) = step_world-IsWorld F i own x w v a in
      let both : some w3 ≡ some w' = sym e3 ∙ e in
      let same : w3 ≡ w' = ground arith in (then x stay a e, rw same at v3)

  -- Lossless rounds of the gateway that generate nothing.
  pub gateway_rounds :
      (events : List Event) (w : World D) (g : Gateway D)
      → IsWorld i.ether_type w
      → AreLossless events
      → generated events ≡ 0
      → run F i events w.gateway ≡ some g
      → Runs F i w (record w { gateway = g }) × IsWorld i.ether_type (record w { gateway = g })
  unfolding run step_world
  gateway_rounds [] w g v q none_made e =
      let same : w.gateway ≡ g = ground arith in (rw (sym same) stay, rw (sym same) v)
  gateway_rounds (x ∷ events) w g v q none_made e =
      let (g1, e1, rest) = bind_some (step F i x w.gateway) (run F i events) e in
      let both : (generated (x ∷ []) ≡ 0) × (generated events ≡ 0) =
        no_generation x events none_made in
      let (r1, v1) =
        goes_to (gateway_round x) w (record w { gateway = g1 }) v
          (q.0, omega (arith, both.0, v.few)) (rw e1 refl) in
      let (r2, v2) = gateway_rounds events (record w { gateway = g1 }) g v1 q.1 both.1 rest in
      (Runs-trans r1 r2, v2)

  -- What a round of `process_data` does to the world.
  record Served (w w' : World D) : Type 0 where
    pub runs : Runs F i w w'
    pub valid : IsWorld i.ether_type w'
    pub gateway : w'.gateway ≡ w.gateway
    pub kept : taken w'.node ≡ taken w.node
    pub fewer :
        length w'.node.receiver.process_queue.items ≡ length w.node.receiver.process_queue.items - 1

  process_step : (w : World D) → IsWorld i.ether_type w → (w' : World D) × Served w w'
  unfolding step_world step_node
  process_step w v =
      let (n, e, vn, t) =
        process_next-IsNode {max = max_seq_number} {bound = number_bound w} max_ack_bit_pattern
          (omega (arith, v.few)) (omega (arith, v.few)) (omega (arith, v.few)) w.node v.node
          (taken_below w v) in
      let w' : World D = record w { node = n } in
      let (r, v') = goes_to node_round w w' v tt (rw e refl) in
      (
        w',
        record {
          runs = r;
          valid = v';
          gateway = refl;
          kept = t;
          fewer = process_next_left max_ack_bit_pattern w.node n e;
        },
      )

  -- Rounds of `process_data` until nothing waits.
  pub record Emptied (w w' : World D) : Type 0 where
    pub runs : Runs F i w w'
    pub valid : IsWorld i.ether_type w'
    pub gateway : w'.gateway ≡ w.gateway
    pub kept : taken w'.node ≡ taken w.node
    pub nothing : w'.node.receiver.process_queue.items ≡ []

  pub process_waiting :
      (k : ℕ) (w : World D)
      → IsWorld i.ether_type w
      → length w.node.receiver.process_queue.items ≤ k
      → (w' : World D) × Emptied w w'
  process_waiting zero w v h = (
    w,
    record {
      runs = stay;
      valid = v;
      gateway = refl;
      kept = refl;
      nothing = no_items w.node.receiver.process_queue.items (omega (arith, h));
    },
  )
  process_waiting (suc k) w v h =
      let (w1, s) = process_step w v in
      let (w2, t) = process_waiting k w1 s.valid (omega (arith, s.fewer, h)) in
      (
        w2,
        record {
          runs = Runs-trans s.runs t.runs;
          valid = t.valid;
          gateway = t.gateway ∙ s.gateway;
          kept = t.kept ∙ s.kept;
          nothing = t.nothing;
        },
      )

  -- A frame that was sent comes to a node with no packet waiting, and is processed.
  record Delivered (k : ℕ) (w w' : World D) : Type 0 where
    pub runs : Runs F i w w'
    pub valid : IsWorld i.ether_type w'
    pub gateway : w'.gateway ≡ w.gateway
    pub got : mem k (numbers (taken w'.node)) ≡ true
    pub kept :
        (j : ℕ) → mem j (numbers (taken w.node)) ≡ true → mem j (numbers (taken w'.node)) ≡ true
    pub nothing : w'.node.receiver.process_queue.items ≡ []

  taken-delivered :
      (q : Packet) (w : World D)
      → IsWorld i.ether_type w
      → w.node.receiver.process_queue.items ≡ []
      → taken (delivered q w).node ≡ taken w.node ++ q ∷ []
  unfolding Fifo.push
  taken-delivered q w v empty = rw (v.node.limit, empty) (simp append_assoc)

  deliver :
      (k : ℕ) (w : World D)
      → IsWorld i.ether_type w
      → w.node.receiver.process_queue.items ≡ []
      → k < length w.gateway.rf_sent
      → (w' : World D) × Delivered k w w'
  deliver k w v empty h =
      let s = sent_at v.flow h in
      let q : Packet = record s.packet { vlc_id = 0 } in
      let w1 : World D = delivered q w in
      let (r, v1) = goes_to (rf_delivery k []) w w1 v h (delivery_made F i own k [] w v h) in
      let t = taken-delivered q w v empty in
      let (w2, p) =
        process_waiting (length w1.node.receiver.process_queue.items) w1 v1 (omega arith) in
      let all : taken w2.node ≡ taken w.node ++ q ∷ [] = p.kept ∙ t in
      (
        w2,
        record {
          runs = Runs-trans r p.runs;
          valid = p.valid;
          gateway = p.gateway;
          got = rw all (mem-last k (taken w.node) q s.number);
          kept = λ j a. rw all (mem-append_left j (taken w.node) (q ∷ []) a);
          nothing = p.nothing;
        },
      )

  -- The first `k` frames that were sent, one after the other.
  pub record Brought (k : ℕ) (w w' : World D) : Type 0 where
    pub runs : Runs F i w w'
    pub valid : IsWorld i.ether_type w'
    pub gateway : w'.gateway ≡ w.gateway
    pub got : (j : ℕ) → j < k → mem j (numbers (taken w'.node)) ≡ true
    pub nothing : w'.node.receiver.process_queue.items ≡ []

  pub bring :
      (k : ℕ) (w : World D)
      → IsWorld i.ether_type w
      → k ≤ length w.gateway.rf_sent
      → (w' : World D) × Brought k w w'
  bring zero w v h =
      let (w1, p) =
        process_waiting (length w.node.receiver.process_queue.items) w v (omega arith) in
      (
        w1,
        record {
          runs = p.runs;
          valid = p.valid;
          gateway = p.gateway;
          got = λ j a. elim a [ ];
          nothing = p.nothing;
        },
      )
  bring (suc k) w v h =
      let (w1, b) = bring k w v (omega arith) in
      let (w2, d) = deliver k w1 b.valid b.nothing (rw b.gateway (omega arith)) in
      (
        w2,
        record {
          runs = Runs-trans b.runs d.runs;
          valid = d.valid;
          gateway = d.gateway ∙ b.gateway;
          got = λ j a. elim (Bool-cases (ltb j k)) [
            | inl before ↦ d.kept j (b.got j (ltb→lt j k before))
            | inr last ↦ let same : j ≡ k = ground arith in rw same d.got
          ];
          nothing = d.nothing;
        },
      )
