-- ===== src/Link/World/Steps.antt =====
-- Each allowed step: it does not fault, and keeps what holds in every world.
use ciot_vlc.Base.{
  ℕ, ◌+◌, ◌≤◌, ◌<◌, ◌≡◌, refl, sym, ◌∙◌, some, List, [], ◌∷◌, ◌++◌, length, append_assoc, arith,
  leb, Bool-cases, inl, inr,
}
use ciot_vlc.Doubles.{Doubles}
use ciot_vlc.Packet.{Packet, IsPacket}
use ciot_vlc.Queue.Fifo
use ciot_vlc.Gateway.State.{Gateway}
use ciot_vlc.Gateway.Send.{rf_mac}
use ciot_vlc.Gateway.Step.{Event, Interfaces}
use ciot_vlc.Gateway.Flow.{Flow, numbers}
use ciot_vlc.Gateway.Flow.Run.{generated}
use ciot_vlc.Gateway.Flow.Kept.{step-Flow}
use ciot_vlc.Node.Status.{NodeStatus, max_seq_number, max_ack_bit_pattern}
use ciot_vlc.Node.Track.{AreBelow}
use ciot_vlc.Node.Receive.{add32}
use ciot_vlc.Node.Rounds.{step_node}
use ciot_vlc.Link.Rf.{transmit_packet_rf-frame}
use ciot_vlc.Link.Receive.{receive_rf-transmit_packet_rf}
use ciot_vlc.Link.Acks.{reported, receive_report-send_report}
use ciot_vlc.Link.Node.{taken, process_next-IsNode}
use ciot_vlc.Link.System.{IsFull-IsPacket}
use ciot_vlc.Link.World.{
  World, WorldEvent, gateway_round, rf_delivery, node_round, node_report, report_delivery, Allowed,
  step_world,
}
use ciot_vlc.Link.World.Status.{
  Tracks-IsStatus, Tracks-grows, mem-append_left, process_next-processed,
}
use ciot_vlc.Link.World.Invariant.{
  AreSent-more, AreSent-append, AreReportFrames-grow, AreReportFrames-append, AreReportFrames-at,
  number_bound, IsWorld, sent_at, AreSent-AreBelow, AreBelow-weaken, IsNode-weaken,
}

-- A report does not touch the flow.
reported-Flow :
    (F : Doubles) (quality : ℕ) (s : NodeStatus) (n : ℕ) (g : Gateway F.D)
    → Flow n g
    → Flow n (reported F quality s g)
reported-Flow F quality s n g f = record {
  ordered = f.ordered;
  full = f.full;
  gn = f.gn;
  r = f.r;
  tbf = f.tbf;
  tbf_small = f.tbf_small;
  node_limit = f.node_limit;
  rf_limit = f.rf_limit;
  tbf_limited = f.tbf_limited;
  vlc = f.vlc;
  arr = f.arr;
  unsched = f.unsched;
  tokens = f.tokens;
  few = f.few;
}

-- The world after the packet came to the node over RF.
abbrev pub delivered : {D : Type 0} → Packet → World D → World D
delivered q w = record w {
  node = record w.node {
    receiver = record w.node.receiver {
      process_queue = (Fifo.push w.node.receiver.process_queue q).1;
      from_rf = add32 w.node.receiver.from_rf 1;
    };
  };
}

-- What the node took was sent, so its numbers are in bounds.
pub taken_below :
    {D : Type 0} {ether_type : ℕ} (w : World D)
    → IsWorld ether_type w
    → AreBelow (number_bound w) (numbers (taken w.node))
taken_below w v =
    AreBelow-weaken (w.gateway.arr_seq + 1) (number_bound w) (numbers (taken w.node)) (omega arith)
      (AreSent-AreBelow (taken w.node) v.flow v.sent)

module _ (F : Doubles) (i : Interfaces) (own : i.rf_if_mac ≡ rf_mac) where
  open F use {D}

  -- The step is made, to a world of the same kind.
  abbrev pub Goes : WorldEvent → World D → Type 0
  Goes x w = (w' : World D) × (step_world F i x w ≡ some w') × IsWorld i.ether_type w'

  gateway-Goes :
      (event : Event) (w : World D)
      → IsWorld i.ether_type w
      → Allowed (gateway_round event) w
      → Goes (gateway_round event) w
  unfolding step_world
  gateway-Goes event w v (q, h) =
      let n : ℕ = w.gateway.arr_seq in
      let (g, e, f, kept) = step-Flow F i event w.gateway q (omega (arith, h)) v.flow in
      let arr : g.arr_seq ≡ n + generated (event ∷ []) = f.arr in
      (
        record w { gateway = g },
        rw e refl,
        record {
          flow = rw arr f;
          few = rw arr h;
          node =
              rw arr (
                IsNode-weaken (n + 2) (n + generated (event ∷ []) + 2) w.node (omega arith) v.node);
          sent = rw kept.more (AreSent-more w.gateway.rf_sent kept.sent (taken w.node) v.sent);
          reports = v.reports;
          acked = rw kept.unacked v.acked;
        },
      )

  process-Goes : (w : World D) → IsWorld i.ether_type w → Goes node_round w
  unfolding step_world step_node
  process-Goes w v =
      let (n, e, vn, t) =
        process_next-IsNode {max = max_seq_number} {bound = number_bound w} max_ack_bit_pattern
          (omega (arith, v.few)) (omega (arith, v.few)) (omega (arith, v.few)) w.node v.node
          (taken_below w v) in
      let (more, kept) = process_next-processed max_ack_bit_pattern w.node n e in
      let grows : w.node.status.rcv_seq ≤ n.status.rcv_seq =
        Tracks-grows v.node.tracks vn.tracks
          (λ j a. rw kept (mem-append_left j w.node.processed more a)) in
      (
        record w { node = n },
        rw e refl,
        record {
          flow = v.flow;
          few = v.few;
          node = vn;
          sent = rw t v.sent;
          reports =
              AreReportFrames-grow i.ether_type w.node.status.rcv_seq n.status.rcv_seq w.reports
                grows v.reports;
          acked = omega (arith, v.acked);
        },
      )

  -- What a delivery comes to.
  pub delivery_made :
      (index : ℕ) (stale : List ℕ) (w : World D) (v : IsWorld i.ether_type w)
      → (h : index < length w.gateway.rf_sent)
      → step_world F i (rf_delivery index stale) w
        ≡ some (delivered (record (sent_at v.flow h).packet { vlc_id = 0 }) w)
  unfolding step_world step_node
  delivery_made index stale w v h =
      let s = sent_at v.flow h in
      let p : Packet = s.packet in
      let a : IsPacket p = IsFull-IsPacket p s.full (omega (arith, s.number, s.before, v.few)) in
      let frame =
        transmit_packet_rf-frame rf_mac i.ether_type p (s.full.bytes ∙ sym s.full.len)
          (omega (arith, s.full.len)) in
      let run = receive_rf-transmit_packet_rf i.ether_type p stale w.node.receiver a frame in
      rw (s.there, own, frame, run) refl

  delivery-Goes :
      (index : ℕ) (stale : List ℕ) (w : World D)
      → IsWorld i.ether_type w
      → Allowed (rf_delivery index stale) w
      → Goes (rf_delivery index stale) w
  unfolding Fifo.push
  delivery-Goes index stale w v h =
      let s = sent_at v.flow h in
      let q : Packet = record s.packet { vlc_id = 0 } in
      let queue = w.node.receiver.process_queue in
      (
        delivered q w,
        delivery_made index stale w v h,
        elim (Bool-cases (leb queue.limit (length queue.items))) [
          | inl full ↦ rw full (record {
            flow = v.flow;
            few = v.few;
            node = record { tracks = v.node.tracks; limit = v.node.limit };
            sent = v.sent;
            reports = v.reports;
            acked = v.acked;
          })
          | inr room ↦ rw room (record {
            flow = v.flow;
            few = v.few;
            node = record { tracks = v.node.tracks; limit = v.node.limit };
            sent = rw (sym (append_assoc w.node.processed queue.items (q ∷ []))) (
                AreSent-append w.gateway.rf_sent (taken w.node) q v.sent
                  (record { index = index; packet = s.packet; there = s.there; same = refl }));
            reports = v.reports;
            acked = v.acked;
          })
        ],
      )

  report-Goes :
      (quality : ℕ) (w : World D)
      → IsWorld i.ether_type w
      → Allowed (node_report quality) w
      → Goes (node_report quality) w
  unfolding step_world
  report-Goes quality w v (first, fits) =
      let valid = Tracks-IsStatus (omega (arith, v.few)) v.node.tracks in
      let (frame, made, ran) =
        receive_report-send_report F i.ether_type quality 1 w.node.status [] w.gateway (omega arith)
          valid fits first (omega arith) in
      (
        record w { reports = w.reports ++ frame ∷ [] },
        rw made refl,
        record {
          flow = v.flow;
          few = v.few;
          node = v.node;
          sent = v.sent;
          reports =
              AreReportFrames-append i.ether_type w.node.status.rcv_seq w.reports frame v.reports
                (record {
                  quality = quality;
                  status = w.node.status;
                  valid = valid;
                  fits = fits;
                  first = first;
                  acked = omega arith;
                  made = made;
                });
          acked = v.acked;
        },
      )

  report_delivery-Goes :
      (index numbytes : ℕ) (stale : List ℕ) (w : World D)
      → IsWorld i.ether_type w
      → Allowed (report_delivery index numbytes stale) w
      → Goes (report_delivery index numbytes stale) w
  unfolding step_world
  report_delivery-Goes index numbytes stale w v (h, some_bytes) =
      let (frame, there, r) =
        AreReportFrames-at i.ether_type w.node.status.rcv_seq index w.reports h v.reports in
      let (made_frame, made, ran) =
        receive_report-send_report F i.ether_type r.quality numbytes r.status stale w.gateway
          (omega arith) r.valid r.fits r.first some_bytes in
      let same : some made_frame ≡ some frame = sym made ∙ r.made in
      let is_frame : made_frame ≡ frame = ground arith in
      (
        record w { gateway = reported F r.quality r.status w.gateway },
        rw (there, rw is_frame at ran) refl,
        record {
          flow = reported-Flow F r.quality r.status w.gateway.arr_seq w.gateway v.flow;
          few = v.few;
          node = v.node;
          sent = v.sent;
          reports = v.reports;
          acked = r.acked;
        },
      )

  -- An allowed step is made, and keeps what holds in every world.
  pub step_world-IsWorld :
      (x : WorldEvent) (w : World D) → IsWorld i.ether_type w → Allowed x w → Goes x w
  step_world-IsWorld (gateway_round event) w v a = gateway-Goes event w v a
  step_world-IsWorld (rf_delivery index stale) w v a = delivery-Goes index stale w v a
  step_world-IsWorld node_round w v a = process-Goes w v
  step_world-IsWorld (node_report quality) w v a = report-Goes quality w v a
  step_world-IsWorld (report_delivery index numbytes stale) w v a =
      report_delivery-Goes index numbytes stale w v a
