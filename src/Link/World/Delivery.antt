-- ===== src/Link/World/Delivery.antt =====
-- A run on which the gateway sends all that waits, every frame sent comes to the node, and it reports.
use ciot_vlc.Base.{
  ℕ, zero, suc, ◌+◌, ◌*◌, ◌≤◌, ◌<◌, ◌≡◌, refl, sym, ap, ◌∙◌, true, List, [], ◌∷◌, ◌++◌, arith,
  length, length-append, append-nil,
}
use ciot_vlc.Doubles.{Doubles}
use ciot_vlc.Gateway.Send.{rf_mac}
use ciot_vlc.Gateway.State.{Gateway}
use ciot_vlc.Gateway.Step.{Interfaces}
use ciot_vlc.Gateway.Flow.{numbers, length-numbers, length-upto}
use ciot_vlc.Gateway.Flow.Run.{AreLossless, generated}
use ciot_vlc.Gateway.Flow.Drain.{cycles, drains, sent_all, weight-le}
use ciot_vlc.Node.Track.{mem}
use ciot_vlc.Link.Acks.{reported}
use ciot_vlc.Link.Node.{taken}
use ciot_vlc.Link.World.{World, initial_world, node_report, report_delivery, Runs}
use ciot_vlc.Link.World.Status.{Includes, Includes-of_mem}
use ciot_vlc.Link.World.Invariant.{IsWorld, initial-IsWorld}
use ciot_vlc.Link.World.Safety.{Runs-IsWorld}
use ciot_vlc.Link.World.Reported.{acknowledges_all, informed, report_steps}
use ciot_vlc.Link.World.Serving.{Runs-trans, goes_to, gateway_rounds, Brought, bring}

AreLossless-cycles : (k : ℕ) → AreLossless (cycles k)
AreLossless-cycles zero = tt
AreLossless-cycles (suc k) = (tt, (tt, (tt, (tt, AreLossless-cycles k))))

generated-cycles : (k : ℕ) → generated (cycles k) ≡ 0
generated-cycles zero = refl
generated-cycles (suc k) = generated-cycles k

module _ (F : Doubles) (i : Interfaces) (own : i.rf_if_mac ≡ rf_mac) where
  open F use {D}

  -- A report, and its delivery.
  report :
      (w : World D)
      → IsWorld i.ether_type w
      → 0 < w.node.status.rcv_seq
      → w.node.status.last_rcv_seq + 1 ≤ w.node.status.rcv_seq + 7984
      → (w' : World D) × Runs F i w w'
        × (w'.gateway ≡ reported F 0 w.node.status w.gateway)
        × (w'.node ≡ w.node)
  report w v first fits =
      let (frame, made, ran) = report_steps F i own 0 1 [] w v first fits (omega arith) in
      let w1 : World D = record w { reports = w.reports ++ frame ∷ [] } in
      let (r1, v1) = goes_to F i own (node_report 0) w w1 v (first, fits) made in
      let (r2, v2) =
        goes_to F i own (report_delivery (length w.reports) 1 []) w1 (informed F i own 0 frame w) v1
          (omega (arith, length-append {0} w.reports (frame ∷ [])), omega arith) ran in
      (informed F i own 0 frame w, Runs-trans F i own r1 r2, refl, refl)

  -- A world in which all is acknowledged, from `w`, with as many packets generated.
  record Acknowledged (n : ℕ) (w w' : World D) : Type 0 where
    pub runs : Runs F i w w'
    pub made : w'.gateway.arr_seq ≡ n
    pub acked : w'.gateway.unacked_seq ≡ n
    pub nothing : w'.node.receiver.process_queue.items ≡ []
    pub got : (j : ℕ) → j < n → mem j (numbers w'.node.processed) ≡ true

  -- Once all was brought to the node, it reports.
  acknowledge :
      (n : ℕ) (w w1 : World D)
      → Brought F i own n w w1
      → 0 < n
      → w.gateway.arr_seq ≡ n
      → (w' : World D) × Acknowledged n w w'
  acknowledge n w w1 b some_made made =
      let made1 : w1.gateway.arr_seq ≡ n = ap (λ (h : Gateway D). h.arr_seq) b.gateway ∙ made in
      let all : taken w1.node ≡ w1.node.processed = rw b.nothing (append-nil w1.node.processed) in
      let got : (j : ℕ) → j < n → mem j (numbers w1.node.processed) ≡ true =
        λ j h. rw all at (b.got j h) in
      let ack : w1.node.status.rcv_seq ≡ n =
        acknowledges_all F i own w1 b.valid (λ j h. got j (omega (arith, h, made1))) ∙ made1 in
      let (w2, r2, is_reported, same_node) =
        report w1 b.valid (omega (arith, ack, some_made))
          (omega (arith, ack, made1, b.valid.node.tracks.room)) in
      (
        w2,
        record {
          runs = Runs-trans F i own b.runs r2;
          made = ap (λ (h : Gateway D). h.arr_seq) is_reported ∙ made1;
          acked = ap (λ (h : Gateway D). h.unacked_seq) is_reported ∙ ack;
          nothing = rw same_node b.nothing;
          got = λ j h. rw same_node (got j h);
        },
      )

  -- The gateway sends what waits.
  send_all :
      (w : World D)
      → IsWorld i.ether_type w
      → (w' : World D) × Runs F i w w'
        × IsWorld i.ether_type w'
        × (length w'.gateway.rf_sent ≡ w.gateway.arr_seq)
        × (w'.gateway.arr_seq ≡ w.gateway.arr_seq)
  send_all w v =
      let n : ℕ = w.gateway.arr_seq in
      let (g, e, f, left) = drains F i (3 * n) w.gateway v.flow (weight-le F i v.flow) in
      let a = sent_all F i f left in
      let (r, v1) =
        gateway_rounds F i own (cycles (3 * n)) w g v (AreLossless-cycles (3 * n))
          (generated-cycles (3 * n)) e in
      let size : length g.rf_sent ≡ n =
        sym (length-numbers g.rf_sent) ∙ ap (λ (l : List ℕ). length l) a.numbered ∙ length-upto n in
      (record w { gateway = g }, r, v1, size, f.arr)

  -- From any world that allowed steps reach from the start, with something generated, one run in
  -- which the air brings every frame sent, and a report, to the other side: after it the node has
  -- processed all that was generated, and the gateway's window begins above the last of it.
  pub Runs-delivered :
      (zero_error : D) {w : World D}
      → Runs F i (initial_world zero_error) w
      → 0 < w.gateway.arr_seq
      → (w' : World D) × Runs F i w w'
        × (w'.gateway.arr_seq ≡ w.gateway.arr_seq)
        × (w'.gateway.unacked_seq ≡ w.gateway.arr_seq)
        × (w'.node.receiver.process_queue.items ≡ [])
        × Includes w.gateway.arr_seq (numbers w'.node.processed)
  Runs-delivered zero_error {w} runs some_made =
      let n : ℕ = w.gateway.arr_seq in
      let v = Runs-IsWorld F i own runs (initial-IsWorld i.ether_type zero_error) in
      let (w1, r1, v1, size, made) = send_all w v in
      let (w2, b) = bring F i own n w1 v1 (omega (arith, size)) in
      let (w3, a) = acknowledge n w1 w2 b some_made made in
      (
        w3,
        Runs-trans F i own r1 a.runs,
        a.made,
        a.acked,
        a.nothing,
        Includes-of_mem n (numbers w3.node.processed) a.got,
      )
