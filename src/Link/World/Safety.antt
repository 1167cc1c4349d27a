-- ===== src/Link/World/Safety.antt =====
-- What the gateway and the node may rely on, whatever the air between them does.
use ciot_vlc.Base.{ℕ, zero, suc, ◌+◌, ◌≤◌, ◌≡◌, refl, some, List, [], ◌∷◌, ◌++◌, arith}
use ciot_vlc.Doubles.{Doubles}
use ciot_vlc.Packet.{Packet}
use ciot_vlc.Gateway.Send.{rf_mac}
use ciot_vlc.Gateway.Step.{Interfaces}
use ciot_vlc.Gateway.Flow.{numbers}
use ciot_vlc.Link.Node.{taken}
use ciot_vlc.Link.World.{World, WorldEvent, initial_world, Allowed, step_world, Runs, stay, then}
use ciot_vlc.Link.World.Status.{mem-append_left, AreBelow-mem, Includes, Includes-of_mem}
use ciot_vlc.Link.World.Invariant.{AreSent, IsWorld, initial-IsWorld, AreSent-AreBelow}
use ciot_vlc.Link.World.Steps.{step_world-IsWorld}

AreSent-left : (sent l m : List Packet) → AreSent sent (l ++ m) → AreSent sent l
AreSent-left sent [] m v = tt
AreSent-left sent (q ∷ l) m v = (v.0, AreSent-left sent l m v.1)

-- An ACK number above what was generated would be one of a packet that was never sent.
pub ack_bound :
    {D : Type 0} {ether_type : ℕ} (w : World D)
    → IsWorld ether_type w
    → w.node.status.rcv_seq ≤ w.gateway.arr_seq
ack_bound w v = go w.node.status.rcv_seq refl
  where
    go : (k : ℕ) → w.node.status.rcv_seq ≡ k → w.node.status.rcv_seq ≤ w.gateway.arr_seq
    go zero e = omega (arith, e)
    go (suc k) e =
        let got = v.node.tracks.below k (omega (arith, e)) in
        let all = mem-append_left k w.node.processed w.node.receiver.process_queue.items got in
        let b = AreSent-AreBelow (taken w.node) v.flow v.sent in
        let h = AreBelow-mem (w.gateway.arr_seq + 1) k (numbers (taken w.node)) b all in
        omega (arith, e, h)

module _ (F : Doubles) (i : Interfaces) (own : i.rf_if_mac ≡ rf_mac) where
  open F use {D}

  pub Runs-IsWorld :
      {w w' : World D} → Runs F i w w' → IsWorld i.ether_type w → IsWorld i.ether_type w'
  Runs-IsWorld stay v = v
  Runs-IsWorld (then {w1} {w2} x runs a e) v =
      let v1 = Runs-IsWorld runs v in
      let (w3, e3, v3) = step_world-IsWorld F i own x w1 v1 a in
      let same : some w3 ≡ some w2 = cc in
      let is_world : w3 ≡ w2 = ground arith in rw is_world at v3

  -- From the start, with the address that the node expects, after any allowed steps: rounds of the
  -- gateway's producing and transmitting threads in which the driver takes every RF frame and `rand`
  -- gives a whole payload, with fewer than 100000 packets generated in all; RF frames that come to the
  -- node late, in another order, more than once or never; rounds of `process_data`; reports of a node
  -- that has packet 0 and whose window is at most 7984; and reports that come to the gateway in the
  -- same ways. Then every packet that the gateway holds to be acknowledged (a number below
  -- `unacked_seq`) was processed by the node, the gateway's window does not begin above the node's ACK
  -- number, which is not above the number of packets generated, and every packet that the node
  -- processed is one that the gateway sent, with its fields and payload (VLC id 0).
  pub Runs-acknowledged :
      (zero_error : D) {w : World D}
      → Runs F i (initial_world zero_error) w
      → Includes w.gateway.unacked_seq (numbers w.node.processed)
        × (w.gateway.unacked_seq ≤ w.node.status.rcv_seq)
        × (w.node.status.rcv_seq ≤ w.gateway.arr_seq)
        × AreSent w.gateway.rf_sent w.node.processed
  Runs-acknowledged zero_error {w} runs =
      let v = Runs-IsWorld runs (initial-IsWorld i.ether_type zero_error) in
      (
        Includes-of_mem w.gateway.unacked_seq (numbers w.node.processed)
            (λ j h. v.node.tracks.below j (omega (arith, v.acked, h))),
        v.acked,
        ack_bound w v,
        AreSent-left w.gateway.rf_sent w.node.processed w.node.receiver.process_queue.items v.sent,
      )

  -- From the start, with the address that the node expects, after any allowed steps (as for
  -- `Runs-acknowledged`): whichever allowed step comes next does not fault.
  pub Runs-progress :
      (zero_error : D) {w : World D} (x : WorldEvent)
      → Runs F i (initial_world zero_error) w
      → Allowed x w
      → (w' : World D) × (step_world F i x w ≡ some w')
  Runs-progress zero_error {w} x runs a =
      let (w', e, v) =
        step_world-IsWorld F i own x w (Runs-IsWorld runs (initial-IsWorld i.ether_type zero_error))
          a in
      (w', e)
