-- ===== src/Gateway/Stall.antt =====
-- What follows when the driver refuses one RF frame: `tbf_transmit` has taken the packet from the
-- queue, but leaves `tbf_queue_length` as it was.
use ciot_vlc.Base.{
  ℕ, ◌+◌, ◌≤◌, ◌<◌, ◌≡◌, refl, ◌∙◌, Bool, false, some, List, [], ◌∷◌, length, arith, leb,
  Bool-cases, inl, inr, bind_some,
}
use ciot_vlc.Doubles.{Doubles}
use ciot_vlc.Packet.{Packet, Mac}
use ciot_vlc.Queue.Fifo
use ciot_vlc.Queue.Fifo.{Fifo}
use ciot_vlc.Gateway.State.{Gateway, tbf_limit}
use ciot_vlc.Gateway.Transmit.{transmit_rf, add_token, tbf_transmit}
use ciot_vlc.Gateway.Step.{
  Event, transmit_rf_round, add_token_round, tbf_transmit_round, transmit_vlc_round,
  generate_packet_round, schedule_packet_round, receive_report_round, receive_vlc_report_round,
  Interfaces, step, run,
}
use ciot_vlc.Link.Rf.{transmit_packet_rf-frame}
use ciot_vlc.Gateway.Frame.{Keeps, step-Keeps}

-- No packet waits for a token, and yet the counter says that one does.
pub record IsStalled {D : Type 0} (g : Gateway D) : Type 0 where
  pub nothing : g.tbf_queue.items ≡ []
  pub busy : tbf_limit ≤ g.tbf_queue_length

module _ {D : Type 0} where
  transmit_rf-stalled : {g : Gateway D} → IsStalled g → transmit_rf g ≡ some g
  unfolding transmit_rf
  transmit_rf-stalled v = ground arith

  tbf_transmit-stalled :
      (hwaddr : Mac) (ether_type : ℕ) (sent : Bool) {g : Gateway D}
      → IsStalled g
      → tbf_transmit hwaddr ether_type sent g ≡ some g
  unfolding tbf_transmit
  tbf_transmit-stalled hwaddr ether_type sent v = ground arith

  add_token-IsStalled :
      {g : Gateway D} → IsStalled g → IsStalled (add_token g) × ((add_token g).rf_sent ≡ g.rf_sent)
  unfolding add_token
  add_token-IsStalled {g} v = elim (Bool-cases (leb (g.n_token + 1) 6)) [
    | inl more ↦ rw more (record { nothing = v.nothing; busy = v.busy }, refl)
    | inr full ↦ rw full (v, refl)
  ]

  Keeps-IsStalled :
      {g g' : Gateway D} → IsStalled g → Keeps g g' → IsStalled g' × (g'.rf_sent ≡ g.rf_sent)
  Keeps-IsStalled v k =
      (record { nothing = rw k.queue v.nothing; busy = rw k.counter v.busy }, k.sent)

module _ (F : Doubles) (i : Interfaces) where
  open F use {D}

  -- No round ends the stall or sends a packet over RF.
  step-IsStalled :
      (x : Event) (g g' : Gateway D)
      → IsStalled g
      → step F i x g ≡ some g'
      → IsStalled g' × (g'.rf_sent ≡ g.rf_sent)
  unfolding step
  step-IsStalled transmit_rf_round g g' v e =
      let same : g' ≡ g = cc (transmit_rf-stalled v) in rw same (v, refl)
  step-IsStalled add_token_round g g' v e =
      let same : g' ≡ add_token g = cc in rw same (add_token-IsStalled v)
  step-IsStalled (tbf_transmit_round sent) g g' v e =
      let same : g' ≡ g = cc (tbf_transmit-stalled i.rf_if_mac i.ether_type sent v) in
      rw same (v, refl)
  step-IsStalled transmit_vlc_round g g' v e =
      Keeps-IsStalled v (step-Keeps F i transmit_vlc_round g g' tt e)
  step-IsStalled (generate_packet_round bytes) g g' v e =
      Keeps-IsStalled v (step-Keeps F i (generate_packet_round bytes) g g' tt e)
  step-IsStalled (schedule_packet_round now) g g' v e =
      Keeps-IsStalled v (step-Keeps F i (schedule_packet_round now) g g' tt e)
  step-IsStalled (receive_report_round numbytes buf) g g' v e =
      Keeps-IsStalled v (step-Keeps F i (receive_report_round numbytes buf) g g' tt e)
  step-IsStalled (receive_vlc_report_round buf) g g' v e =
      Keeps-IsStalled v (step-Keeps F i (receive_vlc_report_round buf) g g' tt e)

  run-IsStalled :
      (events : List Event) (g g' : Gateway D)
      → IsStalled g
      → run F i events g ≡ some g'
      → IsStalled g' × (g'.rf_sent ≡ g.rf_sent)
  unfolding run
  run-IsStalled [] g g' v e = let same : g' ≡ g = cc in rw same (v, refl)
  run-IsStalled (x ∷ events) g g' v e =
      let (h, a, b) = bind_some (step F i x g) (λ k. run F i events k) e in
      let (stalled, kept) = step-IsStalled x g h v a in
      let (still, same) = run-IsStalled events h g' stalled b in (still, same ∙ kept)

  -- The gateway after the driver has refused the packet that waited.
  abbrev pub refused : Gateway D → Gateway D
  refused g = record g { tbf_queue = record g.tbf_queue { items = [] } }

  -- A packet waits for a token with the counter at its limit, a token is there, and the packet's
  -- payload has the stated length and fits the buffer: when the driver refuses the frame, the
  -- round returns with the packet gone, and after any further rounds that do not fault nothing
  -- more was sent over RF, and no packet waits for a token.
  pub tbf_transmit-refused :
      (g : Gateway D) (p : Packet)
      → g.tbf_queue.items ≡ p ∷ []
      → tbf_limit ≤ g.tbf_queue_length
      → 0 < g.n_token
      → length p.payload ≡ p.payload_len
      → p.payload_len ≤ 1000
      → (events : List Event) (h : Gateway D) → run F i events (refused g) ≡ some h
      → (step F i (tbf_transmit_round false) g ≡ some (refused g))
        × (h.rf_sent ≡ g.rf_sent)
        × (h.tbf_queue.items ≡ [])
  unfolding step tbf_transmit Fifo.pop
  tbf_transmit-refused g p waits busy token bytes fits events h e =
      let (stalled, same) =
        run-IsStalled events (refused g) h (record { nothing = refl; busy = busy }) e in
      (
        ground (arith, waits, transmit_packet_rf-frame i.rf_if_mac i.ether_type p bytes fits),
        same,
        stalled.nothing,
      )
