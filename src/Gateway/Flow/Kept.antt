-- ===== src/Gateway/Flow/Kept.antt =====
-- What a lossless round of the gateway leaves as it was: the window's start, and the packets sent.
use ciot_vlc.Base.{
  ℕ, ◌+◌, ◌≡◌, ◌≤◌, refl, sym, ◌∙◌, Bool, true, false, some, List, [], ◌∷◌, ◌++◌, ◌>>=◌, arith,
  append-nil, bind_some, ltb, Bool-cases, inl, inr,
}
use ciot_vlc.Doubles.{Doubles}
use ciot_vlc.Packet.{Packet, Mac}
use ciot_vlc.Queue.Fifo
use ciot_vlc.Queue.Fifo.{Fifo}
use ciot_vlc.Gateway.State.{Gateway, decrement, store, rf_queue_size}
use ciot_vlc.Gateway.Schedule.{schedule-one}
use ciot_vlc.Gateway.Transmit.{transmit_rf, add_token, tbf_transmit, send_tbf, to_tbf}
use ciot_vlc.Gateway.Send.{transmit_packet_rf}
use ciot_vlc.Gateway.Produce.{generate_packet, schedule_packet, to_rf}
use ciot_vlc.Gateway.Step.{
  Event, transmit_rf_round, add_token_round, tbf_transmit_round, transmit_vlc_round,
  generate_packet_round, schedule_packet_round, receive_report_round, receive_vlc_report_round,
  Interfaces, step, run,
}
use ciot_vlc.Gateway.Flow.{Flow}
use ciot_vlc.Gateway.Flow.In.{to_rf_mode}
use ciot_vlc.Gateway.Flow.Out.{transmit_vlc-Flow}
use ciot_vlc.Gateway.Flow.Run.{IsLossless, generated, runs}

-- The window's start is the same, and packets sent were sent after those before.
pub record Kept {D : Type 0} (g g' : Gateway D) : Type 0 where
  pub unacked : g'.unacked_seq ≡ g.unacked_seq
  pub sent : List Packet
  pub more : g'.rf_sent ≡ g.rf_sent ++ sent

module _ {D : Type 0} where
  Kept-none :
      {g g' : Gateway D} → g'.unacked_seq ≡ g.unacked_seq → g'.rf_sent ≡ g.rf_sent → Kept g g'
  Kept-none {g} u s = record { unacked = u; sent = []; more = s ∙ sym (append-nil g.rf_sent) }

  add_token-Kept : (g : Gateway D) → Kept g (add_token g)
  unfolding add_token
  add_token-Kept g = Kept-none (ground arith) (ground arith)

  generate_packet-Kept : (bytes : List ℕ) (g : Gateway D) → Kept g (generate_packet bytes g)
  unfolding generate_packet
  generate_packet-Kept bytes g = Kept-none (ground arith) (ground arith)

  transmit_rf-Kept : (g g' : Gateway D) → transmit_rf g ≡ some g' → Kept g g'
  unfolding transmit_rf to_tbf decrement Fifo.pop
  transmit_rf-Kept g g' e = Kept-none (ground arith) (ground arith)

  schedule_packet-Kept :
      (now : ℕ) (g g' : Gateway D) → schedule_packet now to_rf_mode g ≡ some g' → Kept g g'
  unfolding schedule_packet to_rf decrement store Fifo.pop
  schedule_packet-Kept now g g' e = Kept-none (ground arith) (ground arith)

  send_tbf-Kept :
      (sent : Bool) (p : Packet) (h g' : Gateway D) → send_tbf sent p h ≡ some g' → Kept h g'
  unfolding send_tbf decrement
  send_tbf-Kept false p h g' e = Kept-none (ground arith) (ground arith)
  send_tbf-Kept true p h g' e = record {
    unacked = ground arith;
    sent = p ∷ [];
    more = ground arith;
  }

  tbf_transmit-Kept :
      (hwaddr : Mac) (ether_type : ℕ) (sent : Bool) (g g' : Gateway D)
      → tbf_transmit hwaddr ether_type sent g ≡ some g'
      → Kept g g'
  unfolding tbf_transmit Fifo.pop
  tbf_transmit-Kept hwaddr ether_type sent g g' e = go g.tbf_queue.items refl
    where
      go : (l : List Packet) → g.tbf_queue.items ≡ l → Kept g g'
      go [] empty = let same : g' ≡ g = ground arith in rw same (Kept-none refl refl)
      go (p ∷ rest) full = elim (Bool-cases (ltb 0 g.n_token)) [
        | inr broke ↦ let same : g' ≡ g = ground arith in rw same (Kept-none refl refl)
        | inl rich ↦
            let h : Gateway D = record g { tbf_queue = record g.tbf_queue { items = rest } } in
            let ran : (transmit_packet_rf hwaddr ether_type p >>= λ k. send_tbf sent p h)
                ≡ some g' =
              ground (arith, full, rich) in
            let (frame, a, b) =
              bind_some (transmit_packet_rf hwaddr ether_type p) (λ k. send_tbf sent p h) ran in
            let kept = send_tbf-Kept sent p h g' b in
            record { unacked = kept.unacked; sent = kept.sent; more = kept.more }
      ]

module _ (F : Doubles) (i : Interfaces) where
  open F use {D}

  step-Kept :
      {n : ℕ} (x : Event) (g g' : Gateway D)
      → IsLossless x
      → Flow n g
      → step F i x g ≡ some g'
      → Kept g g'
  unfolding step
  step-Kept transmit_rf_round g g' q f e = transmit_rf-Kept g g' e
  step-Kept add_token_round g g' q f e =
      let same : g' ≡ add_token g = ground arith in rw same (add_token-Kept g)
  step-Kept (tbf_transmit_round sent) g g' q f e =
      tbf_transmit-Kept i.rf_if_mac i.ether_type sent g g' e
  step-Kept transmit_vlc_round g g' q f e =
      let same : g' ≡ g = ground (arith, transmit_vlc-Flow f i.eth_if_mac i.ether_type) in
      rw same (Kept-none refl refl)
  step-Kept (generate_packet_round bytes) g g' q f e =
      let same : g' ≡ generate_packet bytes g = ground arith in
      rw same (generate_packet-Kept bytes g)
  step-Kept (schedule_packet_round now) g g' q f e =
      schedule_packet-Kept now g g' (rw (schedule-one F 2 g.gn g.r g.vk g.e (omega arith)) at e)
  step-Kept (receive_report_round numbytes buf) g g' q f e = absurd q
  step-Kept (receive_vlc_report_round buf) g g' q f e = absurd q

  -- One lossless round: it does not fault, and the flow goes on.
  pub step-Flow :
      {n : ℕ} (x : Event) (g : Gateway D)
      → IsLossless x
      → n + generated (x ∷ []) ≤ rf_queue_size
      → Flow n g
      → (g' : Gateway D) × (step F i x g ≡ some g') × Flow (n + generated (x ∷ [])) g' × Kept g g'
  unfolding run
  step-Flow {n} x g q h f =
      let (g2, ran, f2) = runs F i (n + generated (x ∷ [])) n (x ∷ []) g (q, tt) refl h f in
      let (g1, e1, last) = bind_some (step F i x g) (λ k. run F i [] k) ran in
      let same : g1 ≡ g2 = ground arith in
      let e : step F i x g ≡ some g2 = rw same at e1 in (g2, e, f2, step-Kept x g g2 q f e)
