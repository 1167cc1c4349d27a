-- ===== src/Gateway/Frame.antt =====
-- The rounds of the gateway that do not transmit over RF, and the token bucket.
use ciot_vlc.Base.{
  ℕ, zero, suc, ◌+◌, ◌≡◌, refl, ◌∙◌, Option, none, some, List, [], ◌∷◌, ltb, arith, ◌==◌, leb, ◌^◌,
  ◌%◌, ◌&&◌, Bool-cases, inl, inr, bind_some, drop,
}
use ciot_vlc.Doubles.{Doubles}
use ciot_vlc.Packet.{Packet, Mac, header_len}
use ciot_vlc.Queue.Fifo
use ciot_vlc.Queue.Fifo.{Fifo}
use ciot_vlc.Report.{StatusReport, VlcInformation, generate_status_report_from_string}
use ciot_vlc.Gateway.State.{Gateway, max_seq_number}
use ciot_vlc.Gateway.Schedule.{schedule, SchedulingResult}
use ciot_vlc.Gateway.Transmit.{transmit_vlc}
use ciot_vlc.Gateway.Produce.{generate_packet, schedule_packet, schedule_popped, to_vlc, to_rf}
use ciot_vlc.Gateway.Receive.{
  ack_one, ack_all, ack_report, set_errors, use_report, receive_report, receive_vlc_report,
}
use ciot_vlc.Gateway.Step.{
  Event, transmit_rf_round, add_token_round, tbf_transmit_round, transmit_vlc_round,
  generate_packet_round, schedule_packet_round, receive_report_round, receive_vlc_report_round,
  Interfaces, step,
}
use ciot_vlc.Gateway.Address.{is_from_node}

-- The token bucket and the packets sent are as before.
pub record Keeps {D : Type 0} (g g' : Gateway D) : Type 0 where
  pub queue : g'.tbf_queue ≡ g.tbf_queue
  pub counter : g'.tbf_queue_length ≡ g.tbf_queue_length
  pub sent : g'.rf_sent ≡ g.rf_sent
  pub tokens : g'.n_token ≡ g.n_token

-- A round of a thread that does not transmit over RF.
abbrev pub IsOther : Event → Type 0
IsOther transmit_rf_round = ⊥
IsOther add_token_round = ⊥
IsOther (tbf_transmit_round sent) = ⊥
IsOther _ = Unit {0}

module _ {D : Type 0} where
  Keeps-refl : (g : Gateway D) → Keeps g g
  Keeps-refl g = record { queue = refl; counter = refl; sent = refl; tokens = refl }

  Keeps-trans : {g h k : Gateway D} → Keeps g h → Keeps h k → Keeps g k
  Keeps-trans a b = record {
    queue = b.queue ∙ a.queue;
    counter = b.counter ∙ a.counter;
    sent = b.sent ∙ a.sent;
    tokens = b.tokens ∙ a.tokens;
  }

  generate_packet-Keeps : (bytes : List ℕ) (g : Gateway D) → Keeps g (generate_packet bytes g)
  unfolding generate_packet
  generate_packet-Keeps bytes g = ground arith

  transmit_vlc-Keeps :
      (hwaddr : Mac) (ether_type : ℕ) (g g' : Gateway D)
      → transmit_vlc hwaddr ether_type g ≡ some g'
      → Keeps g g'
  unfolding transmit_vlc
  transmit_vlc-Keeps hwaddr ether_type g g' e = ground arith

  to_vlc-Keeps :
      (now idx : ℕ) (p : Packet) (targets : List ℕ) (g g' : Gateway D)
      → to_vlc now idx p targets g ≡ some g'
      → Keeps g g'
  unfolding to_vlc
  to_vlc-Keeps now idx p [] g g' e = cc
  to_vlc-Keeps now idx p (zero ∷ []) g g' e = ground arith
  to_vlc-Keeps now idx p (zero ∷ b ∷ l) g g' e = cc
  to_vlc-Keeps now idx p (suc a ∷ l) g g' e = cc

  schedule_popped-Keeps :
      (now : ℕ) (result : SchedulingResult) (g : Gateway D) (temp : Option Packet) (rest : Fifo)
      (g' : Gateway D)
      → schedule_popped now result g temp rest ≡ some g'
      → Keeps g g'
  unfolding schedule_popped to_rf
  schedule_popped-Keeps now result g none rest g' e = ground arith
  schedule_popped-Keeps now result g (some p) rest g' e = elim (Bool-cases (result.mode == 1)) [
    | inl by_rf ↦ ground arith
    | inr by_vlc ↦
        let h : Gateway D = record g {
          node_queue = rest;
          unsched_seq = (g.unsched_seq + 1) % max_seq_number;
        } in
        let same : Keeps g h = record {
          queue = refl;
          counter = refl;
          sent = refl;
          tokens = refl;
        } in
        Keeps-trans same (to_vlc-Keeps now g.unsched_seq p result.vlc_tgt_set h g' (rw by_vlc at e))
  ]

  schedule_packet-Keeps :
      (now : ℕ) (result : SchedulingResult) (g g' : Gateway D)
      → schedule_packet now result g ≡ some g'
      → Keeps g g'
  unfolding schedule_packet
  schedule_packet-Keeps now result g g' e = elim (Bool-cases (result.mode == 0)) [
    | inl idle ↦ let same : g' ≡ g = cc (rw idle at e) in rw same (Keeps-refl g)
    | inr busy ↦
        schedule_popped-Keeps now result g (Fifo.pop g.node_queue).0 (Fifo.pop g.node_queue).1 g'
          (rw busy at e)
  ]

  ack_one-Keeps : (next bit : ℕ) (g g' : Gateway D) → ack_one next bit g ≡ some g' → Keeps g g'
  unfolding ack_one
  ack_one-Keeps zero bit g g' e = cc
  ack_one-Keeps (suc curr) bit g g' e = ground arith

  ack_all-Keeps :
      (next : ℕ) (pattern : List ℕ) (g g' : Gateway D)
      → ack_all next pattern g ≡ some g'
      → Keeps g g'
  unfolding ack_all
  ack_all-Keeps next [] g g' e = ground arith
  ack_all-Keeps next (bit ∷ pattern) g g' e =
      let (h, a, b) = bind_some (ack_one next bit g) (λ k. ack_all (suc next) pattern k) e in
      Keeps-trans (ack_one-Keeps next bit g h a) (ack_all-Keeps (suc next) pattern h g' b)

  ack_report-Keeps :
      (report : StatusReport) (g g' : Gateway D) → ack_report report g ≡ some g' → Keeps g g'
  unfolding ack_report
  ack_report-Keeps report g g' e =
      let start : Gateway D = record g { unacked_seq = report.ack_number } in
      let same : Keeps g start = record {
        queue = refl;
        counter = refl;
        sent = refl;
        tokens = refl;
      } in
      elim (Bool-cases (ltb report.ack_number (2 ^ 31))) [
        | inl small ↦
            Keeps-trans same
              (ack_all-Keeps report.ack_number report.ack_bit_pattern start g' (rw small at e))
        | inr negative ↦ ground arith
      ]

module _ (F : Doubles) where
  open F use {D}

  set_errors-Keeps :
      (vs : List VlcInformation) (g g' : Gateway D) → set_errors F vs g ≡ some g' → Keeps g g'
  unfolding set_errors
  set_errors-Keeps [] g g' e = ground arith
  set_errors-Keeps (v ∷ vs) g g' e = elim (Bool-cases (v.vlc_tx_id == 1)) [
    | inl one ↦
        let here : Keeps g _ = record {
          queue = refl;
          counter = refl;
          sent = refl;
          tokens = refl;
        } in
        Keeps-trans here (set_errors-Keeps vs _ g' (rw one at e))
    | inr other ↦ cc (rw other at e)
  ]

  use_report-Keeps :
      (report : StatusReport) (g g' : Gateway D) → use_report F report g ≡ some g' → Keeps g g'
  unfolding use_report
  use_report-Keeps report g g' e =
      elim (Bool-cases (ltb 0 report.node_id && leb report.node_id 1)) [
        | inl ours ↦
            let (h, a, b) =
              bind_some (ack_report report g) (λ k. set_errors F report.vlc_data k)
                (rw ours at e) in
            Keeps-trans (ack_report-Keeps report g h a) (set_errors-Keeps report.vlc_data h g' b)
        | inr other ↦ let same : g' ≡ g = cc (rw other at e) in rw same (Keeps-refl g)
      ]

  receive_report-Keeps :
      (numbytes : ℕ) (buf : List ℕ) (g g' : Gateway D)
      → receive_report F numbytes buf g ≡ some g'
      → Keeps g g'
  unfolding receive_report
  receive_report-Keeps numbytes buf g g' e =
      elim (Bool-cases (ltb 0 numbytes && is_from_node buf)) [
        | inl ours ↦
            let (report, a, b) =
              bind_some (generate_status_report_from_string (drop header_len buf))
                (λ k. use_report F k g) (rw ours at e) in
            use_report-Keeps report g g' b
        | inr other ↦ let same : g' ≡ g = cc (rw other at e) in rw same (Keeps-refl g)
      ]

  receive_vlc_report-Keeps :
      (buf : List ℕ) (g g' : Gateway D) → receive_vlc_report buf g ≡ some g' → Keeps g g'
  unfolding receive_vlc_report
  receive_vlc_report-Keeps buf g g' e = ground arith

  pub step-Keeps :
      (i : Interfaces) (x : Event) (g g' : Gateway D)
      → IsOther x
      → step F i x g ≡ some g'
      → Keeps g g'
  unfolding step
  step-Keeps i transmit_rf_round g g' o e = absurd o
  step-Keeps i add_token_round g g' o e = absurd o
  step-Keeps i (tbf_transmit_round sent) g g' o e = absurd o
  step-Keeps i transmit_vlc_round g g' o e = transmit_vlc-Keeps i.eth_if_mac i.ether_type g g' e
  step-Keeps i (generate_packet_round bytes) g g' o e =
      let same : g' ≡ generate_packet bytes g = cc in rw same (generate_packet-Keeps bytes g)
  step-Keeps i (schedule_packet_round now) g g' o e =
      let (result, a, b) =
        bind_some (schedule F 2 g.gn g.r (g.vk ∷ []) (g.e ∷ [])) (λ k. schedule_packet now k g) e in
      schedule_packet-Keeps now result g g' b
  step-Keeps i (receive_report_round numbytes buf) g g' o e =
      receive_report-Keeps numbytes buf g g' e
  step-Keeps i (receive_vlc_report_round buf) g g' o e = receive_vlc_report-Keeps buf g g' e
