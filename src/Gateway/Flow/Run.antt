-- ===== src/Gateway/Flow/Run.antt =====
-- Runs of the gateway's rounds, and the packets in flight.
use ciot_vlc.Base.{ℕ, suc, ◌+◌, ◌≤◌, ◌≡◌, refl, true, false, some, List, [], ◌∷◌, length, arith}
use ciot_vlc.Doubles.{Doubles}
use ciot_vlc.Gateway.State.{Gateway, initial, payload_size, rf_queue_size}
use ciot_vlc.Gateway.Schedule.{schedule-one}
use ciot_vlc.Gateway.Step.{
  Event, transmit_rf_round, add_token_round, tbf_transmit_round, transmit_vlc_round,
  generate_packet_round, schedule_packet_round, receive_report_round, receive_vlc_report_round,
  Interfaces, step, run,
}
use ciot_vlc.Gateway.Flow.{Flow, initial-Flow, add_token-Flow, transmit_rf-Flow}
use ciot_vlc.Gateway.Flow.Out.{tbf_transmit-Flow, transmit_vlc-Flow}
use ciot_vlc.Gateway.Flow.In.{generate_packet-Flow, schedule_packet-Flow}

-- A round of a producing or transmitting thread, in which the driver takes the frame.
abbrev pub IsLossless : Event → Type 0
IsLossless (tbf_transmit_round false) = ⊥
IsLossless (generate_packet_round bytes) = length bytes ≡ payload_size
IsLossless (receive_report_round numbytes buf) = ⊥
IsLossless (receive_vlc_report_round buf) = ⊥
IsLossless _ = Unit {0}

abbrev pub AreLossless : List Event → Type 0
AreLossless [] = Unit {0}
AreLossless (x ∷ events) = IsLossless x × AreLossless events

abbrev pub generated : List Event → ℕ
generated [] = 0
generated (generate_packet_round bytes ∷ events) = suc (generated events)
generated (_ ∷ events) = generated events

module _ (F : Doubles) (i : Interfaces) where
  open F use {D}

  -- What a run of rounds leaves.
  abbrev pub RunsTo : ℕ → List Event → Gateway D → Type 0
  RunsTo n events g = (g' : Gateway D) × (run F i events g ≡ some g') × Flow n g'

  after :
      (m : ℕ) (x : Event) (events : List Event) (g g1 : Gateway D)
      → step F i x g ≡ some g1
      → RunsTo m events g1
      → RunsTo m (x ∷ events) g
  unfolding run
  after m x events g g1 e1 (g2, e2, f2) = (g2, rw e1 e2, f2)

  -- From any state of the flow.
  pub runs :
      (m n : ℕ) (events : List Event) (g : Gateway D)
      → AreLossless events
      → n + generated events ≡ m
      → m ≤ rf_queue_size
      → Flow n g
      → RunsTo m events g
  unfolding run step
  runs m n [] g q e h f = let same : m ≡ n = omega (arith, e) in (g, refl, rw same f)
  runs m n (transmit_rf_round ∷ events) g q e h f =
      let (g1, e1, f1) = transmit_rf-Flow f in
      after m transmit_rf_round events g g1 e1 (runs m n events g1 q.1 e h f1)
  runs m n (add_token_round ∷ events) g q e h f =
      after m add_token_round events g _ refl (runs m n events _ q.1 e h (add_token-Flow f))
  runs m n (tbf_transmit_round true ∷ events) g q e h f =
      let (g1, e1, f1) = tbf_transmit-Flow f i.rf_if_mac i.ether_type in
      after m (tbf_transmit_round true) events g g1 e1 (runs m n events g1 q.1 e h f1)
  runs m n (tbf_transmit_round false ∷ events) g q e h f = absurd q.0
  runs m n (transmit_vlc_round ∷ events) g q e h f =
      after m transmit_vlc_round events g g (transmit_vlc-Flow f i.eth_if_mac i.ether_type)
        (runs m n events g q.1 e h f)
  runs m n (generate_packet_round bytes ∷ events) g q e h f =
      after m (generate_packet_round bytes) events g _ refl (
        runs m (suc n) events _ q.1 (omega (arith, e)) h
          (generate_packet-Flow f bytes q.0 (omega (arith, e))))
  runs m n (schedule_packet_round now ∷ events) g q e h f =
      let (g1, e1, f1) = schedule_packet-Flow f now in
      after m (schedule_packet_round now) events g g1
        (rw (schedule-one F 2 g.gn g.r g.vk g.e (omega arith)) e1) (runs m n events g1 q.1 e h f1)
  runs m n (receive_report_round numbytes buf ∷ events) g q e h f = absurd q.0
  runs m n (receive_vlc_report_round buf ∷ events) g q e h f = absurd q.0

  -- From the start, after any sequence of rounds of the producing and transmitting threads (none
  -- receives a report) in which the driver takes every RF frame, `rand` gives a whole payload, and
  -- at most as many packets are generated as the RF queue holds: no round faults, the packets sent,
  -- waiting for a token, for RF and for the scheduler are, in that order, exactly those generated
  -- from 0 on, the counters are the lengths of the queues, and there are at most `BURST` tokens.
  pub run-Flow :
      (zero_error : D) (events : List Event)
      → AreLossless events
      → generated events ≤ rf_queue_size
      → RunsTo (generated events) events (initial zero_error)
  run-Flow zero_error events q h =
      runs (generated events) 0 events (initial zero_error) q (omega arith) h
        (initial-Flow zero_error)
