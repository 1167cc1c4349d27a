-- ===== src/Examples/Gateways.antt =====
-- Short runs of the gateway.
use mathlib.Core.List.{Perm}
use ciot_vlc.Gateway.Timeout.{any_due, check_unacked-Perm}
use ciot_vlc.Base.{
  ◌++◌, ◌+◌, length, ℕ, ◌≡◌, refl, true, false, some, List, [], ◌∷◌, ◌==◌, replicate, if◌then◌else◌,
  arith,
}
use ciot_vlc.Gateway.State.{Gateway, initial, rf}
use ciot_vlc.Gateway.Address.{is_from_node}
use ciot_vlc.Gateway.Receive.{receive_report}
use ciot_vlc.Gateway.Produce.{generate_random_node, check_unacked}
use ciot_vlc.Gateway.Schedule.{schedule, schedule-one, rf_mode}
use ciot_vlc.Gateway.Step.{
  Event, transmit_rf_round, add_token_round, tbf_transmit_round, generate_packet_round,
  schedule_packet_round, step, run,
}
use ciot_vlc.Gateway.Transmit.{add_token, tbf_transmit, is_empty}
use ciot_vlc.Gateway.Flow.Run.{RunsTo, run-Flow}
use ciot_vlc.Gateway.Stall.{refused, tbf_transmit-refused}
use ciot_vlc.Gateway.Tokens.{IsLimited, run-IsLimited}
use ciot_vlc.Gateway.Acks.{IsUnacked, receive_report-IsUnacked}
use ciot_vlc.Gateway.Desync.{late, run-late}
use ciot_vlc.Examples.Data.{whole, interfaces, sample}

abbrev pub payload : List ℕ
payload = replicate 74 7

abbrev pub one_packet : List Event
one_packet =
    generate_packet_round payload
    ∷ schedule_packet_round 0
    ∷ add_token_round
    ∷ transmit_rf_round
    ∷ tbf_transmit_round true
    ∷ []

run-Flow_example : RunsTo whole interfaces 1 one_packet (initial 0)
run-Flow_example =
    run-Flow whole interfaces 0 one_packet (refl, (tt, (tt, (tt, (tt, tt))))) (omega arith)

-- A packet waits for a token, and there is one.
abbrev waiting : Gateway ℕ
waiting = record (initial 0) {
  tbf_queue = record { items = sample ∷ []; limit = 1 };
  tbf_queue_length = 1;
  n_token = 1;
}

abbrev after_refusal : List Event
after_refusal = add_token_round ∷ tbf_transmit_round true ∷ []

abbrev final : Gateway ℕ
final = record (refused whole interfaces waiting) { n_token = 2 }

stays : run whole interfaces after_refusal (refused whole interfaces waiting) ≡ some final
unfolding run step add_token tbf_transmit is_empty initial
stays = refl

tbf_transmit-refused_example :
    (step whole interfaces (tbf_transmit_round false) waiting
      ≡ some (refused whole interfaces waiting))
    × (final.rf_sent ≡ waiting.rf_sent)
    × (final.tbf_queue.items ≡ [])
tbf_transmit-refused_example =
    tbf_transmit-refused whole interfaces waiting sample refl (omega arith) (omega arith) refl
      (omega arith) after_refusal final stays

adds :
    run whole interfaces (add_token_round ∷ []) (initial 0)
    ≡ some (record (initial 0) { n_token = 1 })
unfolding run step add_token initial
adds = refl

run-IsLimited_example : IsLimited {D = ℕ} 1 (initial 0) (record (initial 0) { n_token = 1 })
run-IsLimited_example =
    run-IsLimited whole interfaces (add_token_round ∷ []) (initial 0)
      (record (initial 0) { n_token = 1 }) adds

ignores : receive_report whole 20 [] (initial 0) ≡ some (initial 0)
unfolding receive_report is_from_node
ignores = refl

receive_report-IsUnacked_example : IsUnacked {D = ℕ} (initial 0) (initial 0)
receive_report-IsUnacked_example =
    receive_report-IsUnacked whole 20 [] (initial 0) (initial 0) ignores

schedule-one_example :
    schedule whole 2 7 9 (5 ∷ []) (1 ∷ [])
    ≡ some (record { mode = rf_mode; vlc_tgt_set = 0 ∷ []; n_vlc_tgt = 1 })
schedule-one_example = schedule-one whole 2 7 9 5 1 (omega arith)

run-late_example :
    (g : Gateway ℕ) × (run whole interfaces (late whole interfaces 3 0 payload) (initial 0)
      ≡ some g)
    × (g.rf_queue.items ≡ generate_random_node 1 payload ∷ [])
    × ((j : ℕ) → g.pkt_state j ≡ (if 3 == j then rf else 0))
run-late_example = run-late whole interfaces 3 0 payload 0 (omega arith)

-- Packet 5 was sent by VLC at 0 and is late, packet 6 is not.
abbrev late_packet : Gateway ℕ
late_packet = record (initial 0) {
  unacked_seq = 5;
  unsched_seq = 7;
  pkt_state = λ j. 1;
  expire_time = λ j. if j == 5 then 100 else 900;
  unacked_vlc_packet = sample ∷ record sample { seq_number = 6 } ∷ [];
}

check_unacked-Perm_example :
    (g' : Gateway ℕ) × (check_unacked 500 late_packet ≡ some g')
    × Perm
        (g'.rf_queue.items ++ g'.unacked_vlc_packet)
        (sample ∷ record sample { seq_number = 6 } ∷ [])
    × (g'.r + 0 ≡ 0 + length g'.rf_queue.items)
    × (any_due 500 2 5 g' ≡ false)
unfolding initial
check_unacked-Perm_example =
    check_unacked-Perm 500 late_packet (omega arith) (omega arith) (omega arith)
