-- ===== src/Examples/Cleanups.antt =====
-- A driver with two packets, from its start to its end.
use ciot_vlc.Base.{ℕ, ◌≡◌, refl, none, some, List, [], ◌∷◌, arith}
use ciot_vlc.VlcTx.Packets.{
  Packets, kmalloc, vlc_setup_pool, vlc_init, enqueue, send_first, vlc_tx_call, timer_tick, move,
  moves, cleanup_module,
}
use ciot_vlc.VlcTx.Cleanup.{count}
use ciot_vlc.VlcTx.Cleanup.Runs.{AreFresh, tx_calls, cleanup_module-tx_calls, cleanup_module-sent}

addresses-AreFresh : AreFresh 10 20 (30 ∷ 40 ∷ []) (5 ∷ [])
addresses-AreFresh = record { no_null = refl; once = λ a. ground arith }

cleanup_module-tx_calls_example :
    (m : Packets) × (moves (tx_calls 2) (vlc_init 10 20 (30 ∷ 40 ∷ []) (5 ∷ [])) ≡ some m)
    × (left : List ℕ) × (cleanup_module m ≡ some left)
    × ((a : ℕ) → count a left ≡ count a (5 ∷ []))
cleanup_module-tx_calls_example = cleanup_module-tx_calls addresses-AreFresh 2 (omega arith)

abbrev one_waits : Packets
one_waits = record {
  live = 40 ∷ 30 ∷ 20 ∷ 10 ∷ 5 ∷ [];
  ppool = 30 ∷ [];
  tx_queue = 40 ∷ [];
  tx_pkt = 10;
  vlc_q_pkt = 20;
}

abbrev one_sent : Packets
one_sent = record {
  live = 40 ∷ 30 ∷ 20 ∷ 10 ∷ 5 ∷ [];
  ppool = 40 ∷ 30 ∷ [];
  tx_queue = [];
  tx_pkt = 40;
  vlc_q_pkt = 20;
}

queued : moves (vlc_tx_call ∷ []) (vlc_init 10 20 (30 ∷ 40 ∷ []) (5 ∷ [])) ≡ some one_waits
unfolding moves move enqueue vlc_init vlc_setup_pool kmalloc
queued = refl

sends : moves (timer_tick ∷ timer_tick ∷ []) one_waits ≡ some one_sent
unfolding moves move send_first
sends = refl

cleanup_module-sent_example : cleanup_module one_sent ≡ none
cleanup_module-sent_example =
    cleanup_module-sent addresses-AreFresh (vlc_tx_call ∷ []) (timer_tick ∷ []) one_waits one_sent
      40 [] queued refl sends
