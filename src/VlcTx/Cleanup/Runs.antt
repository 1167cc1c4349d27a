-- ===== src/VlcTx/Cleanup/Runs.antt =====
-- From `vlc_init` to `cleanup_module` of `VLC TX1 (Eth)_ourvlc/ourvlc-1.c`.
use ciot_vlc.Base.{
  ℕ, zero, suc, ◌+◌, ◌≤◌, ◌≡◌, refl, ◌∙◌, false, none, some, List, [], ◌∷◌, ◌++◌, ◌==◌, length,
  arith,
}
use ciot_vlc.VlcTx.Packets.{
  Packets, kmalloc, vlc_setup_pool, vlc_init, enqueue, send_first, PacketEvent, vlc_tx_call,
  timer_tick, move, moves, cleanup_module,
}
use ciot_vlc.VlcTx.Cleanup.{
  is_self, count, count-append, Owned, pooled, WasSent, moves-Owned, moves-WasSent,
  cleanup_module-frees, cleanup_module-faults,
}

-- `kmalloc` gave no NULL, nothing that was allocated, and nothing twice.
pub record AreFresh (tx q : ℕ) (pool live : List ℕ) : Type 0 where
  pub no_null : count 0 (tx ∷ q ∷ (pool ++ live)) ≡ 0
  pub once : (a : ℕ) → count a (tx ∷ q ∷ (pool ++ live)) ≤ 1

-- The packets after the loop.
record SetUp (pool : List ℕ) (m m' : Packets) : Type 0 where
  live : (a : ℕ) → count a m'.live ≡ count a pool + count a m.live
  packets : (a : ℕ) → pooled a m' ≡ count a pool + pooled a m
  size : length m'.ppool ≡ length pool + length m.ppool
  tx_pkt : m'.tx_pkt ≡ m.tx_pkt
  q_pkt : m'.vlc_q_pkt ≡ m.vlc_q_pkt

vlc_setup_pool-SetUp :
    (pool : List ℕ) (m : Packets) → count 0 pool ≡ 0 → SetUp pool m (vlc_setup_pool pool m)
unfolding vlc_setup_pool kmalloc
vlc_setup_pool-SetUp [] m h = record {
  live = λ a. omega arith;
  packets = λ a. omega arith;
  size = omega arith;
  tx_pkt = refl;
  q_pkt = refl;
}
vlc_setup_pool-SetUp (p ∷ pool) m h =
    let not_null : (p == 0) ≡ false = ground (arith, h) in
    let v =
      vlc_setup_pool-SetUp pool (record m { live = p ∷ m.live; ppool = p ∷ m.ppool })
        (omega (arith, h)) in
    rw not_null (record {
      live = λ a. omega (arith, v.live a);
      packets = λ a. omega (arith, v.packets a);
      size = omega (arith, v.size);
      tx_pkt = v.tx_pkt;
      q_pkt = v.q_pkt;
    })

-- As many calls of `vlc_tx`.
abbrev pub tx_calls : ℕ → List PacketEvent
tx_calls zero = []
tx_calls (suc k) = vlc_tx_call ∷ tx_calls k

has_free :
    (k : ℕ) (l : List ℕ)
    → suc k ≤ length l
    → (p : ℕ) × (rest : List ℕ) × (l ≡ p ∷ rest) × (k ≤ length rest)
has_free k [] h = absurd (omega (arith, h))
has_free k (p ∷ l) h = (p, l, refl, omega (arith, h))

tx_calls_end :
    (k : ℕ) (m : Packets)
    → k ≤ length m.ppool
    → (m' : Packets) × (moves (tx_calls k) m ≡ some m') × (m'.tx_pkt ≡ m.tx_pkt)
unfolding moves move enqueue
tx_calls_end zero m h = (m, refl, refl)
tx_calls_end (suc k) m h =
    let (p, l, e, room) = has_free k m.ppool h in
    let (m', r, same) =
      tx_calls_end k (record m { ppool = l; tx_queue = m.tx_queue ++ p ∷ [] }) room in
    (m', rw e r, same)

module _ {tx q : ℕ} {pool live : List ℕ} (fresh : AreFresh tx q pool live) where
  abbrev start : Packets
  start = record { live = q ∷ tx ∷ live; ppool = []; tx_queue = []; tx_pkt = tx; vlc_q_pkt = q }

  vlc_init_lem : vlc_init tx q pool live ≡ vlc_setup_pool pool start
  unfolding vlc_init kmalloc
  vlc_init_lem =
      let tx_there : (tx == 0) ≡ false = ground (arith, fresh.no_null) in
      let q_there : (q == 0) ≡ false = ground (arith, fresh.no_null) in rw (tx_there, q_there) refl

  set_up : SetUp pool start (vlc_init tx q pool live)
  set_up =
      rw vlc_init_lem
        (vlc_setup_pool-SetUp pool start (omega (arith, fresh.no_null, count-append 0 pool live)))

  vlc_init-Owned : Owned tx q (λ a. count a live) (vlc_init tx q pool live)
  vlc_init-Owned =
      let v = set_up in
      let all : (a : ℕ)
          → count a (vlc_init tx q pool live).live ≡ count a (tx ∷ q ∷ (pool ++ live)) =
        λ a. omega (arith, v.live a, count-append a pool live) in
      record {
        live = λ a. omega (arith, v.live a, v.packets a);
        once = λ a. rw (all a) (fresh.once a);
        no_null = all 0 ∙ fresh.no_null;
        q_pkt = v.q_pkt;
      }

  -- `kmalloc` gave addresses that are not NULL, new and different: after `vlc_init` and at most as
  -- many calls of `vlc_tx` as the pool has packets, none of which was sent, `cleanup_module` frees
  -- without a fault, and each address is then allocated as often as it was before `vlc_init`.
  pub cleanup_module-tx_calls :
      (k : ℕ)
      → k ≤ length pool
      → (m : Packets) × (moves (tx_calls k) (vlc_init tx q pool live) ≡ some m)
        × (left : List ℕ) × (cleanup_module m ≡ some left)
        × ((a : ℕ) → count a left ≡ count a live)
  cleanup_module-tx_calls k h =
      let (m, r, same) = tx_calls_end k (vlc_init tx q pool live) (omega (arith, h, set_up.size)) in
      let v = moves-Owned (tx_calls k) (vlc_init tx q pool live) m vlc_init-Owned r in
      let (left, e, c) = cleanup_module-frees m v (same ∙ set_up.tx_pkt) in (m, r, left, e, c)

  -- `kmalloc` gave addresses that are not NULL, new and different: where after `vlc_init` and any
  -- calls of `vlc_tx` and ticks of the timer a packet waits, then after the tick that sends it and
  -- any further ones `cleanup_module` frees memory that it has freed before.
  pub cleanup_module-sent :
      (events more : List PacketEvent) (m m' : Packets) (pkt : ℕ) (rest : List ℕ)
      → moves events (vlc_init tx q pool live) ≡ some m
      → m.tx_queue ≡ pkt ∷ rest
      → moves (timer_tick ∷ more) m ≡ some m'
      → cleanup_module m' ≡ none
  unfolding moves move send_first
  cleanup_module-sent events more m m' pkt rest r waits r' =
      let v = moves-Owned events (vlc_init tx q pool live) m vlc_init-Owned r in
      let m1 : Packets = record m { ppool = pkt ∷ m.ppool; tx_queue = rest; tx_pkt = pkt } in
      let sent : WasSent m1 = omega (arith, is_self pkt) in
      let after : moves more m1 ≡ some m' = rw waits at r' in
      cleanup_module-faults m' (moves-Owned (timer_tick ∷ more) m m' v r')
        (moves-WasSent more m1 m' sent after)
