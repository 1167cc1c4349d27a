-- ===== src/VlcTx/Packets.antt =====
-- Who owns the memory of the packets in `VLC TX1 (Eth)_ourvlc/ourvlc-1.c`: `vlc_init` and
-- `vlc_setup_pool`, the packets that `vlc_tx` and `phy_timer_handler` move, and `cleanup_module` with
-- `vlc_teardown_pool`. A packet is its address, 0 is NULL, and the lists that are linked through
-- `next` are lists of addresses. The answers of `kmalloc` are arguments, and the model keeps account
-- of what is allocated. `none` is a NULL dereference, or a `kfree` of what is not allocated.
use ciot_vlc.Base.{ℕ, Option, none, some, List, [], ◌∷◌, ◌++◌, ◌>>=◌, ◌==◌, if◌then◌else◌}

-- `live` has the addresses that are allocated.
pub record Packets : Type 0 where
  pub live : List ℕ
  pub ppool : List ℕ
  pub tx_queue : List ℕ
  pub tx_pkt : ℕ
  pub vlc_q_pkt : ℕ

-- The memory after `kmalloc` answered with an address.
unfoldable pub kmalloc : ℕ → List ℕ → List ℕ
kmalloc pkt live = if pkt == 0 then live else pkt ∷ live

unfoldable pub kfree : ℕ → List ℕ → Option (List ℕ)
kfree pkt [] = if pkt == 0 then some [] else none
kfree pkt (p ∷ live) =
    let rest = kfree pkt live in
    if pkt == 0
    then some (p ∷ live)
    else if pkt == p
    then some live
    else (do live' ← rest; some (p ∷ live'))

-- The answers of `kmalloc` to the rounds of the loop, one for each; the loop ends at the first NULL.
unfoldable pub vlc_setup_pool : List ℕ → Packets → Packets
unfolding kmalloc
vlc_setup_pool [] m = m
vlc_setup_pool (pkt ∷ pkts) m =
    let rest =
      vlc_setup_pool pkts (record m { live = kmalloc pkt m.live; ppool = pkt ∷ m.ppool }) in
    if pkt == 0 then m else rest

-- The answers of `kmalloc` for `tx_pkt`, for `vlc_q_pkt` and for the pool.
unfoldable pub vlc_init : ℕ → ℕ → List ℕ → List ℕ → Packets
unfolding vlc_setup_pool
vlc_init tx q pool live = vlc_setup_pool pool (record {
  live = kmalloc q (kmalloc tx live);
  ppool = [];
  tx_queue = [];
  tx_pkt = tx;
  vlc_q_pkt = q;
})

-- What `vlc_tx` does with the packets: the first free one goes to the end of the queue.
unfoldable pub enqueue : List ℕ → Packets → Option Packets
enqueue [] m = none
enqueue (pkt ∷ ppool) m = some (record m { ppool = ppool; tx_queue = m.tx_queue ++ pkt ∷ [] })

-- What a tick that writes does with them: the first of the queue, if there is one, is sent and
-- released.
unfoldable pub send_first : List ℕ → Packets → Packets
send_first [] m = m
send_first (pkt ∷ tx_queue) m = record m {
  ppool = pkt ∷ m.ppool;
  tx_queue = tx_queue;
  tx_pkt = pkt;
}

pub data PacketEvent : Type 0 where
  vlc_tx_call : PacketEvent
  timer_tick : PacketEvent

unfoldable pub move : PacketEvent → Packets → Option Packets
unfolding enqueue send_first
move vlc_tx_call m = enqueue m.ppool m
move timer_tick m = some (send_first m.tx_queue m)

unfoldable pub moves : List PacketEvent → Packets → Option Packets
moves [] m = some m
moves (event ∷ events) m = do m' ← move event m; moves events m'

-- `vlc_teardown_pool` frees the packets one after the other.
unfoldable pub vlc_teardown_pool : List ℕ → List ℕ → Option (List ℕ)
vlc_teardown_pool [] live = some live
vlc_teardown_pool (pkt ∷ ppool) live = do live' ← kfree pkt live; vlc_teardown_pool ppool live'

-- The queue's packets are released, each in front of the free ones.
unfoldable pub release_all : List ℕ → List ℕ → List ℕ
release_all [] ppool = ppool
release_all (pkt ∷ tx_queue) ppool = release_all tx_queue (pkt ∷ ppool)

-- What is still allocated after `cleanup_module` has freed the packets.
unfoldable pub cleanup_module : Packets → Option (List ℕ)
cleanup_module m = do
  live ← vlc_teardown_pool (release_all m.tx_queue m.ppool) m.live
  live ← kfree m.tx_pkt live
  kfree m.vlc_q_pkt live
