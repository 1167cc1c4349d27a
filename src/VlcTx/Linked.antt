-- ===== src/VlcTx/Linked.antt =====
-- The packets of `VLC TX1 (Eth)_ourvlc/ourvlc-1.c` on the heap, with the free packets and the transmit
-- queue linked through `next`: `vlc_get_tx_buffer`, `vlc_release_buffer`, `vlc_enqueue_pkt`,
-- `vlc_dequeue_pkt` and `vlc_tx`. A pointer is `none` for NULL. The locks are left out, and
-- `flag_exit` is 0. `none` is a dereference of NULL or of what is not allocated, a write past the end
-- of an array, or a loop that has run out of fuel.
pub mod Chain
pub mod Represents
pub mod Enqueue
pub mod Dequeue
pub mod Start
pub mod Race
pub mod Order
use ciot_vlc.Base.{
  ℕ, zero, suc, Bool, true, false, ◌&&◌, Option, none, some, List, [], ◌∷◌, ◌++◌, ◌>>=◌, ◌==◌, leb,
  if◌then◌else◌, length, drop,
}

-- `struct vlc_packet`.
pub record VlcPacket : Type 0 where
  pub next : Option ℕ
  pub datalen : ℕ
  pub data_array : List ℕ

-- The packets that are allocated.
abbrev pub PacketHeap : Type 0
PacketHeap = ℕ → Option VlcPacket

abbrev pub write : PacketHeap → ℕ → VlcPacket → PacketHeap
write h a c = λ b. if a == b then some c else h b

-- The lists of `struct vlc_priv`, the state of the kernel's queue, and the heap.
pub record Linked : Type 0 where
  pub ppool : Option ℕ
  pub tx_queue : Option ℕ
  pub stopped : Bool
  pub heap : PacketHeap

abbrev pub is_null : Option ℕ → Bool
is_null none = true
is_null (some a) = false

-- The first free packet; without one, `pkt->next` is a dereference of NULL.
unfoldable pub vlc_get_tx_buffer : Linked → Option (ℕ × Linked)
vlc_get_tx_buffer s = do
  pkt ← s.ppool
  c ← s.heap pkt
  some (pkt, record s { ppool = c.next; stopped = if is_null c.next then true else s.stopped })

-- The queue wakes where `pkt->next` is now NULL.
unfoldable pub vlc_release_buffer : ℕ → Linked → Option Linked
vlc_release_buffer pkt s = do
  c ← s.heap pkt
  some (record s {
    ppool = some pkt;
    stopped = if s.stopped && is_null s.ppool then false else s.stopped;
    heap = write s.heap pkt (record c { next = s.ppool });
  })

-- `while (last_pkt != NULL && last_pkt->next != NULL) last_pkt = last_pkt->next;` on fuel.
unfoldable pub find_last : ℕ → PacketHeap → ℕ → Option ℕ
find_last zero h last_pkt = none
find_last (suc fuel) h last_pkt = do
  c ← h last_pkt
  elim c.next [ none ↦ some last_pkt | some next ↦ find_last fuel h next ]

-- `last_pkt->next = pkt`.
unfoldable pub set_next : ℕ → Option ℕ → PacketHeap → Option PacketHeap
set_next a next h = do c ← h a; some (write h a (record c { next = next }))

unfoldable pub vlc_enqueue_pkt : ℕ → ℕ → Linked → Option Linked
vlc_enqueue_pkt fuel pkt s = elim s.tx_queue [
  | none ↦ some (record s { tx_queue = some pkt })
  | some first ↦ do
    last_pkt ← find_last fuel s.heap first
    heap ← set_next last_pkt (some pkt) s.heap
    some (record s { heap = heap })
]

-- What is given back is NULL where the queue is empty.
unfoldable pub vlc_dequeue_pkt : Linked → Option (Option ℕ × Linked)
vlc_dequeue_pkt s = elim s.tx_queue [
  | none ↦ some (none, s)
  | some pkt ↦ do c ← s.heap pkt; some (some pkt, record s { tx_queue = c.next })
]

-- The `skb` is copied over the start of the packet's array.
unfoldable pub fill : List ℕ → ℕ → PacketHeap → Option PacketHeap
fill skb pkt h = do
  c ← h pkt
  if leb (length skb) (length c.data_array)
      then some (
          write h pkt (record {
            next = none;
            datalen = length skb;
            data_array = skb ++ drop (length skb) c.data_array;
          }))
      else none

unfoldable pub vlc_tx : ℕ → List ℕ → Linked → Option Linked
vlc_tx fuel skb s = do
  (tmp_pkt, s1) ← vlc_get_tx_buffer s
  heap ← fill skb tmp_pkt s1.heap
  vlc_enqueue_pkt fuel tmp_pkt (record s1 { heap = heap })

-- The answers of `kmalloc` to the rounds of the loop, each an address with what the memory holds; the
-- loop ends at the first NULL.
unfoldable pub vlc_setup_pool : List (Option (ℕ × VlcPacket)) → Linked → Linked
vlc_setup_pool [] s = s
vlc_setup_pool (none ∷ answers) s = s
vlc_setup_pool (some (pkt, c) ∷ answers) s =
    vlc_setup_pool answers
      (record s { ppool = some pkt; heap = write s.heap pkt (record c { next = s.ppool }) })

-- What `phy_timer_handler` does with the packets: the first one that waits, if there is one, goes to
-- `write_packet_to_pru_memory`, and is then released. The parity that is written into its array is
-- left out: what is given to be written is the array before that.
unfoldable pub next_packet : Linked → Option (Option (List ℕ) × Linked)
next_packet s = do
  (tx_pkt, s1) ← vlc_dequeue_pkt s
  elim tx_pkt [
    | none ↦ some (none, s1)
    | some pkt ↦ do c ← s1.heap pkt; s2 ← vlc_release_buffer pkt s1; some (some c.data_array, s2)
  ]

-- `vlc_enqueue_pkt` on a queue that is not empty, with a tick of the timer before `last_pkt->next` is
-- written.
unfoldable pub vlc_enqueue_interrupted : ℕ → ℕ → Linked → Option Linked
vlc_enqueue_interrupted fuel pkt s = do
  first ← s.tx_queue
  last_pkt ← find_last fuel s.heap first
  (given, s1) ← next_packet s
  heap ← set_next last_pkt (some pkt) s1.heap
  some (record s1 { heap = heap })
