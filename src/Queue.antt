-- ===== src/Queue.antt =====
-- The packet queue that all three parts use: `packet_queue.c` of the gateway, the same file in
-- the node, and `packet_queue.c` of the transmitter, which names the link `prev`.
-- Nodes live on a heap; a pointer is `none` for NULL. A result `none` is a fault: a dereference
-- of NULL or of a node that is not allocated.
pub mod Chain
pub mod Refine
pub mod Destruct
pub mod Alias
pub mod Fifo
use ciot_vlc.Base.{
  ℕ, ◌+◌, ◌-◌, Bool, true, false, Option, none, some, ◌>>=◌, if◌then◌else◌, ◌==◌, leb,
}
use ciot_vlc.Packet.{Packet}

-- `NODE`.
pub record Cell : Type 0 where
  pub item : Packet
  pub next : Option ℕ

abbrev pub cell : Packet → Option ℕ → Cell
cell x n = record { item = x; next = n }

-- The nodes that are allocated.
abbrev pub Heap : Type 0
Heap = ℕ → Option Cell

unfoldable pub write : Heap → ℕ → Option Cell → Heap
write h a c b = if a == b then c else h b

-- `packet_queue`.
pub record Queue : Type 0 where
  pub head : Option ℕ
  pub tail : Option ℕ
  pub size : ℕ
  pub limit : ℕ

-- `*p`.
unfoldable pub load : Option ℕ → Heap → Option Cell
load none h = none
load (some a) h = h a

-- `p->next = q`.
unfoldable pub set_next : Option ℕ → Option ℕ → Heap → Option Heap
set_next none q h = none
set_next (some a) q h = do c ← h a; some (write h a (some (record c { next = q })))

-- `allocated` tells whether `malloc` gave memory. A negative `limit` acts as 0 does.
unfoldable pub construct_queue : Bool → ℕ → Option Queue
construct_queue false limit = none
construct_queue true limit =
    some
      (record { head = none; tail = none; size = 0; limit = if leb limit 0 then 65535 else limit })

unfoldable pub is_empty : Option Queue → Bool
is_empty none = false
is_empty (some q) = if q.size == 0 then true else false

-- The part of `push` below its guards.
unfoldable pub link : Queue → ℕ → Heap → Option (Bool × Option Queue × Heap)
link q a h = do
  h1 ← set_next (some a) none h
  if q.size == 0
      then some (true, some (record q { head = some a; tail = some a; size = q.size + 1 }), h1)
      else do
        h2 ← set_next q.tail (some a) h1
        some (true, some (record q { tail = some a; size = q.size + 1 }), h2)

unfoldable pub push : Option Queue → Option ℕ → Heap → Option (Bool × Option Queue × Heap)
unfolding link set_next
push none item h = some (false, none, h)
push (some q) none h = some (false, some q, h)
push (some q) (some a) h = if leb q.limit q.size then some (false, some q, h) else link q a h

-- The part of `pop` below its guard. `is_empty` does not hold of NULL, which is dereferenced.
unfoldable pub unlink : Option Queue → Heap → Option (Option ℕ × Option Queue × Heap)
unlink none h = none
unlink (some q) h = do
  c ← load q.head h
  some (q.head, some (record q { head = c.next; size = q.size - 1 }), h)

unfoldable pub pop : Option Queue → Heap → Option (Option ℕ × Option Queue × Heap)
unfolding unlink load is_empty
pop queue h = if is_empty queue then some (none, queue, h) else unlink queue h
