-- ===== src/Queue/Alias.antt =====
-- One node pushed twice, as `schedule_packet` of the gateway does once for every VLC target
-- (`gateway (eth)_gateway/main.c:710`).
use ciot_vlc.Base.{ℕ, ◌+◌, ◌<◌, ◌≡◌, true, Option, none, some, [], ◌∷◌, arith}
use ciot_vlc.Packet.{Packet}
use ciot_vlc.Queue.{cell, Heap, Queue, write, push}
use ciot_vlc.Queue.Chain.{Items, Chain, IsQueue, uncons, head_of_nil}

-- A node that links to itself ends no chain.
no_cycle :
    {h : Heap} {a : ℕ} {x : Packet} (xs : Items)
    → h a ≡ some (cell x (some a))
    → ¬ Chain h (some a) xs
no_cycle [] e c = cc (head_of_nil c)
no_cycle ((b, y) ∷ []) e c = let (n, at, here, out, rest) = uncons c in cc (head_of_nil rest)
no_cycle ((b, y) ∷ (d, z) ∷ r) e c =
    let (n, at, here, out, rest) = uncons c in
    let (m, at2, here2, out2, rest2) = uncons rest in ground arith

-- The state after a node is pushed twice on an empty queue: both calls succeed, the size is 2,
-- and the node links to itself.
pub record Cyclic (h : Heap) (q : Queue) (a : ℕ) (x : Packet) : Type 0 where
  pub heap : Heap
  pub once : Queue
  pub first : push (some q) (some a) h ≡ some (true, some once, heap)
  pub heap2 : Heap
  pub twice : Queue
  pub second : push (some once) (some a) heap ≡ some (true, some twice, heap2)
  pub size : twice.size ≡ 2
  pub loop : heap2 a ≡ some (cell x (some a))
  pub broken : (xs : Items) → ¬ IsQueue heap2 twice xs

-- Pushing one allocated node twice on an empty queue with room for two: both calls succeed, the
-- size is 2, the node links to itself, and the structure is no queue of any packets.
pub push_twice :
    {h : Heap} {q : Queue} (a : ℕ) (x : Packet) (n : Option ℕ)
    → IsQueue h q []
    → h a ≡ some (cell x n)
    → 1 < q.limit
    → Cyclic h q a x
unfolding push write
push_twice {h} {q} a x n v at room = record {
  heap = h1;
  once = record q { head = some a; tail = some a; size = q.size + 1 };
  first = ground arith;
  heap2 = h2;
  twice = record q { head = some a; tail = some a; size = q.size + 1 + 1 };
  second = ground arith;
  size = omega (arith, v.size);
  loop = ground arith;
  broken = λ xs w. no_cycle {h = h2} {a = a} {x = x} xs (ground arith) w.chain;
}
  where
    h1 : Heap
    h1 = write h a (some (cell x none))

    h2 : Heap
    h2 = write (write h1 a (some (cell x none))) a (some (cell x (some a)))
