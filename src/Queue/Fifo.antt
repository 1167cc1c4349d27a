-- ===== src/Queue/Fifo.antt =====
-- The queue as its clients see it, packets in order of arrival up to a limit, against `push` and
-- `pop` of `packet_queue.c`.
use ciot_vlc.Base.{
  ℕ, ◌≡◌, refl, ◌∙◌, Bool, true, false, Option, none, some, List, [], ◌∷◌, ◌++◌, arith, length,
  if◌then◌else◌, leb, ◌>>=◌, inl, inr, Bool-cases, leb→lt, leb→le, ap,
}
use ciot_vlc.Packet.{Packet}
use ciot_vlc.Queue.{Cell, cell, Heap, Queue, write}
use ciot_vlc.Queue
use ciot_vlc.Queue.Chain.{Items, has, IsQueue, uncons}
use ciot_vlc.Queue.Refine.{Pushed, push-append, push-full, pop-nil, pop-cons}

pub record Fifo : Type 0 where
  pub items : List Packet
  pub limit : ℕ

unfoldable pub push : Fifo → Packet → Bool × Fifo
push f x =
    if leb f.limit (length f.items)
    then (false, f)
    else (true, record f { items = f.items ++ x ∷ [] })

unfoldable pub pop : Fifo → Option Packet × Fifo
pop f = elim f.items [ [] ↦ (none, f) | x ∷ r ↦ (some x, record f { items = r }) ]

abbrev pub packets : Items → List Packet
packets [] = []
packets ((_, x) ∷ r) = x ∷ packets r

-- The structure and its nodes stand for the packets of `f`.
pub record Represents (h : Heap) (q : Queue) (f : Fifo) : Type 0 where
  pub nodes : Items
  pub holds : IsQueue h q nodes
  pub items : f.items ≡ packets nodes
  pub limit : q.limit ≡ f.limit

length-packets : (xs : Items) → length (packets xs) ≡ length xs
length-packets [] = refl
length-packets ((a, x) ∷ r) = omega (arith, length-packets r)

packets-append :
    (xs : Items) (a : ℕ) (x : Packet) → packets (xs ++ (a, x) ∷ []) ≡ packets xs ++ x ∷ []
packets-append [] a x = refl
packets-append ((b, y) ∷ r) a x = ap (λ l. y ∷ l) (packets-append r a x)

sizes :
    {h : Heap} {q : Queue} {f : Fifo} (rep : Represents h q f)
    → (q.size ≡ length f.items) × (q.limit ≡ f.limit)
sizes {f} rep = (
  omega (
    arith,
    rep.holds.size,
    length-packets rep.nodes,
    ap (λ (l : List Packet). length l) rep.items,
  ),
  rep.limit,
)

-- The answer of `push` and what it leaves, against the answer of the abstract queue.
pub record PushRefines (h : Heap) (q : Queue) (f : Fifo) (a : ℕ) (x : Packet) : Type 0 where
  pub heap : Heap
  pub queue : Queue
  pub returned : Queue.push (some q) (some a) h ≡ some ((push f x).0, some queue, heap)
  pub represents : Represents heap queue (push f x).1

-- Where the structure stands for the abstract queue, and `a` is an allocated node that it does not
-- hold: `push` answers as the abstract queue does, with what it leaves standing for what the
-- abstract queue leaves.
pub push_refines :
    {h : Heap} {q : Queue} {f : Fifo} (a : ℕ) (x : Packet) (n : Option ℕ)
    → (rep : Represents h q f) → has a rep.nodes ≡ false
    → h a ≡ some (cell x n)
    → PushRefines h q f a x
unfolding push
push_refines {h} {q} {f} a x n rep free at = elim (Bool-cases (leb f.limit (length f.items))) [
  | inl full ↦ record {
    heap = h;
    queue = q;
    returned = rw full (
        push-full a rep.holds
          (omega (arith, sizes rep, rep.holds.bound, leb→le f.limit (length f.items) full)));
    represents = rw full rep;
  }
  | inr room ↦
      let p : Pushed h q rep.nodes a x =
        push-append a x n rep.holds free at
          (omega (arith, sizes rep, leb→lt f.limit (length f.items) room)) in
      record {
        heap = p.heap;
        queue = p.queue;
        returned = rw room p.returned;
        represents = rw room (record {
          nodes = rep.nodes ++ (a, x) ∷ [];
          holds = p.holds;
          items = rw (rep.items, packets-append rep.nodes a x);
          limit = p.limit ∙ rep.limit;
        });
      }
]

-- The answer of `pop` on the heap, against the answer of the abstract queue: the node that it
-- gives holds the packet, and no node has changed.
pub record PopRefines (h : Heap) (q : Queue) (f : Fifo) : Type 0 where
  pub node : Option ℕ
  pub queue : Queue
  pub returned : Queue.pop (some q) h ≡ some (node, some queue, h)
  pub item : (node >>= h >>= λ c. some c.item) ≡ (pop f).0
  pub represents : Represents h queue (pop f).1

-- Where the structure stands for the abstract queue: `pop` gives a node with the packet that the
-- abstract queue gives, or NULL where it gives none, changes no node, and leaves a structure that
-- stands for what the abstract queue leaves.
pub pop_refines : {h : Heap} {q : Queue} {f : Fifo} → Represents h q f → PopRefines h q f
unfolding pop
pop_refines {h} {q} {f} rep = go rep.nodes rep.holds rep.items
  where
    go : (xs : Items) → IsQueue h q xs → f.items ≡ packets xs → PopRefines h q f
    go [] v e = record {
      node = none;
      queue = q;
      returned = pop-nil v;
      item = rw e;
      represents = rw e (record { nodes = []; holds = v; items = refl; limit = rep.limit });
    }
    go ((a, x) ∷ r) v e =
        let (n, at, here, out, c) = uncons v.chain in
        let (q', back, v', lim) = pop-cons a x r v in
        record {
          node = some a;
          queue = q';
          returned = back;
          item = rw (here, e);
          represents =
              rw e (record { nodes = r; holds = v'; items = refl; limit = lim ∙ rep.limit });
        }
