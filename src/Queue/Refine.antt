-- ===== src/Queue/Refine.antt =====
-- `push` and `pop` of `packet_queue.c` on a well-formed queue.
use ciot_vlc.Base.{
  ℕ, ◌+◌, ◌-◌, ◌<◌, ◌≡◌, refl, sym, true, false, Option, none, some, [], ◌∷◌, ◌++◌, arith,
  length-append,
}
use ciot_vlc.Packet.{Packet}
use ciot_vlc.Queue.{cell, Heap, Queue, write, construct_queue, is_empty, push, pop}
use ciot_vlc.Queue.Chain.{
  Items, has, nil, cons, IsQueue, frame, has-last, has-append, last_or-append, last_some, last_rest,
  uncons, extend,
}

-- What `construct_queue` gives holds no packet.
pub construct_queue-IsQueue :
    (h : Heap) (limit : ℕ) → (q : Queue) × (construct_queue true limit ≡ some q) × IsQueue h q []
unfolding construct_queue
construct_queue-IsQueue h limit =
    (_, refl, record { chain = nil; tail = refl; size = refl; bound = omega arith })

module _ {h : Heap} {q : Queue} where
  pub is_empty-nil : IsQueue h q [] → is_empty (some q) ≡ true
  unfolding is_empty
  is_empty-nil v = ground arith

  pub is_empty-cons : {x : ℕ × Packet} {r : Items} → IsQueue h q (x ∷ r) → is_empty (some q) ≡ false
  unfolding is_empty
  is_empty-cons v = ground arith

  pub pop-nil : IsQueue h q [] → pop (some q) h ≡ some (none, some q, h)
  unfolding pop
  pop-nil v = ground arith

  -- `pop` gives the first node and leaves the rest; no node changes.
  pub pop-cons :
      (a : ℕ) (x : Packet) (r : Items)
      → IsQueue h q ((a, x) ∷ r)
      → (q' : Queue) × (pop (some q) h ≡ some (some a, some q', h))
        × IsQueue h q' r
        × (q'.limit ≡ q.limit)
  unfolding pop
  pop-cons a x r v =
      let (n, at, e, out, c) = uncons v.chain in
      (
        record q { head = n; size = q.size - 1 },
        ground arith,
        record {
          chain = c;
          tail = last_rest q.tail a r v.tail;
          size = omega (arith, v.size);
          bound = omega (arith, v.bound);
        },
        refl,
      )

  -- A full queue refuses a node and nothing changes.
  pub push-full :
      (a : ℕ) {xs : Items}
      → IsQueue h q xs
      → q.size ≡ q.limit
      → push (some q) (some a) h ≡ some (false, some q, h)
  unfolding push
  push-full a v e = ground arith

-- `h'` differs from `h` at most at the nodes of the list.
abbrev pub SameOutside : Items → Heap → Heap → Type 0
SameOutside xs h h' = (b : ℕ) → has b xs ≡ false → h' b ≡ h b

-- What a successful `push` of the node `a` with packet `x` leaves.
pub record Pushed (h : Heap) (q : Queue) (xs : Items) (a : ℕ) (x : Packet) : Type 0 where
  pub heap : Heap
  pub queue : Queue
  pub returned : push (some q) (some a) h ≡ some (true, some queue, heap)
  pub holds : IsQueue heap queue (xs ++ (a, x) ∷ [])
  pub limit : queue.limit ≡ q.limit
  pub outside : SameOutside (xs ++ (a, x) ∷ []) h heap

pub push-append :
    {h : Heap} {q : Queue} {xs : Items} (a : ℕ) (x : Packet) (n : Option ℕ)
    → IsQueue h q xs
    → has a xs ≡ false
    → h a ≡ some (cell x n)
    → q.size < q.limit
    → Pushed h q xs a x
unfolding push write
push-append {h} {q} {xs = []} a x n v free at room = record {
  heap = write h a (some (cell x none));
  queue = record q { head = some a; tail = some a; size = q.size + 1 };
  returned = ground arith;
  holds = record {
    chain = cons (ground arith) refl nil;
    tail = refl;
    size = omega (arith, v.size);
    bound = omega arith;
  };
  limit = refl;
  outside = λ b o. ground arith;
}
push-append {h} {q} {xs = (c, z) ∷ r} a x n v free at room =
    let (t, end) = last_some c r in
    let h1 : Heap = write h a (some (cell x none)) in
    let (y, old, longer) =
      extend {h = h1} (c, z) r t a x (frame v.chain (λ b m. ground arith)) free (ground arith)
        end in
    record {
      heap = write h1 t (some (cell y (some a)));
      queue = record q { tail = some a; size = q.size + 1 };
      returned = ground (arith, v.tail, end, old, v.size);
      holds = record {
        chain = longer;
        tail = sym (last_or-append (some a) ((c, z) ∷ r) a x);
        size = omega (arith, v.size, length-append {0} r ((a, x) ∷ []));
        bound = omega arith;
      };
      limit = refl;
      outside =
          λ b o. ground (arith, has-last c t z r end, has-append b ((c, z) ∷ r) ((a, x) ∷ []));
    }
