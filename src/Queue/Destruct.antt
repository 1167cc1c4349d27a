-- ===== src/Queue/Destruct.antt =====
-- `destruct_queue` of `packet_queue.c`.
use ciot_vlc.Base.{
  ℕ, zero, suc, ◌<◌, ◌≡◌, refl, true, false, Option, none, some, [], ◌∷◌, arith, ◌>>=◌,
  if◌then◌else◌, length,
}
use ciot_vlc.Queue.{Cell, Heap, Queue, write, is_empty, pop}
use ciot_vlc.Queue.Chain.{Items, has, IsQueue, uncons, frame}
use ciot_vlc.Queue.Refine.{is_empty-nil, is_empty-cons, pop-cons}

-- `free(p)`; `free(NULL)` does nothing.
unfoldable pub free : Option ℕ → Heap → Option Heap
free none h = some h
free (some a) h = do c ← h a; some (write h a none)

-- The loop, on fuel; the queue structure itself is freed at the end.
unfoldable pub destruct_queue : ℕ → Option Queue → Heap → Option Heap
destruct_queue zero q h = none
destruct_queue (suc k) q h = elim (is_empty q) [
  | true ↦ some h
  | false ↦ do (p, q', h1) ← pop q h; h2 ← free p h1; destruct_queue k q' h2
]

-- A queue does not see the change of a node that it does not hold.
kept :
    {h : Heap} {q : Queue} {xs : Items} (a : ℕ) (c : Option Cell)
    → has a xs ≡ false
    → IsQueue h q xs
    → IsQueue (write h a c) q xs
unfolding write
kept a c out v = record {
  chain = frame v.chain (λ b m. ground arith);
  tail = v.tail;
  size = v.size;
  bound = v.bound;
}

-- On a well-formed queue, with more fuel than packets, the loop ends with the nodes of the queue
-- free and all others as before.
pub destruct_queue_lem :
    (xs : Items) (k : ℕ) {h : Heap} {q : Queue}
    → IsQueue h q xs
    → length xs < k
    → (g : Heap) × (destruct_queue k (some q) h ≡ some g)
      × ((b : ℕ) → g b ≡ (if has b xs then none else h b))
unfolding destruct_queue free write
destruct_queue_lem xs zero v l = absurd (omega arith)
destruct_queue_lem [] (suc k) {h} {q} v l = (h, rw (is_empty-nil v, destruct_queue), λ b. refl)
destruct_queue_lem ((a, x) ∷ r) (suc k) {h} {q} v l =
    let (n, at, here, out, c) = uncons v.chain in
    let (q', back, v', lim) = pop-cons a x r v in
    let (g, run, freed) =
      destruct_queue_lem r k {h = write h a none} {q = q'} (kept a none out v') (omega arith) in
    (g, rw (is_empty-cons v, back, here, destruct_queue) run, λ b. ground (arith, freed b))
