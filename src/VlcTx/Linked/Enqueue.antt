-- ===== src/VlcTx/Linked/Enqueue.antt =====
-- `vlc_tx` on the linked packets against the lists of VlcTx/Pool.
use ciot_vlc.Base.{
  ℕ, ◌+◌, ◌≤◌, ◌<◌, ◌≡◌, refl, ap, ap₂, ◌∙◌, Bool, true, false, ◌||◌, Option, none, some, List, [],
  ◌∷◌, ◌++◌, ◌==◌, if◌then◌else◌, length, drop, arith, le→leb, length-append, length-drop,
}
use ciot_vlc.VlcTx.Pool.{Driver, write_next}
use ciot_vlc.VlcTx.Pool
use ciot_vlc.VlcTx.Linked.{
  PacketHeap, write, Linked, is_null, vlc_get_tx_buffer, set_next, vlc_enqueue_pkt, fill, vlc_tx,
}
use ciot_vlc.VlcTx.Linked.Chain.{
  Items, has, packet, Chain, nil, cons, frame-write, has-append, has-other, extend,
}
use ciot_vlc.VlcTx.Linked.Represents.{
  AreWhole, Represents, arrays-append, AreWhole-append, length-arrays, uncons, null_pool, not_both,
}

-- At the end of a queue: the packet is linked behind the last one.
enqueued :
    {h : PacketHeap} {p : Option ℕ} {xs : Items} (fuel k a : ℕ) (x : List ℕ) (s : Linked)
    → s.heap ≡ h
    → s.tx_queue ≡ p
    → Chain h p xs
    → length xs ≤ fuel
    → has a xs ≡ false
    → h a ≡ some (packet none k x)
    → (s' : Linked) × (vlc_enqueue_pkt fuel a s ≡ some s')
      × (s'.ppool ≡ s.ppool)
      × (s'.stopped ≡ s.stopped)
      × Chain s'.heap s'.tx_queue (xs ++ (a, x) ∷ [])
      × ((q : Option ℕ) (ys : Items)
          → Chain h q ys
          → ((b : ℕ) → has b ys ≡ true → has b xs ≡ false)
          → Chain s'.heap q ys)
unfolding vlc_enqueue_pkt set_next
enqueued {h} fuel k a x s eh ep nil enough free new = (
  record s { tx_queue = some a },
  rw ep refl,
  refl,
  refl,
  cons {k = k} (rw eh new) refl nil,
  λ q ys c apart. rw eh c,
)
enqueued {h} {xs} fuel k a x s eh ep (cons {a = b} {k = size} {x = y} {n} {r} e out c) enough free
      new =
    let v = extend fuel k a x (cons {k = size} e out c) enough free new in
    let linked : PacketHeap = write h v.last (packet (some a) v.size v.body) in
    (
      record s { heap = linked },
      rw (ep, eh, v.found, v.there) refl,
      refl,
      refl,
      rw ep v.longer,
      λ q ys d apart.
          frame-write v.last (packet (some a) v.size v.body) d
            (not_both v.last ys xs apart v.inside),
    )

if_or : (b c : Bool) → (if b then true else c) ≡ (b || c)
if_or true c = refl
if_or false c = refl

get_first :
    {a k : ℕ} {n : Option ℕ} {x : List ℕ} (s : Linked)
    → s.ppool ≡ some a
    → s.heap a ≡ some (packet n k x)
    → vlc_get_tx_buffer s
      ≡ some (a, record s { ppool = n; stopped = if is_null n then true else s.stopped })
unfolding vlc_get_tx_buffer
get_first s e at = rw (e, at) refl

fill_first :
    {a k : ℕ} {n : Option ℕ} {x : List ℕ} (skb : List ℕ) (h : PacketHeap)
    → h a ≡ some (packet n k x)
    → length skb ≤ length x
    → fill skb a h ≡ some (write h a (packet none (length skb) (skb ++ drop (length skb) x)))
unfolding fill
fill_first {x} skb h at fits = rw (at, le→leb (length skb) (length x) fits) refl

-- A call of `vlc_tx` on the linked packets, against the lists.
pub record SameCall (fuel : ℕ) (skb : List ℕ) (s : Linked) (d : Driver) : Type 0 where
  pub linked : Linked
  pub rest : List ℕ
  pub driver : Driver
  pub returned : vlc_tx fuel skb s ≡ some linked
  pub abstract_tx : Pool.vlc_tx skb rest d ≡ some driver
  pub size : length skb + length rest ≡ 2010
  pub represents : Represents linked driver

-- Where the linked packets stand for the lists of the pool's model, at least one packet is free, the
-- frame has at most 2010 bytes, and the loop has a step for each packet that waits: `vlc_tx` on the
-- heap, which walks to the last packet, does not fault or run out of fuel, `vlc_tx` of the pool's
-- model does not fault for some rest of an array, and what the one leaves stands for what the other
-- leaves: the frame is at the end of the queue, in a packet that was free.
pub vlc_tx_refines :
    {s : Linked} {d : Driver} (fuel : ℕ) (skb : List ℕ)
    → Represents s d
    → 0 < d.ppool
    → length d.tx_queue ≤ fuel
    → length skb ≤ 2010
    → SameCall fuel skb s d
unfolding vlc_tx Pool.vlc_tx Pool.vlc_get_tx_buffer
vlc_tx_refines {s} {d} fuel skb v some_free enough fits = go v.pool v.free v.apart v.whole.0 v.count
  where
    go :
        (pool : Items)
        → Chain s.heap s.ppool pool
        → ((a : ℕ) → has a pool ≡ true → has a v.queue ≡ false)
        → AreWhole pool
        → d.ppool ≡ length pool
        → SameCall fuel skb s d
    go [] c apart w e = absurd (omega (arith, e, some_free))
    go ((a, x) ∷ r) c apart w e =
        let (n, k, at_pool, at, out, rest_chain) = uncons c in
        let rest : List ℕ = drop (length skb) x in
        let body : List ℕ = skb ++ rest in
        let heap : PacketHeap = write s.heap a (packet none (length skb) body) in
        let s1 : Linked = record s {
          ppool = n;
          stopped = if is_null n then true else s.stopped;
          heap = heap;
        } in
        let mine : has a v.queue ≡ false = apart a (ground arith) in
        let few : length v.queue ≤ fuel =
          omega (
            arith,
            enough,
            length-arrays v.queue,
            ap (λ (l : List (List ℕ)). length l) v.content,
          ) in
        let (s2, run, same_pool, same_stop, queue, kept) =
          enqueued fuel (length skb) a body s1 refl refl
            (frame-write a (packet none (length skb) body) v.waiting mine) few mine
            (ground arith) in
        let whole : length skb + length rest ≡ 2010 =
          omega (arith, w.0, length-drop {0} (length skb) x) in
        let others : (b : ℕ) → has b r ≡ true → has b v.queue ≡ false =
          λ b h. apart b (ground (arith, h)) in
        let driver : Driver = record d {
          ppool = length r;
          stopped = (length r == 0) || d.stopped;
          tx_queue = d.tx_queue ++ body ∷ [];
        } in
        record {
          linked = s2;
          rest = rest;
          driver = driver;
          returned =
              rw (get_first s at_pool at, fill_first skb s.heap at (omega (arith, w.0, fits))) run;
          abstract_tx = rw (e, le→leb (length skb) 2010 fits) refl;
          size = whole;
          represents = record {
            pool = r;
            queue = v.queue ++ (a, body) ∷ [];
            free =
                rw same_pool
                  (kept n r (frame-write a (packet none (length skb) body) rest_chain out) others);
            waiting = queue;
            apart = λ b h.
                let other = has-other b a r h out in
                ground (arith, has-append b v.queue ((a, body) ∷ []), others b h, other);
            whole = (
              w.1,
              AreWhole-append v.queue a body v.whole.1
                  (omega (arith, length-append {0} skb rest, whole)),
            );
            count = refl;
            content = rw (v.content, arrays-append v.queue a body) refl;
            stopped =
                same_stop
                ∙ if_or (is_null n) s.stopped
                ∙ ap₂ (λ b c. b || c) (null_pool rest_chain) v.stopped;
          };
        }
