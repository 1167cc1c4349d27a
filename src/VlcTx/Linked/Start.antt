-- ===== src/VlcTx/Linked/Start.antt =====
-- The linked packets after `vlc_setup_pool`.
use ciot_vlc.Base.{
  ℕ, suc, ◌+◌, ◌≡◌, refl, sym, ◌∙◌, false, Option, none, some, List, [], ◌∷◌, length, arith,
}
use ciot_vlc.VlcTx.Pool.{Driver}
use ciot_vlc.VlcTx.Linked.{VlcPacket, PacketHeap, write, Linked, vlc_setup_pool}
use ciot_vlc.VlcTx.Linked.Chain.{Items, has, Chain, nil, cons, frame-write}
use ciot_vlc.VlcTx.Linked.Represents.{AreWhole, Represents}

-- How many rounds of the loop get memory before the first NULL.
abbrev pub allocated : List (Option (ℕ × VlcPacket)) → ℕ
allocated [] = 0
allocated (none ∷ answers) = 0
allocated (some _ ∷ answers) = suc (allocated answers)

-- Each address is new, and its packet has an array of 2010 bytes.
abbrev pub AreNew : List (Option (ℕ × VlcPacket)) → Items → Type 0
AreNew [] pool = Unit {0}
AreNew (none ∷ answers) pool = Unit {0}
AreNew (some (a, c) ∷ answers) pool =
    (has a pool ≡ false) × (length c.data_array ≡ 2010) × AreNew answers ((a, c.data_array) ∷ pool)

-- A pool of linked packets, beside which nothing waits.
record IsPool (n : ℕ) (s : Linked) : Type 0 where
  pool : Items
  free : Chain s.heap s.ppool pool
  whole : AreWhole pool
  count : n ≡ length pool
  empty : s.tx_queue ≡ none
  runs : s.stopped ≡ false

vlc_setup_pool-IsPool :
    (answers : List (Option (ℕ × VlcPacket))) (n : ℕ) (s : Linked) (v : IsPool n s)
    → AreNew answers v.pool
    → IsPool (allocated answers + n) (vlc_setup_pool answers s)
unfolding vlc_setup_pool
vlc_setup_pool-IsPool [] n s v new = let same : n ≡ 0 + n = omega arith in rw same at v
vlc_setup_pool-IsPool (none ∷ answers) n s v new =
    let same : n ≡ 0 + n = omega arith in rw same at v
vlc_setup_pool-IsPool (some (a, c) ∷ answers) n s v (out, size, new) =
    let c' : VlcPacket = record c { next = s.ppool } in
    let s1 : Linked = record s { ppool = some a; heap = write s.heap a c' } in
    let w : IsPool (suc n) s1 = record {
      pool = (a, c.data_array) ∷ v.pool;
      free = cons {k = c.datalen} (ground arith) out (frame-write a c' v.free out);
      whole = (size, v.whole);
      count = omega (arith, v.count);
      empty = v.empty;
      runs = v.runs;
    } in
    let m : ℕ = allocated answers in
    let sum : m + suc n ≡ suc m + n = omega arith in
    rw sum at (vlc_setup_pool-IsPool answers (suc n) s1 w new)

-- With answers of `kmalloc` that are new addresses up to the first NULL, if there is one: after
-- `vlc_setup_pool` on no packets the linked packets stand for a driver with as many free packets as
-- there were answers before it, and none waiting.
pub vlc_setup_pool-Represents :
    (answers : List (Option (ℕ × VlcPacket))) (heap : PacketHeap) (d : Driver)
    → AreNew answers []
    → d.ppool ≡ allocated answers
    → d.tx_queue ≡ []
    → d.stopped ≡ false
    → Represents
        (vlc_setup_pool answers
          (record { ppool = none; tx_queue = none; stopped = false; heap = heap }))
        d
vlc_setup_pool-Represents answers heap d new free none_waits runs =
    let s : Linked = record { ppool = none; tx_queue = none; stopped = false; heap = heap } in
    let v =
      vlc_setup_pool-IsPool answers 0 s
        (record { pool = []; free = nil; whole = tt; count = refl; empty = refl; runs = refl })
        new in
    record {
      pool = v.pool;
      queue = [];
      free = v.free;
      waiting = rw v.empty nil;
      apart = λ a h. refl;
      whole = (v.whole, tt);
      count = omega (arith, free, v.count);
      content = none_waits;
      stopped = v.runs ∙ sym runs;
    }
