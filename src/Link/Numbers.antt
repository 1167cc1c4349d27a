-- ===== src/Link/Numbers.antt =====
-- The numbers 0 to `n - 1` at a node that received them.
use ciot_vlc.Base.{
  ℕ, zero, suc, ◌+◌, ◌<◌, ◌≡◌, sym, ◌∙◌, true, false, ◌||◌, List, [], ◌∷◌, ◌++◌, ◌==◌, ltb, arith,
}
use ciot_vlc.Gateway.Flow.{upto}
use ciot_vlc.Node.Track.{mem, Tracks, AreBelow}
use ciot_vlc.Node.Status.{NodeStatus}

AreBelow-append : (b i : ℕ) (l : List ℕ) → AreBelow b l → i + 1 < b → AreBelow b (l ++ i ∷ [])
AreBelow-append b i [] v h = (h, tt)
AreBelow-append b i (j ∷ l) v h = (v.0, AreBelow-append b i l v.1 h)

pub AreBelow-upto : (b n : ℕ) → n < b → AreBelow b (upto n)
AreBelow-upto b zero h = tt
AreBelow-upto b (suc n) h =
    AreBelow-append b n (upto n) (AreBelow-upto b n (omega arith)) (omega arith)

mem-append : (j i : ℕ) (l : List ℕ) → mem j (l ++ i ∷ []) ≡ (mem j l || (i == j))
mem-append j i [] = ground arith
mem-append j i (k ∷ l) = ground (arith, mem-append j i l)

mem-upto : (j n : ℕ) → mem j (upto n) ≡ ltb j n
mem-upto j zero = ground arith
mem-upto j (suc n) = ground (arith, mem-append j n (upto n), mem-upto j n)

-- A node that received exactly 0 to `n - 1` acknowledges up to `n`.
pub first_missing :
    {max bound n : ℕ} {s : NodeStatus} {seqs : List ℕ}
    → Tracks max bound s seqs
    → seqs ≡ upto n
    → s.rcv_seq ≡ n
first_missing {n} {s} {seqs} t e =
    let at_least : ltb s.rcv_seq n ≡ false = sym (mem-upto s.rcv_seq n) ∙ rw e at t.first in
    let at_most : n < s.rcv_seq → ltb n n ≡ true =
      λ h. sym (mem-upto n n) ∙ rw e at (t.below n h) in
    ground (arith, at_least, at_most)
