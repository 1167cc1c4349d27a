-- ===== src/VlcTx/Linked/Represents.antt =====
-- When linked packets stand for the lists of VlcTx/Pool.
use ciot_vlc.Base.{
  ℕ, suc, ◌≡◌, refl, ap, true, false, Option, none, some, List, [], ◌∷◌, ◌++◌, ◌==◌, length, arith,
  Bool-cases, inl, inr,
}
use ciot_vlc.VlcTx.Pool.{Driver}
use ciot_vlc.VlcTx.Linked.{PacketHeap, Linked, is_null}
use ciot_vlc.VlcTx.Linked.Chain.{Items, has, packet, Chain, nil, cons}

abbrev pub arrays : Items → List (List ℕ)
arrays [] = []
arrays ((_, x) ∷ r) = x ∷ arrays r

-- Each packet has its array of 2010 bytes.
abbrev pub AreWhole : Items → Type 0
AreWhole [] = Unit {0}
AreWhole ((_, x) ∷ r) = (length x ≡ 2010) × AreWhole r

-- The packets that are linked stand for the number of free packets and for the queue.
pub record Represents (s : Linked) (d : Driver) : Type 0 where
  pub pool : Items
  pub queue : Items
  pub free : Chain s.heap s.ppool pool
  pub waiting : Chain s.heap s.tx_queue queue
  pub apart : (a : ℕ) → has a pool ≡ true → has a queue ≡ false
  pub whole : AreWhole pool × AreWhole queue
  pub count : d.ppool ≡ length pool
  pub content : d.tx_queue ≡ arrays queue
  pub stopped : s.stopped ≡ d.stopped

pub arrays-append :
    (xs : Items) (a : ℕ) (x : List ℕ) → arrays (xs ++ (a, x) ∷ []) ≡ arrays xs ++ x ∷ []
arrays-append [] a x = refl
arrays-append ((b, y) ∷ xs) a x = ap (λ l. y ∷ l) (arrays-append xs a x)

pub AreWhole-append :
    (xs : Items) (a : ℕ) (x : List ℕ) → AreWhole xs → length x ≡ 2010 → AreWhole (xs ++ (a, x) ∷ [])
AreWhole-append [] a x v h = (h, tt)
AreWhole-append ((b, y) ∷ xs) a x v h = (v.0, AreWhole-append xs a x v.1 h)

pub length-arrays : (xs : Items) → length (arrays xs) ≡ length xs
length-arrays [] = refl
length-arrays ((a, x) ∷ r) = ap suc (length-arrays r)

pub uncons :
    {h : PacketHeap} {p : Option ℕ} {a : ℕ} {x : List ℕ} {r : Items}
    → Chain h p ((a, x) ∷ r)
    → (n : Option ℕ) × (k : ℕ) × (p ≡ some a)
      × (h a ≡ some (packet n k x))
      × (has a r ≡ false)
      × Chain h n r
uncons (cons {k} {n} e out c) = (n, k, refl, e, out, c)

pub null_queue : {h : PacketHeap} {p : Option ℕ} → Chain h p [] → p ≡ none
null_queue nil = refl

pub null_pool :
    {h : PacketHeap} {p : Option ℕ} {r : Items} → Chain h p r → is_null p ≡ (length r == 0)
null_pool nil = refl
null_pool (cons e out c) = ground arith

pub not_both :
    (b : ℕ) (xs ys : Items)
    → ((a : ℕ) → has a xs ≡ true → has a ys ≡ false)
    → has b ys ≡ true
    → has b xs ≡ false
not_both b xs ys apart h = elim (Bool-cases (has b xs)) [
  | inl both ↦ absurd (ground (arith, apart b both))
  | inr out ↦ out
]
