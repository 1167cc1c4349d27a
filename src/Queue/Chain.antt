-- ===== src/Queue/Chain.antt =====
-- Chains of nodes on the heap, and when a queue structure holds given packets.
use ciot_vlc.Base.{
  ℕ, ◌≤◌, ◌≡◌, refl, Bool, true, false, ◌||◌, Option, none, some, List, [], ◌∷◌, ◌++◌, arith, ◌==◌,
  length,
}
use ciot_vlc.Packet.{Packet}
use ciot_vlc.Queue.{cell, Heap, Queue, write}

-- Address and packet of each node, in order.
abbrev pub Items : Type 0
Items = List (ℕ × Packet)

abbrev pub has : ℕ → Items → Bool
has a [] = false
has a ((b, _) ∷ r) = (b == a) || has a r

-- From a pointer, the links lead through the distinct nodes of the list to NULL.
pub data Chain (h : Heap) : Option ℕ → Items → Type 0 where
  nil : Chain h none []
  cons :
      {a : ℕ} {x : Packet} {n : Option ℕ} {r : Items}
      → h a ≡ some (cell x n)
      → has a r ≡ false
      → Chain h n r
      → Chain h (some a) ((a, x) ∷ r)

abbrev pub last_or : Option ℕ → Items → Option ℕ
last_or t [] = t
last_or t ((a, _) ∷ r) = last_or (some a) r

-- The queue holds these nodes. Of an empty queue the tail says nothing.
pub record IsQueue (h : Heap) (q : Queue) (xs : Items) : Type 0 where
  pub chain : Chain h q.head xs
  pub tail : q.tail ≡ last_or q.tail xs
  pub size : q.size ≡ length xs
  pub bound : q.size ≤ q.limit

-- A chain survives any change that spares its own nodes.
pub frame :
    {h g : Heap} {p : Option ℕ} {xs : Items}
    → Chain h p xs
    → ((b : ℕ) → has b xs ≡ true → g b ≡ h b)
    → Chain g p xs
frame nil same = nil
frame (cons {a} e out c) same =
    cons (ground (arith, same a)) out (frame c (λ b m. same b (ground arith)))

pub has-last :
    (a t : ℕ) (x : Packet) (r : Items) → last_or (some a) r ≡ some t → has t ((a, x) ∷ r) ≡ true
has-last a t x [] e = ground arith
has-last a t x ((b, y) ∷ r) e = ground (arith, has-last b t y r)

pub has-append : (b : ℕ) (xs ys : Items) → has b (xs ++ ys) ≡ (has b xs || has b ys)
has-append b [] ys = refl
has-append b ((c, y) ∷ xs) ys = ground (arith, has-append b xs ys)

pub last_or-append :
    (t : Option ℕ) (xs : Items) (a : ℕ) (x : Packet) → last_or t (xs ++ (a, x) ∷ []) ≡ some a
last_or-append t [] a x = refl
last_or-append t ((b, y) ∷ r) a x = last_or-append (some b) r a x

pub last_some : (a : ℕ) (r : Items) → (t : ℕ) × (last_or (some a) r ≡ some t)
last_some a [] = (a, refl)
last_some a ((b, y) ∷ r) = last_some b r

pub last_rest : (t : Option ℕ) (a : ℕ) (r : Items) → t ≡ last_or (some a) r → t ≡ last_or t r
last_rest t a [] e = refl
last_rest t a ((b, y) ∷ r) e = e

pub uncons :
    {h : Heap} {p : Option ℕ} {a : ℕ} {x : Packet} {r : Items}
    → Chain h p ((a, x) ∷ r)
    → (n : Option ℕ) × (p ≡ some a) × (h a ≡ some (cell x n)) × (has a r ≡ false) × Chain h n r
uncons (cons {n} e out c) = (n, refl, e, out, c)

pub head_of_nil : {h : Heap} {p : Option ℕ} → Chain h p [] → p ≡ none
head_of_nil nil = refl

-- The last node of a chain links to NULL; linking it to a new node makes the chain longer.
abbrev pub Extended : Heap → Option ℕ → Items → ℕ → ℕ → Packet → Type 0
Extended h p xs t a x =
    (y : Packet) × (h t ≡ some (cell y none))
    × Chain (write h t (some (cell y (some a)))) p (xs ++ (a, x) ∷ [])

pub extend :
    {h : Heap} {p : Option ℕ} (c : ℕ × Packet) (r : Items) (t a : ℕ) (x : Packet)
    → Chain h p (c ∷ r)
    → has a (c ∷ r) ≡ false
    → h a ≡ some (cell x none)
    → last_or none (c ∷ r) ≡ some t
    → Extended h p (c ∷ r) t a x
unfolding write
extend {h} (b, y) [] t a x (cons e out nil) free new last =
    (y, ground arith, cons (ground arith) (ground arith) (cons (ground arith) refl nil))
extend {h} (b, y) ((d, z) ∷ r) t a x (cons e out c) free new last =
    let (w, old, longer) = extend (d, z) r t a x c (ground arith) new last in
    (
      w,
      old,
      cons (ground (arith, has-last d t z r))
          (ground (arith, has-append b ((d, z) ∷ r) ((a, x) ∷ []))) longer,
    )
