-- ===== src/VlcTx/Linked/Chain.antt =====
-- Chains of packets on the heap.
use ciot_vlc.Base.{
  ℕ, zero, suc, ◌≤◌, ◌≡◌, refl, ◌∙◌, Bool, Bool-cases, inl, inr, true, false, ◌||◌, Option, none,
  some, List, [], ◌∷◌, ◌++◌, ◌==◌, length, arith,
}
use ciot_vlc.VlcTx.Linked.{VlcPacket, PacketHeap, write, find_last}

-- Address and array of each packet, in order.
abbrev pub Items : Type 0
Items = List (ℕ × List ℕ)

abbrev pub has : ℕ → Items → Bool
has a [] = false
has a ((b, _) ∷ r) = (b == a) || has a r

abbrev pub packet : Option ℕ → ℕ → List ℕ → VlcPacket
packet n k x = record { next = n; datalen = k; data_array = x }

-- From a pointer, the links lead through the distinct packets of the list to NULL.
pub data Chain (h : PacketHeap) : Option ℕ → Items → Type 0 where
  nil : Chain h none []
  cons :
      {a k : ℕ} {x : List ℕ} {n : Option ℕ} {r : Items}
      → h a ≡ some (packet n k x)
      → has a r ≡ false
      → Chain h n r
      → Chain h (some a) ((a, x) ∷ r)

-- A chain survives any change that spares its own packets.
pub frame :
    {h g : PacketHeap} {p : Option ℕ} {xs : Items}
    → Chain h p xs
    → ((b : ℕ) → has b xs ≡ true → g b ≡ h b)
    → Chain g p xs
frame nil same = nil
frame (cons {a} {k} e out c) same =
    cons {k = k} (same a (ground arith) ∙ e) out (frame c (λ b m. same b (ground arith)))

-- One packet is in the list and another is not, so they differ.
pub has-other : (b p : ℕ) (xs : Items) → has b xs ≡ true → has p xs ≡ false → (b == p) ≡ false
has-other b p xs h k = elim (Bool-cases (b == p)) [
  | inl same ↦ let e : b ≡ p = ground arith in absurd (ground (arith, rw e at h, k))
  | inr other ↦ other
]

-- A write to another packet is such a change.
pub frame-write :
    {h : PacketHeap} {p : Option ℕ} {xs : Items} (a : ℕ) (c : VlcPacket)
    → Chain h p xs
    → has a xs ≡ false
    → Chain (write h a c) p xs
frame-write {xs} a c v out =
    frame v (λ b m. let other = has-other b a xs m out in ground (arith, other))

pub has-append : (b : ℕ) (xs ys : Items) → has b (xs ++ ys) ≡ (has b xs || has b ys)
has-append b [] ys = refl
has-append b ((c, y) ∷ xs) ys = ground (arith, has-append b xs ys)

-- The loop finds the last packet of a chain that is not empty, where it has a step for each packet;
-- linking that packet to a new one makes the chain longer.
pub record Extends (fuel : ℕ) (h : PacketHeap) (p : ℕ) (xs : Items) (a : ℕ) (x : List ℕ)
    : Type 0 where
  pub last : ℕ
  pub found : find_last fuel h p ≡ some last
  pub size : ℕ
  pub body : List ℕ
  pub there : h last ≡ some (packet none size body)
  pub inside : has last xs ≡ true
  pub longer : Chain (write h last (packet (some a) size body)) (some p) (xs ++ (a, x) ∷ [])

pub extend :
    {h : PacketHeap} {p : ℕ} {xs : Items} (fuel k a : ℕ) (x : List ℕ)
    → Chain h (some p) xs
    → length xs ≤ fuel
    → has a xs ≡ false
    → h a ≡ some (packet none k x)
    → Extends fuel h p xs a x
unfolding find_last
extend {h} zero k a x (cons {r} e out c) enough free new = absurd (omega arith)
extend {h} {p} (suc fuel) k a x (cons {k = size} {x = body} e out nil) enough free new =
    let other : (p == a) ≡ false = ground (arith, free) in
    record {
      last = p;
      found = rw e refl;
      size = size;
      body = body;
      there = e;
      inside = ground arith;
      longer =
          cons {k = size} (ground arith) (ground (arith, other))
            (cons {k = k} (rw other new) refl nil);
    }
extend {h} {p} (suc fuel) k a x
      (cons {k = size} {x = body} {n} e out (cons {a = q} {x = z} {r = r} f o c)) enough free new =
    let v = extend fuel k a x (cons {r = r} f o c) (omega arith) (ground (arith, free)) new in
    let apart : (v.last == p) ≡ false = has-other v.last p ((q, z) ∷ r) v.inside out in
    let fresh : has p (((q, z) ∷ r) ++ (a, x) ∷ []) ≡ false =
      ground (arith, has-append p ((q, z) ∷ r) ((a, x) ∷ []), out, free) in
    record {
      last = v.last;
      found = rw e v.found;
      size = v.size;
      body = v.body;
      there = v.there;
      inside = ground (arith, v.inside);
      longer = cons {k = size} (rw apart e) fresh v.longer;
    }
