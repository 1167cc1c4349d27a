-- ===== src/Gateway/Unacked.antt =====
-- The array of unacknowledged packets of `gateway (eth)_gateway/main.c`: a search in it, and the
-- removal of an entry.
use ciot_vlc.Base.{
  append-nil, ℕ, zero, suc, ◌+◌, ◌-◌, ◌<◌, ◌≡◌, refl, ap, Bool, false, ◌||◌, none, some, List, [],
  ◌∷◌, ◌++◌, length, get_elem?, set, take, arith, Bool-cases, inl, inr, length-append,
  take_all_append,
}
use mathlib.Core.List.{Perm, perm_middle}
use mathlib.Core.List.Perm
use ciot_vlc.Packet.{Packet}
use ciot_vlc.Gateway.Produce.{swap_remove, is_packet, find_unacked}

-- Whether the array has the packet with number `j`.
abbrev pub found : ℕ → List Packet → Bool
found j [] = false
found j (p ∷ a) = is_packet j p || found j a

-- What the search gives.
pub data Search (j : ℕ) (a : List Packet) : Type 0 where
  absent : find_unacked j a ≡ none → found j a ≡ false → Search j a
  present :
      (l : ℕ) (x : Packet)
      → find_unacked j a ≡ some l
      → l < length a
      → get_elem? a l ≡ some x
      → Search j a

pub search : (j : ℕ) (a : List Packet) → Search j a
unfolding find_unacked
search j [] = absent refl refl
search j (p ∷ a) = elim (Bool-cases (is_packet j p)) [
  | inl here ↦ present 0 p (rw here refl) (omega arith) refl
  | inr other ↦ elim (search j a) [
    | absent e f ↦ absent (rw (other, e) refl) (rw (other, f) refl)
    | present l x e h at_l ↦ present (suc l) x (rw (other, e) refl) (omega arith) at_l
  ]
]

-- A list that is not empty ends in an entry.
data Snoc : List Packet → Type 0 where
  snoc : (init : List Packet) (z : Packet) → Snoc (init ++ z ∷ [])

cons-Snoc : (p : Packet) {a : List Packet} → Snoc a → Snoc (p ∷ a)
cons-Snoc p (snoc init z) = snoc (p ∷ init) z

last_of : (a : List Packet) → 0 < length a → Snoc a
last_of [] h = absurd (omega arith)
last_of (p ∷ []) h = snoc [] p
last_of (p ∷ q ∷ a) h = cons-Snoc p (last_of (q ∷ a) (omega arith))

get_last : (init : List Packet) (z : Packet) → get_elem? (init ++ z ∷ []) (length init) ≡ some z
get_last [] z = refl
get_last (p ∷ init) z = get_last init z

-- The last entry, written over entry `l`, is cut off at the end.
take-set :
    (init : List Packet) (z : Packet) (l : ℕ)
    → l < length init + 1
    → take (length init) (set (init ++ z ∷ []) l z) ≡ set init l z
take-set [] z l h = refl
take-set (p ∷ init) z zero h = ap (λ m. z ∷ m) (take_all_append (length init) init (z ∷ []) refl)
take-set (p ∷ init) z (suc l) h = ap (λ m. p ∷ m) (take-set init z l (omega arith))

to_end : (init : List Packet) (z : Packet) → Perm (z ∷ init) (init ++ z ∷ [])
to_end init z = Perm.symm (rw (append-nil init) at (perm_middle {a = z} init []))

set-Perm :
    (init : List Packet) (z : Packet) (l : ℕ) (x : Packet)
    → get_elem? (init ++ z ∷ []) l ≡ some x
    → Perm (x ∷ set init l z) (init ++ z ∷ [])
set-Perm [] z zero x e = let same : z ≡ x = cc in rw same (Perm.refl (x ∷ []))
set-Perm [] z (suc l) x e = absurd cc
set-Perm (p ∷ init) z zero x e = let same : p ≡ x = cc in rw same (Perm.cons x (to_end init z))
set-Perm (p ∷ init) z (suc l) x e =
    Perm.trans (Perm.swap p x (set init l z)) (Perm.cons p (set-Perm init z l x e))

found-append : (j : ℕ) (a b : List Packet) → found j (a ++ b) ≡ (found j a || found j b)
found-append j [] b = refl
found-append j (p ∷ a) b = ground (arith, found-append j a b)

found-set :
    (j : ℕ) (init : List Packet) (z : Packet) (l : ℕ)
    → found j (init ++ z ∷ []) ≡ false
    → found j (set init l z) ≡ false
found-set j [] z l h = refl
found-set j (p ∷ init) z zero h = ground (arith, found-append j init (z ∷ []))
found-set j (p ∷ init) z (suc l) h = ground (arith, found-set j init z l)

-- The array without entry `l`, which is `x`.
pub record Removed (a : List Packet) (l : ℕ) (x : Packet) (a' : List Packet) : Type 0 where
  pub gives : swap_remove a l ≡ some a'
  pub same : Perm (x ∷ a') a
  pub fewer : length a ≡ length a' + 1
  pub absent : (j : ℕ) → found j a ≡ false → found j a' ≡ false

length-set : (a : List Packet) (l : ℕ) (z : Packet) → length (set a l z) ≡ length a
length-set [] l z = refl
length-set (p ∷ a) zero z = refl
length-set (p ∷ a) (suc l) z = ap suc (length-set a l z)

swap_remove-Removed :
    {a : List Packet} (l : ℕ) (x : Packet)
    → Snoc a
    → l < length a
    → get_elem? a l ≡ some x
    → (a' : List Packet) × Removed a l x a'
unfolding swap_remove
swap_remove-Removed l x (snoc init z) h at_l =
    let size : length (init ++ z ∷ []) ≡ length init + 1 = length-append {0} init (z ∷ []) in
    let last : length (init ++ z ∷ []) - 1 ≡ length init = omega (arith, size) in
    (
      set init l z,
      record {
        gives = rw (last, get_last init z, take-set init z l (omega (arith, h, size))) refl;
        same = set-Perm init z l x at_l;
        fewer = omega (arith, size, length-set init l z);
        absent = λ j e. found-set j init z l e;
      },
    )

pub remove :
    (a : List Packet) (l : ℕ) (x : Packet)
    → l < length a
    → get_elem? a l ≡ some x
    → (a' : List Packet) × Removed a l x a'
remove a l x h at_l = swap_remove-Removed l x (last_of a (omega arith)) h at_l
