-- ===== src/Report/Bits.antt =====
-- Eight bits packed into a byte and unpacked, the first bit at the top.
use Prim.Native.Nat.{bit_or}
use ciot_vlc.Base.{
  ℕ, zero, suc, ◌-◌, ◌*◌, ◌%◌, ◌^◌, ◌+◌, ◌≤◌, ◌<◌, ◌≡◌, refl, Bool, true, false, ◌&&◌, List, [],
  ◌∷◌, arith, ◌==◌, length, some, take, drop, drop_step, Bool-cases, inl, inr,
}
use ciot_vlc.Report.{pack_bits, unpack_bits}

-- Each entry is 0 or 1.
abbrev pub IsBits : List ℕ → Type 0
IsBits [] = Unit {0}
IsBits (b ∷ l) = (b < 2) × IsBits l

-- What `pack_bits` makes of a list of bits.
unfoldable pub byte_of : ℕ → List ℕ → ℕ → ℕ
byte_of n_shift [] temp_byte = temp_byte
byte_of n_shift (b ∷ l) temp_byte = byte_of (n_shift - 1) l (bit_or temp_byte (b % 2 * 2 ^ n_shift))

pub pack_bits-byte_of :
    (n j k t : ℕ) (pattern : List ℕ)
    → j + n ≤ length pattern
    → pack_bits n j k pattern t ≡ some (byte_of k (take n (drop j pattern)) t)
unfolding pack_bits byte_of
pack_bits-byte_of zero j k t pattern h = refl
pack_bits-byte_of (suc n) j k t pattern h =
    let (b, e, d) = drop_step pattern j (omega arith) in
    rw (e, d, pack_bits-byte_of n (suc j) (k - 1) (bit_or t (b % 2 * 2 ^ k)) pattern (omega arith))
      refl

same : List ℕ → List ℕ → Bool
same [] [] = true
same (a ∷ l) (b ∷ m) = (a == b) && same l m
same _ _ = false

same_sound : (l m : List ℕ) → same l m ≡ true → l ≡ m
unfolding same
same_sound [] [] e = refl
same_sound [] (b ∷ m) e = cc
same_sound (a ∷ l) [] e = cc
same_sound (a ∷ l) (b ∷ m) e = ground (arith, same_sound l m)

and_left : (a b : Bool) → (a && b) ≡ true → a ≡ true
and_left a b h = ground arith

and_right : (a b : Bool) → (a && b) ≡ true → b ≡ true
and_right a b h = ground arith

-- The test on every list of `n` bits.
all_bits : ℕ → (List ℕ → Bool) → Bool
all_bits zero p = p []
all_bits (suc n) p = all_bits n (λ l. p (0 ∷ l)) && all_bits n (λ l. p (1 ∷ l))

all_bits_sound :
    (n : ℕ) (p : List ℕ → Bool) (l : List ℕ)
    → all_bits n p ≡ true
    → IsBits l
    → length l ≡ n
    → p l ≡ true
unfolding all_bits
all_bits_sound zero p [] e v len = e
all_bits_sound zero p (b ∷ l) e v len = absurd (omega (arith, len))
all_bits_sound (suc n) p [] e v len = absurd (omega (arith, len))
all_bits_sound (suc n) p (zero ∷ l) e v len =
    all_bits_sound n (λ m. p (0 ∷ m)) l (ground arith) v.1 (omega (arith, len))
all_bits_sound (suc n) p (suc zero ∷ l) e v len =
    all_bits_sound n (λ m. p (1 ∷ m)) l (ground arith) v.1 (omega (arith, len))
all_bits_sound (suc n) p (suc (suc b) ∷ l) e v len = absurd (omega (arith, v.0))

back : ℕ → List ℕ → Bool
unfolding same byte_of unpack_bits
back n l = same (unpack_bits n 7 (byte_of 7 l 0)) l

table : ℕ → Bool
unfolding all_bits back
table zero = all_bits 0 (back 0)
table (suc n) = all_bits (suc n) (back (suc n)) && table n

table_eight : table 8 ≡ true
unfolding table
table_eight = refl

table_sound : (k n : ℕ) → table k ≡ true → n ≤ k → all_bits n (back n) ≡ true
unfolding table
table_sound zero zero e h = e
table_sound zero (suc n) e h = elim h [ ]
table_sound (suc k) n e h = elim (Bool-cases (n == suc k)) [
  | inl last ↦ let at : n ≡ suc k = ground arith in rw at (and_left _ _ e)
  | inr below ↦ table_sound k n (and_right _ _ e) (ground arith)
]

pub unpack_bits-byte_of :
    (n : ℕ) (l : List ℕ) → IsBits l → length l ≡ n → n ≤ 8 → unpack_bits n 7 (byte_of 7 l 0) ≡ l
unfolding back
unpack_bits-byte_of n l v len small =
    same_sound _ _ (all_bits_sound n (back n) l (table_sound 8 n table_eight small) v len)
