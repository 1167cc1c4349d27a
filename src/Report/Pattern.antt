-- ===== src/Report/Pattern.antt =====
-- The byte loops over a bit pattern, `put_pattern` and `read_pattern`.
use Prim.Native.Nat.{min}
use ciot_vlc.Base.{
  ℕ, zero, suc, ◌-◌, ◌*◌, ◌+◌, ◌≤◌, ◌<◌, ◌≡◌, refl, ap, List, [], ◌∷◌, ◌++◌, arith, length, some,
  none, take, drop, ltb, leb, if◌then◌else◌, length-append, length-take, length-drop, append_assoc,
  append-nil, le→leb, take-take, drop-take, drop-drop, drop_cons, Bool-cases, inl, inr, leb→le,
}
use ciot_vlc.Report.{pattern_bytes, put_pattern, read_pattern, conv_shift_until}
use ciot_vlc.Report.Bits.{IsBits, byte_of, pack_bits-byte_of, unpack_bits-byte_of}

-- The bytes of a pattern, eight bits to each.
unfoldable pub pattern_of : ℕ → List ℕ → List ℕ
pattern_of zero bits = []
pattern_of (suc n) bits = byte_of 7 (take 8 bits) 0 ∷ pattern_of n (drop 8 bits)

pub length-pattern_of : (n : ℕ) (bits : List ℕ) → length (pattern_of n bits) ≡ n
unfolding pattern_of
length-pattern_of zero bits = refl
length-pattern_of (suc n) bits = ap suc (length-pattern_of n (drop 8 bits))

-- The number of bytes is the least that holds the bits.
abbrev pub Rounds : ℕ → ℕ → Type 0
Rounds n len = (len ≤ 8 * n) × (8 * n < len + 8)

pub pattern_bytes-Rounds : (len : ℕ) → Rounds (pattern_bytes len) len
unfolding pattern_bytes
pattern_bytes-Rounds len = ground arith

chunk : (remaining : ℕ) → (if ltb 8 remaining then 8 else remaining) ≡ min 8 remaining
chunk remaining = ground arith

pub put_pattern-pattern_of :
    (size n remaining idx : ℕ) (src buff : List ℕ)
    → Rounds n remaining
    → remaining ≤ length src - idx
    → length buff + n ≤ size
    → put_pattern size n remaining idx src buff
      ≡ some (buff ++ pattern_of n (take remaining (drop idx src)))
unfolding put_pattern pattern_of
put_pattern-pattern_of size zero remaining idx src buff r h k = rw append-nil refl
put_pattern-pattern_of size (suc n) remaining idx src buff r h k =
    rw
      (
        chunk remaining,
        pack_bits-byte_of (min 8 remaining) idx 7 0 src (omega arith),
        le→leb (length buff + 1) size (omega arith),
        put_pattern-pattern_of size n (remaining - 8) (idx + 8) src
            (buff ++ byte_of 7 (take (min 8 remaining) (drop idx src)) 0 ∷ []) (omega arith)
            (omega arith)
            (omega (
              arith,
              length-append {0} buff (byte_of 7 (take (min 8 remaining) (drop idx src)) 0 ∷ []),
            )),
        append_assoc,
        take-take 8 remaining (drop idx src),
        drop-take 8 remaining (drop idx src),
        drop-drop 8 idx src,
      )
      refl

-- If the pattern does not fit, it is written past the end of the buffer.
pub put_pattern-none :
    (size n remaining idx : ℕ) (src buff : List ℕ)
    → Rounds n remaining
    → remaining ≤ length src - idx
    → length buff ≤ size
    → size < length buff + n
    → put_pattern size n remaining idx src buff ≡ none
unfolding put_pattern
put_pattern-none size zero remaining idx src buff r h k m = absurd (omega arith)
put_pattern-none size (suc n) remaining idx src buff r h k m =
    let byte : ℕ = byte_of 7 (take (min 8 remaining) (drop idx src)) 0 in
    elim (Bool-cases (leb (length buff + 1) size)) [
      | inl fits ↦
          rw (chunk remaining, pack_bits-byte_of (min 8 remaining) idx 7 0 src (omega arith), fits)
            (put_pattern-none size n (remaining - 8) (idx + 8) src (buff ++ byte ∷ []) (omega arith)
              (omega arith)
              (omega
                (arith, length-append {0} buff (byte ∷ []), leb→le (length buff + 1) size fits))
              (omega (arith, length-append {0} buff (byte ∷ []))))
      | inr full ↦
          rw (chunk remaining, pack_bits-byte_of (min 8 remaining) idx 7 0 src (omega arith), full)
            refl
    ]

pub IsBits-take : (n : ℕ) (l : List ℕ) → IsBits l → IsBits (take n l)
IsBits-take zero l v = tt
IsBits-take (suc n) [] v = tt
IsBits-take (suc n) (b ∷ l) v = (v.0, IsBits-take n l v.1)

pub IsBits-drop : (n : ℕ) (l : List ℕ) → IsBits l → IsBits (drop n l)
IsBits-drop zero l v = v
IsBits-drop (suc n) [] v = tt
IsBits-drop (suc n) (b ∷ l) v = IsBits-drop n l v.1

take-append-drop : (n : ℕ) (l : List ℕ) → take n l ++ drop n l ≡ l
take-append-drop zero l = refl
take-append-drop (suc n) [] = refl
take-append-drop (suc n) (b ∷ l) = ap (λ m. b ∷ m) (take-append-drop n l)

here : (remaining : ℕ) → 8 - conv_shift_until remaining ≡ min 8 remaining
unfolding conv_shift_until
here remaining = ground arith

-- The gateway's loop reads back the bits whose bytes stand at `idx`.
pub read_pattern-pattern_of :
    (n remaining idx : ℕ) (bits rest buff : List ℕ)
    → IsBits bits
    → length bits ≡ remaining
    → Rounds n remaining
    → drop idx buff ≡ pattern_of n bits ++ rest
    → read_pattern n remaining idx buff ≡ some bits
unfolding read_pattern pattern_of
read_pattern-pattern_of zero remaining idx [] rest buff v len r e = refl
read_pattern-pattern_of zero remaining idx (b ∷ bits) rest buff v len r e = absurd (omega arith)
read_pattern-pattern_of (suc n) remaining idx bits rest buff v len r e =
    let (at, next) =
      drop_cons buff idx (byte_of 7 (take 8 bits) 0) (pattern_of n (drop 8 bits) ++ rest) e in
    rw
      (
        at,
        read_pattern-pattern_of n (remaining - 8) (suc idx) (drop 8 bits) rest buff
            (IsBits-drop 8 bits v) (omega (arith, length-drop {0} 8 bits)) (omega arith) next,
        here remaining,
        unpack_bits-byte_of (min 8 remaining) (take 8 bits) (IsBits-take 8 bits v)
            (omega (arith, length-take {0} 8 bits)) (omega arith),
        take-append-drop 8 bits,
      )
      refl
