-- ===== src/VlcTx/Proc/Value.antt =====
-- What `proc_write` makes of decimal digits.
use ciot_vlc.Base.{
  ℕ, suc, ◌+◌, ◌-◌, ◌*◌, ◌%◌, ◌^◌, ◌<◌, ◌≡◌, refl, true, false, ◌||◌, Option, none, some, List, [],
  ◌∷◌, ◌++◌, ◌==◌, ltb, if◌then◌else◌, length, arith,
}
use native.Mathlib.Nat.{pow-suc}
use ciot_vlc.VlcTx.Proc.{Written, written, efault, einval, write_loop, proc_write}

-- The number that digits stand for, each at its power of ten.
abbrev pub value : List ℕ → ℕ
value [] = 0
value (d ∷ digits) = d * 10 ^ length digits + value digits

-- Their characters, each readable.
abbrev pub characters : List ℕ → List (Option ℕ)
characters [] = []
characters (d ∷ digits) = some (48 + d) ∷ characters digits

abbrev pub AreDigits : List ℕ → Type 0
AreDigits [] = Unit {0}
AreDigits (d ∷ digits) = (d < 10) × AreDigits digits

-- What the first byte that is no digit makes of the digits before it.
abbrev pub finish : ℕ → ℕ → List (Option ℕ) → Written
finish len sum [] = written len sum
finish len sum (none ∷ rest) = efault
finish len sum (some c ∷ rest) = if (c == 10) || (c == 0) then written (suc len) sum else einval

-- The bytes are at their end, or do not go on with a digit.
abbrev pub IsEnd : List (Option ℕ) → Type 0
IsEnd [] = Unit {0}
IsEnd (none ∷ rest) = Unit {0}
IsEnd (some c ∷ rest) = ((ltb c 48 || ltb 57 c) ≡ true) × (c < 256)

write_loop-end :
    (rest : List (Option ℕ)) (len sum : ℕ)
    → IsEnd rest
    → write_loop rest len sum ≡ finish len sum rest
unfolding write_loop
write_loop-end [] len sum h = refl
write_loop-end (none ∷ rest) len sum h = refl
write_loop-end (some c ∷ rest) len sum h =
    let not_digit : ltb 9 ((c + 2 ^ 32 - 48) % 2 ^ 32) ≡ true = ground (arith, h.0, h.1) in
    rw not_digit refl

step_value :
    (total d : ℕ)
    → d < 10
    → (total % 2 ^ 32 * 10 % 2 ^ 32 + (48 + d + 2 ^ 32 - 48) % 2 ^ 32) % 2 ^ 32
      ≡ (total * 10 + d) % 2 ^ 32
step_value total d h = omega arith

pub plus_one : (k : ℕ) → k + 1 ≡ suc k
plus_one k = omega arith

expand : (total d p v : ℕ) → (total * 10 + d) * p + v ≡ total * (p * 10) + (d * p + v)
expand total d p v = omega arith

write_loop-digits :
    (digits : List ℕ) (rest : List (Option ℕ)) (len total : ℕ)
    → AreDigits digits
    → IsEnd rest
    → write_loop (characters digits ++ rest) len (total % 2 ^ 32)
      ≡ finish (len + length digits) ((total * 10 ^ length digits + value digits) % 2 ^ 32) rest
unfolding write_loop
write_loop-digits [] rest len total v h =
    let e : (total * 1 + 0) % 2 ^ 32 ≡ total % 2 ^ 32 = omega arith in
    let n : len + 0 ≡ len = omega arith in rw (e, n) (write_loop-end rest len (total % 2 ^ 32) h)
write_loop-digits (d ∷ digits) rest len total v h =
    let goes_on : ((48 + d == 10) || (48 + d == 0)) ≡ false = ground arith in
    let digit : ltb 9 ((48 + d + 2 ^ 32 - 48) % 2 ^ 32) ≡ false = ground (arith, v.0) in
    let k : ℕ = length digits in
    let e : (total * 10 + d) * 10 ^ k + value digits
        ≡ total * 10 ^ suc k + (d * 10 ^ k + value digits) =
      rw (pow-suc 10 k) (expand total d (10 ^ k) (value digits)) in
    let n : suc len + k ≡ len + suc k = omega arith in
    let rest_of = write_loop-digits digits rest (suc len) (total * 10 + d) v.1 h in
    rw (goes_on, digit, step_value total d v.0) (rw (e, n) at rest_of)

-- The bytes are the characters of decimal digits, and then end or go on with a byte that is no digit:
-- `proc_write` gives `-EFAULT` where that byte cannot be read, `-EINVAL` where it is neither a
-- newline nor a NUL, and else the number of bytes read, a newline or NUL included, and the number
-- that the digits stand for, modulo 2 ^ 32.
pub proc_write-characters :
    (digits : List ℕ) (rest : List (Option ℕ))
    → AreDigits digits
    → IsEnd rest
    → proc_write (characters digits ++ rest) ≡ finish (length digits) (value digits % 2 ^ 32) rest
unfolding proc_write
proc_write-characters digits rest v h =
    let n : 0 + length digits ≡ length digits = omega arith in
    let e : 0 * 10 ^ length digits + value digits ≡ value digits = omega arith in
    rw (n, e) at (write_loop-digits digits rest 0 0 v h)
