-- ===== src/VlcTx/Proc/RoundTrip.antt =====
-- What `proc_read` prints, given back to `proc_write`.
use ciot_vlc.Base.{
  ℕ, zero, suc, ◌+◌, ◌-◌, ◌*◌, ◌/◌, ◌%◌, ◌^◌, ◌<◌, ◌≡◌, refl, ap, ◌∙◌, Option, some, List, [], ◌∷◌,
  ◌++◌, ltb, if◌then◌else◌, length, append-nil, arith, Bool-cases, inl, inr, ltb→lt, length-append,
}
use native.Mathlib.Nat.{pow-suc}
use ciot_vlc.VlcTx.Proc.{written, einval, write_loop, proc_write, decimal, proc_read}
use ciot_vlc.VlcTx.Proc.Value.{value, characters, AreDigits, plus_one, proc_write-characters}

-- The text that `proc_read` gives, as readable bytes.
abbrev pub readable : List ℕ → List (Option ℕ)
readable [] = []
readable (c ∷ text) = some c ∷ readable text

-- The characters of these digits, before a byte string.
abbrev shown : List ℕ → List ℕ → List ℕ
shown [] rest = rest
shown (d ∷ digits) rest = (48 + d) ∷ shown digits rest

shown-append :
    (l : List ℕ) (d : ℕ) (rest : List ℕ) → shown (l ++ d ∷ []) rest ≡ shown l ((48 + d) ∷ rest)
shown-append [] d rest = refl
shown-append (e ∷ l) d rest = ap (λ m. (48 + e) ∷ m) (shown-append l d rest)

AreDigits-append : (l : List ℕ) (d : ℕ) → AreDigits l → d < 10 → AreDigits (l ++ d ∷ [])
AreDigits-append [] d v h = (h, tt)
AreDigits-append (e ∷ l) d v h = (v.0, AreDigits-append l d v.1 h)

shift : (e p v d : ℕ) → e * (p * 10) + (v * 10 + d) ≡ (e * p + v) * 10 + d
shift e p v d = omega arith

power : (k : ℕ) → 10 ^ (k + 1) ≡ 10 ^ k * 10
power k = rw (plus_one k) (pow-suc 10 k)

value-append : (l : List ℕ) (d : ℕ) → value (l ++ d ∷ []) ≡ value l * 10 + d
value-append [] d = omega arith
value-append (e ∷ l) d =
    rw (length-append l (d ∷ []), power (length l), value-append l d)
      (shift e (10 ^ length l) (value l) d)

tenth : (n p : ℕ) → n < p * 10 → n / 10 < p
tenth n p h = omega arith

whole : (n : ℕ) → n / 10 * 10 + n % 10 ≡ n
whole n = omega arith

-- Enough fuel gives the digits of the number.
decimal_lem :
    (fuel n : ℕ) (rest : List ℕ)
    → n < 10 ^ fuel
    → (digits : List ℕ) × (decimal fuel n rest ≡ shown digits rest)
      × AreDigits digits
      × (value digits ≡ n)
unfolding decimal
decimal_lem zero n rest h = ([], refl, tt, omega arith)
decimal_lem (suc fuel) n rest h = elim (Bool-cases (ltb n 10)) [
  | inl last ↦ (n ∷ [], rw last refl, (ltb→lt n 10 last, tt), omega arith)
  | inr more ↦
      let fits : n / 10 < 10 ^ fuel = tenth n (10 ^ fuel) (rw (pow-suc 10 fuel) at h) in
      let (digits, e, v, same) = decimal_lem fuel (n / 10) ((48 + n % 10) ∷ rest) fits in
      let digit : n % 10 < 10 = omega arith in
      (
        digits ++ n % 10 ∷ [],
        rw (more, shown-append digits (n % 10) rest) e,
        AreDigits-append digits (n % 10) v digit,
        value-append digits (n % 10) ∙ rw same (whole n),
      )
]

readable-shown : (digits : List ℕ) → readable (shown digits []) ≡ characters digits
readable-shown [] = refl
readable-shown (d ∷ digits) = ap (λ m. some (48 + d) ∷ m) (readable-shown digits)

length-shown : (digits : List ℕ) → length (shown digits []) ≡ length digits
length-shown [] = refl
length-shown (d ∷ digits) = ap suc (length-shown digits)

minus : (rest : List (Option ℕ)) → proc_write (some 45 ∷ rest) ≡ einval
unfolding proc_write write_loop
minus rest = refl

-- For each value of the `int`, the text that `proc_read` gives, written back, is the value again
-- with all bytes read; but where the value is negative, it is `-EINVAL`.
pub proc_write-proc_read :
    (data_value : ℕ)
    → data_value < 2 ^ 32
    → proc_write (readable (proc_read data_value)) ≡ (
        if ltb data_value (2 ^ 31)
        then written (length (proc_read data_value)) data_value
        else einval)
unfolding proc_read
proc_write-proc_read data_value h = elim (Bool-cases (ltb data_value (2 ^ 31))) [
  | inl positive ↦
      let (digits, e, v, same) =
        decimal_lem 10 data_value [] (omega (arith, ltb→lt data_value (2 ^ 31) positive)) in
      let small : data_value % 2 ^ 32 ≡ data_value = omega arith in
      let back =
        rw (append-nil (characters digits), same, small) at
          (proc_write-characters digits [] v tt) in
      rw (positive, e, readable-shown digits, length-shown digits) back
  | inr negative ↦ rw negative (minus (readable (decimal 10 (2 ^ 32 - data_value) [])))
]
