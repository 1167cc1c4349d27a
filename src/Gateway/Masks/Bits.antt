-- ===== src/Gateway/Masks/Bits.antt =====
-- The bits of a number, of `|` and `&`, and of a power of two.
use ciot_vlc.Base.{
  ℕ, zero, suc, ◌+◌, ◌*◌, ◌/◌, ◌%◌, ◌^◌, ◌≤◌, ◌<◌, ◌≡◌, refl, ap, ◌∙◌, Bool, true, false, ◌&&◌,
  ◌||◌, ◌==◌, ltb, arith, Bool-cases, inl, inr,
}
use native.Mathlib.Nat.{pow-suc}
use Prim.Native.Nat.{min, max, digits, bit_and, bit_or, bit_and-bitwise, bit_or-bitwise}

-- Bit 0.
abbrev odd : ℕ → Bool
odd n = n % 2 == 1

abbrev pub testbit : ℕ → ℕ → Bool
testbit zero n = odd n
testbit (suc i) n = testbit i (n / 2)

odd-max : (r x y : ℕ) → odd (r * 2 + max (x % 2) (y % 2)) ≡ (odd x || odd y)
odd-max r x y = ground arith

half-max : (r x y : ℕ) → (r * 2 + max (x % 2) (y % 2)) / 2 ≡ r
half-max r x y = omega arith

odd-min : (r x y : ℕ) → odd (r * 2 + min (x % 2) (y % 2)) ≡ (odd x && odd y)
odd-min r x y = ground arith

half-min : (r x y : ℕ) → (r * 2 + min (x % 2) (y % 2)) / 2 ≡ r
half-min r x y = omega arith

pub testbit_zero : (i : ℕ) → testbit i 0 ≡ false
testbit_zero zero = refl
testbit_zero (suc i) = testbit_zero i

testbit-digits_or :
    (i n a b : ℕ) → a ≤ n → testbit i (digits (λ b. b) max n a b) ≡ (testbit i a || testbit i b)
testbit-digits_or i zero zero b h = rw (testbit_zero i) refl
testbit-digits_or i (suc n) zero b h = rw (testbit_zero i) refl
testbit-digits_or i zero (suc a) b h = absurd (omega arith)
testbit-digits_or zero (suc n) (suc a) b h =
    odd-max (digits (λ b. b) max n (suc a / 2) (b / 2)) (suc a) b
testbit-digits_or (suc i) (suc n) (suc a) b h =
    rw (half-max (digits (λ b. b) max n (suc a / 2) (b / 2)) (suc a) b)
      (testbit-digits_or i n (suc a / 2) (b / 2) (omega arith))

testbit-digits_and :
    (i n a b : ℕ) → a ≤ n → testbit i (digits (λ b. 0) min n a b) ≡ (testbit i a && testbit i b)
testbit-digits_and i zero zero b h = rw (testbit_zero i) refl
testbit-digits_and i (suc n) zero b h = rw (testbit_zero i) refl
testbit-digits_and i zero (suc a) b h = absurd (omega arith)
testbit-digits_and zero (suc n) (suc a) b h =
    odd-min (digits (λ b. 0) min n (suc a / 2) (b / 2)) (suc a) b
testbit-digits_and (suc i) (suc n) (suc a) b h =
    rw (half-min (digits (λ b. 0) min n (suc a / 2) (b / 2)) (suc a) b)
      (testbit-digits_and i n (suc a / 2) (b / 2) (omega arith))

pub testbit-bit_or : (i a b : ℕ) → testbit i (bit_or a b) ≡ (testbit i a || testbit i b)
testbit-bit_or i a b =
    ap (testbit i) (λ k. bit_or-bitwise a b k) ∙ testbit-digits_or i a a b (omega arith)

testbit-bit_and : (i a b : ℕ) → testbit i (bit_and a b) ≡ (testbit i a && testbit i b)
testbit-bit_and i a b =
    ap (testbit i) (λ k. bit_and-bitwise a b k) ∙ testbit-digits_and i a a b (omega arith)

digits_or-lt : (v n a b : ℕ) → a ≤ n → a < 2 ^ v → b < 2 ^ v → digits (λ b. b) max n a b < 2 ^ v
digits_or-lt v zero zero b h x y = y
digits_or-lt v (suc n) zero b h x y = y
digits_or-lt v zero (suc a) b h x y = absurd (omega arith)
digits_or-lt zero (suc n) (suc a) b h x y = absurd (omega arith)
digits_or-lt (suc v) (suc n) (suc a) b h x y =
    let p : 2 ^ suc v ≡ 2 ^ v * 2 = pow-suc 2 v in
    let rest =
      digits_or-lt v n (suc a / 2) (b / 2) (omega arith) (omega (arith, x, p))
        (omega (arith, y, p)) in
    omega (arith, rest, p)

pub bit_or-lt : (v a b : ℕ) → a < 2 ^ v → b < 2 ^ v → bit_or a b < 2 ^ v
bit_or-lt v a b x y =
    let e : bit_or a b ≡ digits (λ b. b) max a a b = λ k. bit_or-bitwise a b k in
    rw e (digits_or-lt v a a b (omega arith) x y)

digits_and-le : (n a b : ℕ) → a ≤ n → digits (λ b. 0) min n a b ≤ b
digits_and-le zero zero b h = omega arith
digits_and-le (suc n) zero b h = omega arith
digits_and-le zero (suc a) b h = absurd (omega arith)
digits_and-le (suc n) (suc a) b h = omega (arith, digits_and-le n (suc a / 2) (b / 2) (omega arith))

pub bit_and-le : (a b : ℕ) → bit_and a b ≤ b
bit_and-le a b =
    let e : bit_and a b ≡ digits (λ b. 0) min a a b = λ k. bit_and-bitwise a b k in
    rw e (digits_and-le a a b (omega arith))

power_half : (j : ℕ) → 2 ^ suc j / 2 ≡ 2 ^ j
power_half j = rw (pow-suc 2 j) (omega arith)

power_even : (j : ℕ) → odd (2 ^ suc j) ≡ (0 == suc j)
power_even j = rw (pow-suc 2 j) (ground arith)

pub testbit-power : (i j : ℕ) → testbit i (2 ^ j) ≡ (i == j)
testbit-power zero zero = refl
testbit-power (suc i) zero = testbit_zero i ∙ ground arith
testbit-power zero (suc j) = power_even j
testbit-power (suc i) (suc j) =
    let same : (i == j) ≡ (suc i == suc j) = ground arith in
    rw (power_half j) (testbit-power i j ∙ same)

-- A number without a bit is 0.
no_bits : (k n : ℕ) → n ≤ k → ((i : ℕ) → testbit i n ≡ false) → n ≡ 0
no_bits k zero h f = refl
no_bits zero (suc n) h f = absurd (omega arith)
no_bits (suc k) (suc n) h f =
    let even : odd (suc n) ≡ false = f 0 in
    let rest = no_bits k (suc n / 2) (omega arith) (λ i. f (suc i)) in ground (arith, even, rest)

bit_of_power : (i j n : ℕ) → testbit i (bit_and (2 ^ j) n) ≡ ((i == j) && testbit i n)
bit_of_power i j n = testbit-bit_and i (2 ^ j) n ∙ ap (λ b. b && testbit i n) (testbit-power i j)

-- The bit test of the code is the bit.
pub masked : (j n : ℕ) → ltb 0 (bit_and (2 ^ j) n) ≡ testbit j n
masked j n = elim (Bool-cases (testbit j n)) [
  | inl there ↦ elim (Bool-cases (bit_and (2 ^ j) n == 0)) [
    | inl no_more ↦
        let nothing : bit_and (2 ^ j) n ≡ 0 = ground (arith, no_more) in
        let self : (j == j) ≡ true = ground arith in
        absurd (cc (rw (nothing, testbit_zero j, self, there) at (bit_of_power j j n)))
    | inr more ↦ ground (arith, there, more)
  ]
  | inr not_there ↦
      let nothing : bit_and (2 ^ j) n ≡ 0 =
        no_bits (bit_and (2 ^ j) n) (bit_and (2 ^ j) n) (omega arith) (λ i. clear i not_there) in
      rw (nothing, not_there) refl
]
  where
    clear : (i : ℕ) → testbit j n ≡ false → testbit i (bit_and (2 ^ j) n) ≡ false
    clear i e = elim (Bool-cases (i == j)) [
      | inl same ↦ let at_j : i ≡ j = ground (arith, same) in bit_of_power i j n ∙ rw (same, at_j) e
      | inr other ↦ bit_of_power i j n ∙ rw other refl
    ]

power_pos : (j : ℕ) → 0 < 2 ^ j
power_pos zero = omega arith
power_pos (suc j) = rw (pow-suc 2 j) (omega (arith, power_pos j))

pub power-lt : (i j : ℕ) → i < j → 2 ^ i < 2 ^ j
power-lt i zero h = absurd (omega arith)
power-lt zero (suc j) h = rw (pow-suc 2 j) (omega (arith, power_pos j))
power-lt (suc i) (suc j) h =
    rw (pow-suc 2 i, pow-suc 2 j) (omega (arith, power-lt i j (omega arith)))
