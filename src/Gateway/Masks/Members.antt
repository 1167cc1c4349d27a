-- ===== src/Gateway/Masks/Members.antt =====
-- The bits of a mask against the members of the set.
use ciot_vlc.Base.{
  ℕ, ◌+◌, ◌-◌, ◌^◌, ◌%◌, ◌≤◌, ◌<◌, ◌≡◌, refl, sym, ap, ◌∙◌, Bool, false, ◌||◌, List, [], ◌∷◌, ◌==◌,
  leb, if◌then◌else◌, map, arith, Bool-cases, and_true, inl, inr, lt→ltb, leb→le, length,
}
use Prim.Native.Nat.{bit_and, bit_or}
use ciot_vlc.Gateway.Masks.{
  generate_m_loop, generate_m, is_k_in_sn, in_sets, positive_part, calculate_v,
}
use ciot_vlc.Node.Track.{mem}
use ciot_vlc.Gateway.Masks.Bits.{
  testbit, testbit_zero, testbit-bit_or, bit_or-lt, bit_and-le, testbit-power, masked, power-lt,
}

-- Ids from 1 to 31.
abbrev pub AreIds : List ℕ → Type 0
AreIds [] = Unit {0}
AreIds (k ∷ ids) = ((0 < k) × (k < 32)) × AreIds ids

loop-testbit :
    (k : ℕ) (ids : List ℕ) (retval : ℕ)
    → 0 < k
    → AreIds ids
    → testbit (k - 1) (generate_m_loop ids retval) ≡ (testbit (k - 1) retval || mem k ids)
unfolding generate_m_loop
loop-testbit k [] retval h v = ground arith
loop-testbit k (i ∷ ids) retval h v =
    let rest = loop-testbit k ids (bit_or retval (2 ^ (i - 1))) h v.1 in
    let same : (k - 1 == i - 1) ≡ (i == k) = ground (arith, v.0.0) in
    let bit = testbit-bit_or (k - 1) retval (2 ^ (i - 1)) in
    ground (arith, rest, bit, testbit-power (k - 1) (i - 1), same)

loop-lt :
    (ids : List ℕ) (retval : ℕ) → retval < 2 ^ 31 → AreIds ids → generate_m_loop ids retval < 2 ^ 31
unfolding generate_m_loop
loop-lt [] retval h v = h
loop-lt (i ∷ ids) retval h v =
    loop-lt ids (bit_or retval (2 ^ (i - 1)))
      (bit_or-lt 31 retval (2 ^ (i - 1)) h (power-lt (i - 1) 31 (omega (arith, v.0.1)))) v.1

-- A transmitter from 1 to 31 is in the mask of a set of such exactly if it is in the set.
is_k_in_sn-generate_m :
    (k : ℕ) (ids : List ℕ)
    → 0 < k
    → k < 32
    → AreIds ids
    → is_k_in_sn k (generate_m ids) ≡ (if mem k ids then 1 else 0)
unfolding is_k_in_sn generate_m
is_k_in_sn-generate_m k ids h small v =
    let m : ℕ = generate_m_loop ids 0 in
    let fits : m < 2 ^ 31 = loop-lt ids 0 (omega arith) v in
    let none_before : testbit (k - 1) 0 ≡ false = testbit_zero (k - 1) in
    let bit : testbit (k - 1) m ≡ mem k ids = rw none_before at (loop-testbit k ids 0 h v) in
    let kept : bit_and (2 ^ (k - 1)) m < 2 ^ 31 = omega (arith, bit_and-le (2 ^ (k - 1)) m) in
    let positive : leb (2 ^ 31) m ≡ false = ground (arith, fits) in
    elim (Bool-cases (m == 0)) [
      | inl empty ↦
          let nothing : m ≡ 0 = ground (arith, empty) in
          let absent : mem k ids ≡ false = sym bit ∙ rw nothing none_before in
          rw (empty, absent) refl
      | inr some_ids ↦
          rw
            (
              some_ids,
              positive,
              masked (k - 1) m,
              lt→ltb (bit_and (2 ^ (k - 1)) m) (2 ^ 31) kept,
              bit,
            )
            (ap (λ (b : Bool). if b then 1 else 0) (and_true (mem k ids)))
    ]

abbrev pub AllIds : List (List ℕ) → Type 0
AllIds [] = Unit {0}
AllIds (ids ∷ sets) = AreIds ids × AllIds sets

-- How many of the sets have the transmitter.
abbrev pub containing : ℕ → List (List ℕ) → ℕ
containing k [] = 0
containing k (ids ∷ sets) = (if mem k ids then 1 else 0) + containing k sets

in_sets-generate_m :
    (vlc_id : ℕ) (sets : List (List ℕ)) (temp : ℕ)
    → vlc_id + 1 < 32
    → AllIds sets
    → temp + length sets < 2 ^ 31
    → in_sets vlc_id (map generate_m sets) temp ≡ temp + containing (vlc_id + 1) sets
unfolding in_sets
in_sets-generate_m vlc_id [] temp h v fits = omega arith
in_sets-generate_m vlc_id (ids ∷ sets) temp h v fits =
    let one : ℕ = if mem (vlc_id + 1) ids then 1 else 0 in
    let this : is_k_in_sn (vlc_id + 1) (generate_m ids) ≡ one =
      is_k_in_sn-generate_m (vlc_id + 1) ids (omega arith) h v.0 in
    let few : one ≤ 1 = ground arith in
    let sum : (temp + is_k_in_sn (vlc_id + 1) (generate_m ids)) % 2 ^ 32 ≡ temp + one =
      omega (arith, this, few, fits) in
    let rest = in_sets-generate_m vlc_id sets (temp + one) h v.1 (omega (arith, few, fits)) in
    ap (λ n. in_sets vlc_id (map generate_m sets) n) sum ∙ omega (arith, rest)

-- What an entry of `vk` is above one of `d_vlc`: nothing where it is negative or not above it.
abbrev pub above : ℕ → ℕ → ℕ
above vk d_vlc = if leb (2 ^ 31) vk then 0 else vk - d_vlc

positive_part-above :
    (vk d_vlc : ℕ)
    → vk < 2 ^ 32
    → d_vlc < 2 ^ 31
    → ((2 ^ 31 ≤ vk) → 2 ^ 31 + d_vlc ≤ vk)
    → positive_part ((vk + (2 ^ 32 - d_vlc)) % 2 ^ 32) ≡ above vk d_vlc
unfolding positive_part
positive_part-above vk d_vlc fits small no_wrap = elim (Bool-cases (leb (2 ^ 31) vk)) [
  | inl negative ↦
      let far = no_wrap (leb→le (2 ^ 31) vk negative) in ground (arith, far, fits, small, negative)
  | inr positive ↦ ground (arith, small, positive)
]

-- For the masks that `generate_m` makes of sets of transmitters from 1 to 31, an `int` in `vk` and
-- one from 0 on in `d_vlc`, as patterns, whose difference does not pass the least `int`, and where
-- the result stays below 2 ^ 31 if all of the sets count: `calculate_v` of a transmitter, counted
-- from 0 to 30, is the number of the sets that have it, and what its entry of `vk` is above that of
-- `d_vlc`, which is 0 where the entry of `vk` is negative.
pub calculate_v-generate_m :
    (vk d_vlc vlc_id : ℕ) (sets : List (List ℕ))
    → vk < 2 ^ 32
    → d_vlc < 2 ^ 31
    → ((2 ^ 31 ≤ vk) → 2 ^ 31 + d_vlc ≤ vk)
    → above vk d_vlc + length sets < 2 ^ 31
    → vlc_id + 1 < 32
    → AllIds sets
    → calculate_v vk d_vlc vlc_id (map generate_m sets)
      ≡ above vk d_vlc + containing (vlc_id + 1) sets
unfolding calculate_v
calculate_v-generate_m vk d_vlc vlc_id sets fits small no_wrap room h v =
    rw (positive_part-above vk d_vlc fits small no_wrap)
      (in_sets-generate_m vlc_id sets (above vk d_vlc) h v room)
