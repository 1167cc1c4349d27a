-- ===== src/Pru.antt =====
-- The memory that a VLC network driver shares with the PRU, byte by byte, and byte arrays.
use ciot_vlc.Base.{
  ℕ, zero, suc, ◌+◌, ◌*◌, ◌%◌, ◌/◌, ◌<◌, ◌≡◌, refl, Option, none, some, List, [], ◌∷◌, ◌++◌, ◌==◌,
  leb, if◌then◌else◌, length, take, drop, arith,
}

abbrev pub Memory : Type 0
Memory = ℕ → ℕ

-- `readw` and `writew` of a 16-bit word, the low byte first.
abbrev pub readw : Memory → ℕ → ℕ
readw pru i = pru i + 256 * pru (suc i)

-- `memcpy_toio` and `memcpy_fromio`.
unfoldable pub memcpy_toio : Memory → ℕ → List ℕ → Memory
memcpy_toio pru i [] = pru
memcpy_toio pru i (b ∷ bytes) = memcpy_toio (λ j. if i == j then b else pru j) (suc i) bytes

unfoldable pub memcpy_fromio : Memory → ℕ → ℕ → List ℕ
memcpy_fromio pru i zero = []
memcpy_fromio pru i (suc n) = pru i ∷ memcpy_fromio pru (suc i) n

abbrev pub writew : Memory → ℕ → ℕ → Memory
writew pru i w = λ j. if i == j then w % 256 else if suc i == j then (w / 256) % 256 else pru j

-- The bytes of an array from `i` on become these; `none` past its end.
abbrev pub put_at : List ℕ → ℕ → List ℕ → Option (List ℕ)
put_at pkt_data i bytes =
    if leb (i + length bytes) (length pkt_data)
    then some (take i pkt_data ++ bytes ++ drop (i + length bytes) pkt_data)
    else none

pub memcpy_toio-before :
    (pru : Memory) (i j : ℕ) (bytes : List ℕ) → j < i → memcpy_toio pru i bytes j ≡ pru j
unfolding memcpy_toio
memcpy_toio-before pru i j [] h = refl
memcpy_toio-before pru i j (b ∷ bytes) h =
    let later =
      memcpy_toio-before (λ k. if i == k then b else pru k) (suc i) j bytes (omega arith) in
    ground (arith, later)

-- What was copied there is read back.
pub memcpy_fromio-memcpy_toio :
    (pru : Memory) (i : ℕ) (bytes : List ℕ)
    → memcpy_fromio (memcpy_toio pru i bytes) i (length bytes) ≡ bytes
unfolding memcpy_toio memcpy_fromio
memcpy_fromio-memcpy_toio pru i [] = refl
memcpy_fromio-memcpy_toio pru i (b ∷ bytes) =
    let pru' : Memory = λ k. if i == k then b else pru k in
    let here : memcpy_toio pru' (suc i) bytes i ≡ b =
      ground (arith, memcpy_toio-before pru' (suc i) i bytes (omega arith)) in
    let later : memcpy_fromio (memcpy_toio pru' (suc i) bytes) (suc i) (length bytes) ≡ bytes =
      memcpy_fromio-memcpy_toio pru' (suc i) bytes in
    rw (here, later) refl

pub memcpy_fromio-readw :
    (pru : Memory) (i n : ℕ) {lo hi : ℕ} {l : List ℕ}
    → memcpy_fromio pru i (suc (suc n)) ≡ lo ∷ hi ∷ l
    → readw pru i ≡ lo + 256 * hi
unfolding memcpy_fromio
memcpy_fromio-readw pru i n {lo} {hi} e =
    let a : pru i ≡ lo = cc in let b : pru (suc i) ≡ hi = cc in omega (arith, a, b)
