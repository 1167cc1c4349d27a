-- ===== src/Base/Wire.antt =====
-- Little-endian words in a byte buffer: `memcpy` of a `uint16_t`, `uint32_t` or `int`.
use Prim.Native.Nat.{ℕ, suc, ◌+◌, ◌*◌, ◌/◌, ◌%◌, ◌^◌, ◌<◌}
use mathlib.Core.Path.{◌≡◌}
use mathlib.Core.List.{List, [], ◌∷◌, ◌++◌}
use mathlib.Core.Option.{Option, none, some}
use native.Mathlib.Omega.{arith}
use ciot_vlc.Base.Tests.{◌>>=◌, if◌then◌else◌, leb}
use ciot_vlc.Base.Lists.{length, get_elem?}

-- The bytes of a 16-bit word in memory, the lowest first; a wider value loses its upper bytes.
abbrev pub le16 : ℕ → List ℕ
le16 n = n % 256 ∷ (n / 256) % 256 ∷ []

abbrev pub le32 : ℕ → List ℕ
le32 n = n % 256 ∷ (n / 256) % 256 ∷ (n / 65536) % 256 ∷ (n / 16777216) % 256 ∷ []

-- Reads of a buffer at an index; `none` is a read past its end.
abbrev pub read8 : List ℕ → ℕ → Option ℕ
read8 buf i = get_elem? buf i

abbrev pub read16 : List ℕ → ℕ → Option ℕ
read16 buf i = do a ← get_elem? buf i; b ← get_elem? buf (suc i); some (a + 256 * b)

abbrev pub read32 : List ℕ → ℕ → Option ℕ
read32 buf i = do
  a ← get_elem? buf i
  b ← get_elem? buf (suc i)
  c ← get_elem? buf (suc (suc i))
  d ← get_elem? buf (suc (suc (suc i)))
  some (a + 256 * b + 65536 * c + 16777216 * d)

-- Appends bytes to a buffer of `size` bytes that holds `buf`; `none` is a write past its end.
abbrev pub put : ℕ → List ℕ → List ℕ → Option (List ℕ)
put size bytes buf = if leb (length buf + length bytes) size then some (buf ++ bytes) else none

pub le16_value : (n : ℕ) → n < 2 ^ 16 → n % 256 + 256 * ((n / 256) % 256) ≡ n
le16_value n h = omega arith

pub le32_value :
    (n : ℕ)
    → n < 2 ^ 32
    → n % 256
        + 256 * ((n / 256) % 256)
        + 65536 * ((n / 65536) % 256)
        + 16777216 * ((n / 16777216) % 256)
      ≡ n
le32_value n h = omega arith
