-- ===== src/Base/Payload.antt =====
-- The byte loops that copy a payload out of a receive buffer and into a send buffer.
use Prim.Native.Nat.{ℕ, zero, suc, ◌+◌, ◌≤◌, ◌<◌}
use mathlib.Core.Path.{◌≡◌, refl}
use mathlib.Core.List.{List, [], ◌∷◌, ◌++◌, append-nil, append_assoc}
use mathlib.Core.Option.{Option, none, some}
use native.Mathlib.Omega.{arith}
use mathlib.Core.Logic.{inl, inr}
use ciot_vlc.Base.Tests.{◌>>=◌, leb, le→leb, leb→le, Bool-cases}
use ciot_vlc.Base.Lists.{length, take, drop, drop_step, length-append}
use ciot_vlc.Base.Wire.{read8, put}

-- `for (i = 0; i < n; i++) data[i] = buf[idx++];`
unfoldable pub read_payload : ℕ → ℕ → List ℕ → Option (List ℕ)
read_payload zero idx buf = some []
read_payload (suc n) idx buf = do
  b ← read8 buf idx
  rest ← read_payload n (suc idx) buf
  some (b ∷ rest)

-- `for (; i < i0 + n; i++) { buf[len] = data[i]; len += 1; }`, on a buffer of `size` bytes.
unfoldable pub put_payload : ℕ → ℕ → ℕ → List ℕ → List ℕ → Option (List ℕ)
put_payload size zero i payload buf = some buf
put_payload size (suc n) i payload buf = do
  b ← read8 payload i
  buf' ← put size (b ∷ []) buf
  put_payload size n (suc i) payload buf'

pub read_payload-take :
    (n idx : ℕ) (buf : List ℕ)
    → idx + n ≤ length buf
    → read_payload n idx buf ≡ some (take n (drop idx buf))
unfolding read_payload
read_payload-take zero idx buf h = refl
read_payload-take (suc n) idx buf h =
    let (x, e, d) = drop_step buf idx (omega arith) in
    rw (e, d, read_payload-take n (suc idx) buf (omega arith)) refl

pub put_payload-append :
    (size n i : ℕ) (payload buf : List ℕ)
    → i + n ≤ length payload
    → length buf + n ≤ size
    → put_payload size n i payload buf ≡ some (buf ++ take n (drop i payload))
unfolding put_payload
put_payload-append size zero i payload buf h k = rw append-nil refl
put_payload-append size (suc n) i payload buf h k =
    let (x, e, d) = drop_step payload i (omega arith) in
    rw
      (
        e,
        d,
        le→leb (length buf + 1) size (omega arith),
        put_payload-append size n (suc i) payload (buf ++ x ∷ []) (omega arith)
            (omega (arith, length-append {0} buf (x ∷ []))),
        append_assoc,
      )
      refl

-- A payload that does not fit writes past the end of the buffer.
pub put_payload-none :
    (size n i : ℕ) (payload buf : List ℕ)
    → i + n ≤ length payload
    → length buf ≤ size
    → size < length buf + n
    → put_payload size n i payload buf ≡ none
unfolding put_payload
put_payload-none size zero i payload buf h k m = absurd (omega arith)
put_payload-none size (suc n) i payload buf h k m =
    let (x, e, _) = drop_step payload i (omega arith) in
    elim (Bool-cases (leb (length buf + 1) size)) [
      | inl fits ↦
          rw (e, fits)
            (put_payload-none size n (suc i) payload (buf ++ x ∷ []) (omega arith)
              (omega (arith, length-append {0} buf (x ∷ []), leb→le (length buf + 1) size fits))
              (omega (arith, length-append {0} buf (x ∷ []))))
      | inr full ↦ rw (e, full) refl
    ]
