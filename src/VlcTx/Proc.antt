-- ===== src/VlcTx/Proc.antt =====
-- `proc_read` and `proc_write` of `ourvlc-1.c` in `VLC TX1 (Eth)_ourvlc/`: the entry `vlc/tx` of the
-- proc file system, an `int` as decimal text.
pub mod Value
pub mod RoundTrip
use ciot_vlc.Base.{
  ℕ, zero, suc, ◌+◌, ◌-◌, ◌*◌, ◌/◌, ◌%◌, ◌^◌, ◌||◌, Option, none, some, List, [], ◌∷◌, ◌==◌, ltb,
  if◌then◌else◌,
}

-- What `proc_write` returns: the length, with the new value of the `int`, `-EFAULT` or `-EINVAL`.
pub data Written : Type 0 where
  written : (len sum : ℕ) → Written
  efault : Written
  einval : Written

-- The loop over the user's bytes, of which `count` are left; `get_user` fails where there is `none`.
-- `val = c - '0'` wraps.
unfoldable pub write_loop : List (Option ℕ) → ℕ → ℕ → Written
write_loop [] len sum = written len sum
write_loop (none ∷ buffer) len sum = efault
write_loop (some c ∷ buffer) len sum =
    let val = (c + 2 ^ 32 - 48) % 2 ^ 32 in
    let rest = write_loop buffer (suc len) ((sum * 10 % 2 ^ 32 + val) % 2 ^ 32) in
    if (c == 10) || (c == 0) then written (suc len) sum else if ltb 9 val then einval else rest

unfoldable pub proc_write : List (Option ℕ) → Written
unfolding write_loop
proc_write buffer = write_loop buffer 0 0

-- The characters of the decimal digits of `n` in front of `rest`, with at most as many digits as the
-- fuel.
unfoldable pub decimal : ℕ → ℕ → List ℕ → List ℕ
decimal zero n rest = rest
decimal (suc fuel) n rest =
    let more = decimal fuel (n / 10) ((48 + n % 10) ∷ rest) in
    if ltb n 10 then (48 + n) ∷ rest else more

-- `sprintf` with `%d`: the sign of a negative `int`, and at most 10 digits.
unfoldable pub proc_read : ℕ → List ℕ
unfolding decimal
proc_read data_value =
    if ltb data_value (2 ^ 31)
    then decimal 10 data_value []
    else 45 ∷ decimal 10 (2 ^ 32 - data_value) []
