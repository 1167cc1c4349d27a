-- ===== src/Gateway/Masks.antt =====
-- Sets of transmitters as bits of an `int`: `generate_m` and `is_k_in_sn` of
-- `gateway (eth)_gateway/gateway.c`, and `calculate_v` of its `main.c`. An `int` is its 32-bit pattern.
pub mod Bits
pub mod Members
use Prim.Native.Nat.{bit_and, bit_or}
use ciot_vlc.Base.{
  ℕ, zero, suc, ◌+◌, ◌-◌, ◌*◌, ◌/◌, ◌%◌, ◌^◌, Bool, ◌&&◌, ◌||◌, List, [], ◌∷◌, ◌==◌, ltb, leb,
  if◌then◌else◌,
}

-- The loop over the ids, which are at least 1. Ids above 32, which shift past the `int`, are left out.
unfoldable pub generate_m_loop : List ℕ → ℕ → ℕ
generate_m_loop [] retval = retval
generate_m_loop (vlc_id ∷ vlc_ids) retval =
    generate_m_loop vlc_ids (bit_or retval (2 ^ (vlc_id - 1)))

unfoldable pub generate_m : List ℕ → ℕ
unfolding generate_m_loop
generate_m vlc_ids = generate_m_loop vlc_ids 0

-- `sn <= 0` holds of 0 and of the patterns from 2 ^ 31 on.
unfoldable pub is_k_in_sn : ℕ → ℕ → ℕ
is_k_in_sn vlc_id sn =
    if (sn == 0) || leb (2 ^ 31) sn
    then 0
    else (let common = bit_and (2 ^ (vlc_id - 1)) sn in
        if ltb 0 common && ltb common (2 ^ 31) then 1 else 0)

-- The loop over the sets `sn`, one for each node.
unfoldable pub in_sets : ℕ → List ℕ → ℕ → ℕ
unfolding is_k_in_sn
in_sets vlc_id [] temp = temp
in_sets vlc_id (s ∷ sn) temp = in_sets vlc_id sn ((temp + is_k_in_sn (vlc_id + 1) s) % 2 ^ 32)

-- `x > 0 ? x : 0`.
unfoldable pub positive_part : ℕ → ℕ
positive_part x = if leb (2 ^ 31) x then 0 else x

-- `vk` and `d_vlc` are the entries of the transmitter; the subtraction and the sums wrap.
unfoldable pub calculate_v : ℕ → ℕ → ℕ → List ℕ → ℕ
unfolding in_sets positive_part
calculate_v vk d_vlc vlc_id sn =
    in_sets vlc_id sn (positive_part ((vk + (2 ^ 32 - d_vlc)) % 2 ^ 32))
