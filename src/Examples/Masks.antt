-- ===== src/Examples/Masks.antt =====
-- Sets of transmitters as masks.
use ciot_vlc.Base.{ℕ, ◌+◌, ◌-◌, ◌^◌, ◌≡◌, refl, List, [], ◌∷◌, map, arith}
use ciot_vlc.Gateway.Masks.{generate_m, calculate_v, in_sets, is_k_in_sn, positive_part}
use ciot_vlc.Gateway.Masks.Members.{above, containing, calculate_v-generate_m}

abbrev sets : List (List ℕ)
sets = (1 ∷ 3 ∷ []) ∷ (2 ∷ []) ∷ (31 ∷ 3 ∷ 3 ∷ []) ∷ []

calculate_v-generate_m_example :
    calculate_v 9 4 2 (map generate_m sets) ≡ above 9 4 + containing 3 sets
calculate_v-generate_m_example =
    calculate_v-generate_m 9 4 2 sets (omega arith) (omega arith) (λ h. absurd (omega (arith, h)))
      (omega arith) (omega arith) (omega arith)

-- A queue length of -1 counts 0.
calculate_v_negative : calculate_v (2 ^ 32 - 1) 0 2 (0 ∷ []) ≡ 0
unfolding calculate_v in_sets is_k_in_sn positive_part
calculate_v_negative = refl
