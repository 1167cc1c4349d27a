-- ===== src/Gateway/Schedule.antt =====
-- `schedule` of `gateway (eth)_gateway/main.c`, for any number of transmitters: the choice of
-- transmitters in its loop, and the result, which the last lines set to RF. `none` is an access
-- outside an array, or the end of the fuel.
use ciot_vlc.Base.{
  ℕ, zero, suc, ◌+◌, ◌-◌, true, false, Option, none, some, List, [], ◌∷◌, ◌++◌, ◌>>=◌, ◌==◌, ltb,
  if◌then◌else◌, length, get_elem?, set,
}
use mathlib.Core.Path.{◌≡◌}
use ciot_vlc.Base.{◌<◌, arith}
use ciot_vlc.Doubles.{pos, sub_ℕ, Doubles}

-- `IDLE_MODE` is -1; a mode is this number plus one.
abbrev pub idle_mode : ℕ
idle_mode = 0

abbrev pub rf_mode : ℕ
rf_mode = 1

abbrev pub vlc_mode : ℕ
vlc_mode = 2

-- `struct scheduling_result`.
pub record SchedulingResult : Type 0 where
  pub mode : ℕ
  pub vlc_tgt_set : List ℕ
  pub n_vlc_tgt : ℕ

-- `for (i = 0; i < n_vlc_src; i++) if (vlc_src_set[i] == vlc_tmp) …`: the first index.
unfoldable pub find_vlc : ℕ → ℕ → List ℕ → ℕ → Option ℕ
find_vlc zero i src vlc_tmp = none
find_vlc (suc n) i [] vlc_tmp = none
find_vlc (suc n) i (k ∷ src) vlc_tmp =
    let later = find_vlc n (suc i) src vlc_tmp in if k == vlc_tmp then some i else later

-- `vlc_src_set[i] = i`.
unfoldable pub src_from : ℕ → ℕ → List ℕ
src_from zero i = []
src_from (suc n) i = i ∷ src_from n (suc i)

module _ (F : Doubles) where
  open F use {D, of_int, add, mul, lt}

  -- The state of the `while` loop. `tgt_set` holds the entries written so far.
  pub record Choice : Type 0 where
    pub n_vlc_src : ℕ
    pub vlc_src_set : List ℕ
    pub tgt_set : List ℕ
    pub v_sum : ℕ
    pub err : D
    pub tgt : D

  -- The `for` loop of a round: the index of the best transmitter, if one is better than `tgt`.
  unfoldable pub best :
      ℕ → ℕ → ℕ → List ℕ → List D → ℕ → D → ℕ → Option ℕ → D → Option (Option ℕ × D)
  best zero gn r vk e v_sum err i vlc_tmp tgt = some (vlc_tmp, tgt)
  best (suc n) gn r vk e v_sum err i vlc_tmp tgt = do
    v ← get_elem? vk i
    ei ← get_elem? e i
    let temp = add (of_int (sub_ℕ (v_sum + v) gn)) (mul (mul (of_int (pos r)) err) ei)
    best n gn r vk e v_sum err (suc i) (if lt temp tgt then some i else vlc_tmp)
        (if lt temp tgt then temp else tgt)

  -- What a round does with the transmitter that it chose.
  unfoldable pub choose : List ℕ → List D → Choice → ℕ → D → Option Choice
  choose vk e c vlc_tmp tgt = do
    v ← get_elem? vk vlc_tmp
    ei ← get_elem? e vlc_tmp
    last ← get_elem? c.vlc_src_set (c.n_vlc_src - 1)
    let found : Option ℕ = find_vlc c.n_vlc_src 0 c.vlc_src_set vlc_tmp
    let src : List ℕ = elim found [ none ↦ c.vlc_src_set | some idx ↦ set c.vlc_src_set idx last ]
    let n : ℕ = elim found [ none ↦ c.n_vlc_src | some idx ↦ c.n_vlc_src - 1 ]
    if ltb (length c.tgt_set) (length vk)
        then some (record {
          n_vlc_src = n;
          vlc_src_set = src;
          tgt_set = c.tgt_set ++ vlc_tmp ∷ [];
          v_sum = c.v_sum + v;
          err = mul c.err ei;
          tgt = tgt;
        })
        else none

  -- `while (n_vlc_src > 0)`, on fuel.
  unfoldable pub choices : ℕ → ℕ → ℕ → List ℕ → List D → Choice → Option Choice
  choices zero gn r vk e c = none
  choices (suc fuel) gn r vk e c = elim (ltb 0 c.n_vlc_src) [
    | false ↦ some c
    | true ↦ do
      (vlc_tmp, tgt) ← best c.n_vlc_src gn r vk e c.v_sum c.err 0 none c.tgt
      elim vlc_tmp [
        | none ↦ some c
        | some k ↦ do c' ← choose vk e c k tgt; choices fuel gn r vk e c'
      ]
  ]

  -- The result: mode RF, and transmitter 0 as the only target.
  unfoldable pub schedule : ℕ → ℕ → ℕ → List ℕ → List D → Option SchedulingResult
  unfolding choices choose best find_vlc src_from
  schedule fuel gn r vk e = do
    c ← choices fuel gn r vk e (record {
      n_vlc_src = length vk;
      vlc_src_set = src_from (length vk) 0;
      tgt_set = [];
      v_sum = 0;
      err = of_int (pos 1);
      tgt = if ltb r gn then of_int (sub_ℕ r gn) else of_int (pos 0);
    })
    if ltb 0 (length vk)
        then some (record { mode = rf_mode; vlc_tgt_set = 0 ∷ []; n_vlc_tgt = 1 })
        else none

  -- With one transmitter, as configured, and fuel for two rounds, `schedule` ends with no access
  -- outside an array, and its result is RF, whatever the queues, the errors and the arithmetic are.
  pub schedule-one :
      (fuel gn r vk : ℕ) (e : D)
      → 1 < fuel
      → schedule fuel gn r (vk ∷ []) (e ∷ [])
        ≡ some (record { mode = rf_mode; vlc_tgt_set = 0 ∷ []; n_vlc_tgt = 1 })
  unfolding schedule
  schedule-one zero gn r vk e h = absurd (omega arith)
  schedule-one (suc zero) gn r vk e h = absurd (omega arith)
  schedule-one (suc (suc fuel)) gn r vk e h = ground arith
