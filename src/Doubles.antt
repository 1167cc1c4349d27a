-- ===== src/Doubles.antt =====
-- The `double` arithmetic that the gateway and the node use, as an interface, since C does not fix
-- its results.
use ciot_vlc.Base.{ℕ, ◌-◌, Bool, leb, if◌then◌else◌}

-- An `int` that may be negative: `pos n` is n, `negsuc n` is -(n + 1).
pub data ℤ : Type 0 where
  pos : ℕ → ℤ
  negsuc : ℕ → ℤ

-- a - b.
abbrev pub sub_ℕ : ℕ → ℕ → ℤ
sub_ℕ a b = if leb b a then pos (a - b) else negsuc (b - a - 1)

pub record Doubles : Type 1 where
  pub D : Type 0
  pub of_int : ℤ → D
  pub add : D → D → D
  pub sub : D → D → D
  pub mul : D → D → D
  pub div : D → D → D
  pub lt : D → D → Bool
