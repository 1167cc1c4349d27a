-- ===== src/Examples/Data.antt =====
-- The data that the examples share.
use ciot_vlc.Base.{
  ℕ, zero, suc, ◌+◌, ◌-◌, ◌*◌, ◌/◌, refl, Bool, ◌||◌, List, [], ◌∷◌, ◌==◌, ltb, arith,
}
use ciot_vlc.Doubles.{ℤ, pos, negsuc, Doubles}
use ciot_vlc.Packet.{Packet, IsPacket}
use ciot_vlc.Gateway.Send.{rf_mac, my_mac}
use ciot_vlc.Gateway.Step.{Interfaces}
use ciot_vlc.Node.Status.{NodeStatus}
use ciot_vlc.Node.Track.{Marks}
use ciot_vlc.Node.Window.{IsStatus}

abbrev truncate : ℤ → ℕ
truncate (pos n) = n
truncate (negsuc n) = 0

-- Whole numbers that stop at 0, in place of `double`.
abbrev pub whole : Doubles
whole = record {
  D = ℕ;
  of_int = truncate;
  add = λ a b. a + b;
  sub = λ a b. a - b;
  mul = λ a b. a * b;
  div = λ a b. a / b;
  lt = ltb;
}

abbrev pub interfaces : Interfaces
interfaces = record { rf_if_mac = rf_mac; eth_if_mac = my_mac; ether_type = 0x300 }

abbrev pub sample : Packet
sample = record { node_id = 1; vlc_id = 0; payload_len = 2; seq_number = 5; payload = 7 ∷ 8 ∷ [] }

pub sample-IsPacket : IsPacket sample
sample-IsPacket = record {
  node = omega arith;
  vlc = omega arith;
  len = omega arith;
  seq = omega arith;
  bytes = refl;
}

abbrev pub rf_frame : List ℕ
rf_frame =
    0xec ∷ 0x08 ∷ 0x6b ∷ 0x13 ∷ 0x1e ∷ 0x5c ∷ 0x18 ∷ 0xa6 ∷ 0xf7 ∷ 0x1a ∷ 0xa9 ∷ 0x04 ∷ 0 ∷ 3 ∷ 1
    ∷ 0 ∷ 0 ∷ 0 ∷ 2 ∷ 0 ∷ 5 ∷ 0 ∷ 0 ∷ 0 ∷ 7 ∷ 8 ∷ []

abbrev pub eth_frame : List ℕ
eth_frame =
    0xb0 ∷ 0xd5 ∷ 0xcc ∷ 0xfc ∷ 0xfe ∷ 0x85 ∷ 0xa0 ∷ 0xf6 ∷ 0xfd ∷ 0x64 ∷ 0xaf ∷ 0xfc ∷ 0 ∷ 3 ∷ 1
    ∷ 0 ∷ 1 ∷ 0 ∷ 2 ∷ 0 ∷ 5 ∷ 0 ∷ 0 ∷ 0 ∷ 7 ∷ 8 ∷ []

-- Numbers 0, 1 and 3 have come.
abbrev pub gapped : NodeStatus
gapped = record { rcv_seq = 2; rcv_state = 1 ∷ 1 ∷ 0 ∷ 1 ∷ 0 ∷ 0 ∷ []; last_rcv_seq = 3 }

-- Numbers 1 and 3 have come.
abbrev pub headless : NodeStatus
headless = record { rcv_seq = 0; rcv_state = 0 ∷ 1 ∷ 0 ∷ 1 ∷ 0 ∷ 0 ∷ []; last_rcv_seq = 3 }

abbrev gapped_seen : ℕ → Bool
gapped_seen j = (j == 0) || (j == 1) || (j == 3)

abbrev headless_seen : ℕ → Bool
headless_seen j = (j == 1) || (j == 3)

gapped-Marks : Marks gapped.rcv_state 6 gapped_seen
gapped-Marks zero h = refl
gapped-Marks (suc zero) h = refl
gapped-Marks (suc (suc zero)) h = refl
gapped-Marks (suc (suc (suc zero))) h = refl
gapped-Marks (suc (suc (suc (suc zero)))) h = refl
gapped-Marks (suc (suc (suc (suc (suc zero))))) h = refl
gapped-Marks (suc (suc (suc (suc (suc (suc j)))))) h = absurd (omega arith)

headless-Marks : Marks headless.rcv_state 6 headless_seen
headless-Marks zero h = refl
headless-Marks (suc zero) h = refl
headless-Marks (suc (suc zero)) h = refl
headless-Marks (suc (suc (suc zero))) h = refl
headless-Marks (suc (suc (suc (suc zero)))) h = refl
headless-Marks (suc (suc (suc (suc (suc zero))))) h = refl
headless-Marks (suc (suc (suc (suc (suc (suc j)))))) h = absurd (omega arith)

pub gapped-IsStatus : IsStatus 6 gapped
gapped-IsStatus = record {
  seen = gapped_seen;
  size = refl;
  marks = gapped-Marks;
  top = λ j e. ground arith;
  room = omega arith;
  window = omega arith;
}

pub headless-IsStatus : IsStatus 6 headless
headless-IsStatus = record {
  seen = headless_seen;
  size = refl;
  marks = headless-Marks;
  top = λ j e. ground arith;
  room = omega arith;
  window = omega arith;
}
