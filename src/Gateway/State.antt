-- ===== src/Gateway/State.antt =====
-- The shared state of the gateway's threads: `struct gateway_status` and the variables at the top
-- of `gateway (eth)_gateway/main.c`. `N_NODE` and `N_VLC` are 1, so an array over nodes or
-- transmitters is its single entry.
use ciot_vlc.Base.{ℕ, zero, suc, Option, none, some, List, [], ◌==◌, ltb, if◌then◌else◌}
use ciot_vlc.Packet.{Packet}
use ciot_vlc.Queue.Fifo.{Fifo}

-- The configuration in `gateway.h`.
abbrev pub node_queue_size : ℕ
node_queue_size = 1000000

abbrev pub rf_queue_size : ℕ
rf_queue_size = 300000

abbrev pub max_unacked_vlc_packet : ℕ
max_unacked_vlc_packet = 500000

abbrev pub max_seq_number : ℕ
max_seq_number = 500000

abbrev pub payload_size : ℕ
payload_size = 74

abbrev pub timeout_nanosecond : ℕ
timeout_nanosecond = 600000

abbrev pub token_rate : ℕ
token_rate = 1

abbrev pub burst : ℕ
burst = 6

-- `LIMIT`, the packets that may wait for a token.
abbrev pub tbf_limit : ℕ
tbf_limit = 1

-- `VLC_unacked`, `VLC_acked` and `RF`.
abbrev pub vlc_unacked : ℕ
vlc_unacked = 1

abbrev pub vlc_acked : ℕ
vlc_acked = 2

abbrev pub rf : ℕ
rf = 3

-- Times are nanoseconds. Counters are `int`s that the code never makes negative: a decrement at 0
-- is `none`. `rf_sent` and `vlc_sent` record the packets that went out; the code has no such lists.
pub record Gateway (D : Type 0) : Type 0 where
  pub unacked_seq : ℕ
  pub unsched_seq : ℕ
  pub arr_seq : ℕ
  pub pkt_state : ℕ → ℕ
  pub expire_time : ℕ → ℕ
  pub node_queue : Fifo
  pub rf_queue : Fifo
  pub vlc_queue : Fifo
  pub tbf_queue : Fifo
  pub gn : ℕ
  pub d_vlc : ℕ
  pub r : ℕ
  pub e : D
  pub vk : ℕ
  pub n_token : ℕ
  pub tbf_queue_length : ℕ
  pub unacked_vlc_packet : List Packet
  pub rf_sent : List Packet
  pub vlc_sent : List Packet

abbrev fifo : ℕ → Fifo
fifo limit = record { items = []; limit = limit }

-- `initializeGatewayStatus`, `initialize_algorithm_3_variables` and the queues that `main`
-- constructs; `zero_error` is the `double` 0.
unfoldable pub initial : {D : Type 0} → D → Gateway D
initial zero_error = record {
  unacked_seq = 0;
  unsched_seq = 0;
  arr_seq = 0;
  pkt_state = λ j. 0;
  expire_time = λ j. 0;
  node_queue = fifo node_queue_size;
  rf_queue = fifo rf_queue_size;
  vlc_queue = fifo rf_queue_size;
  tbf_queue = fifo tbf_limit;
  gn = 0;
  d_vlc = 0;
  r = 0;
  e = zero_error;
  vk = 0;
  n_token = 0;
  tbf_queue_length = 0;
  unacked_vlc_packet = [];
  rf_sent = [];
  vlc_sent = [];
}

-- `n--` of a counter.
unfoldable pub decrement : ℕ → Option ℕ
decrement zero = none
decrement (suc n) = some n

-- `a[i] = v` in an array of `MAX_SEQ_NUMBER` entries.
unfoldable pub store : (ℕ → ℕ) → ℕ → ℕ → Option (ℕ → ℕ)
store a i v = if ltb i max_seq_number then some (λ j. if i == j then v else a j) else none
