-- ===== src/Node/Status.antt =====
-- What the node has received: `node.c`, and the body of `process_data` of `main.c`. `none` is an
-- access outside `rcv_state`.
use ciot_vlc.Base.{
  ℕ, zero, suc, ◌+◌, ◌-◌, ◌^◌, true, false, ◌&&◌, Option, none, some, List, ◌>>=◌, ◌==◌, ltb, leb,
  if◌then◌else◌, length, get_elem?, set, replicate, [], ◌∷◌,
}

-- `struct node_status`.
pub record NodeStatus : Type 0 where
  pub rcv_seq : ℕ
  pub rcv_state : List ℕ
  pub last_rcv_seq : ℕ

-- `MAX_SEQ_NUMBER` and `max_ACK_bit_pattern` of `node.h`.
abbrev pub max_seq_number : ℕ
max_seq_number = 500000

abbrev pub max_ack_bit_pattern : ℕ
max_ack_bit_pattern = 100000

unfoldable pub initialize_node_status : ℕ → NodeStatus
initialize_node_status max_sequence = record {
  rcv_seq = 0;
  rcv_state = replicate max_sequence 0;
  last_rcv_seq = 0;
}

-- `rcv_state[i] = 1`.
unfoldable pub mark : List ℕ → ℕ → Option (List ℕ)
mark rcv_state i = if ltb i (length rcv_state) then some (set rcv_state i 1) else none

-- `while (rcv_state[rcv_seq] == 1) rcv_seq += 1;` on fuel.
unfoldable pub advance : ℕ → List ℕ → ℕ → Option ℕ
advance zero rcv_state rcv_seq = none
advance (suc fuel) rcv_state rcv_seq = do
  s ← get_elem? rcv_state rcv_seq
  elim (s == 1) [ true ↦ advance fuel rcv_state (suc rcv_seq) | false ↦ some rcv_seq ]

-- The window of the report is at most `max_ack` wide: an older gap is given up.
unfoldable pub limit_window : ℕ → ℕ → ℕ → ℕ
limit_window max_ack last_rcv_seq rcv_seq =
    if ltb (max_ack + rcv_seq) (last_rcv_seq + 1) then last_rcv_seq + 1 - max_ack else rcv_seq

-- The body of `process_data` for a packet with this `uint32_t` number. As an `int` a number from
-- 2 ^ 31 on is negative, and passes neither of the first two tests.
unfoldable pub process_data : ℕ → NodeStatus → ℕ → Option NodeStatus
process_data max_ack status seq_number = do
  let is_int = ltb seq_number (2 ^ 31)
  rcv_state ←
      if is_int && leb status.rcv_seq seq_number
      then mark status.rcv_state seq_number
      else some status.rcv_state
  let last =
      if is_int && ltb status.last_rcv_seq seq_number then seq_number else status.last_rcv_seq
  rcv_seq ← advance (suc (length rcv_state)) rcv_state status.rcv_seq
  some (record {
    rcv_seq = limit_window max_ack last rcv_seq;
    rcv_state = rcv_state;
    last_rcv_seq = last;
  })

-- The packets of the queue, in order.
unfoldable pub process_all : ℕ → NodeStatus → List ℕ → Option NodeStatus
process_all max_ack status [] = some status
process_all max_ack status (seq ∷ seqs) = do
  status' ← process_data max_ack status seq
  process_all max_ack status' seqs
