-- ===== src/Link/World/Status.antt =====
-- The node's status across its rounds, as the reports need it.
use ciot_vlc.Base.{
  ℕ, zero, suc, ◌+◌, ◌≤◌, ◌<◌, ◌≡◌, refl, sym, true, some, List, [], ◌∷◌, ◌++◌, ◌>>=◌, append-nil,
  bind_some, ◌==◌, leb, arith, Bool-cases, inl, inr,
}
use ciot_vlc.Packet.{Packet}
use ciot_vlc.Queue.Fifo
use ciot_vlc.Gateway.Flow.{numbers}
use ciot_vlc.Node.Status.{NodeStatus, process_data}
use ciot_vlc.Node.Track.{mem, in_list, Tracks, AreBelow}
use ciot_vlc.Node.Window.{IsStatus}
use ciot_vlc.Node.Rounds.{Node, process_popped, process_next}

-- A status that tracks packets is one between packets.
pub Tracks-IsStatus :
    {max bound : ℕ} {s : NodeStatus} {seqs : List ℕ}
    → bound ≤ max
    → Tracks max bound s seqs
    → IsStatus max s
Tracks-IsStatus {s} {seqs} fits t = record {
  seen = in_list seqs;
  size = t.size;
  marks = t.marks;
  top = t.top;
  room = omega (arith, t.room);
  window = t.window;
}

-- The ACK number does not go back when more is received.
pub Tracks-grows :
    {max bound : ℕ} {s s' : NodeStatus} {seqs more : List ℕ}
    → Tracks max bound s seqs
    → Tracks max bound s' more
    → ((j : ℕ) → mem j seqs ≡ true → mem j more ≡ true)
    → s.rcv_seq ≤ s'.rcv_seq
Tracks-grows {s} {s'} t t' sub = elim (Bool-cases (leb s.rcv_seq s'.rcv_seq)) [
  | inl le ↦ ground arith
  | inr lt ↦
      let below : s'.rcv_seq < s.rcv_seq = ground arith in
      let got = sub s'.rcv_seq (t.below s'.rcv_seq below) in absurd (ground (arith, t'.first))
]

pub mem-append_left :
    (j : ℕ) (l m : List Packet) → mem j (numbers l) ≡ true → mem j (numbers (l ++ m)) ≡ true
mem-append_left j [] m e = absurd (ground arith)
mem-append_left j (p ∷ l) m e = elim (Bool-cases (p.seq_number == j)) [
  | inl here ↦ rw here refl
  | inr other ↦ rw other (mem-append_left j l m (rw other at e))
]

pub AreBelow-mem : (b j : ℕ) (l : List ℕ) → AreBelow b l → mem j l ≡ true → j + 1 < b
AreBelow-mem b j [] v e = absurd (ground arith)
AreBelow-mem b j (k ∷ l) v e = elim (Bool-cases (k == j)) [
  | inl here ↦ ground (arith, v.0)
  | inr other ↦ AreBelow-mem b j l v.1 (rw other at e)
]

-- What `process_data` has taken, it keeps.
pub process_next-processed :
    (max_ack : ℕ) (n n' : Node)
    → process_next max_ack n ≡ some n'
    → (more : List Packet) × (n'.processed ≡ n.processed ++ more)
unfolding process_next process_popped Fifo.pop
process_next-processed max_ack n n' e = go n.receiver.process_queue.items refl
  where
    go :
        (l : List Packet)
        → n.receiver.process_queue.items ≡ l
        → (more : List Packet) × (n'.processed ≡ n.processed ++ more)
    go [] empty =
        let same : n' ≡ n = ground (arith, empty) in ([], rw same (sym (append-nil n.processed)))
    go (p ∷ rest) full =
        let after : NodeStatus → Node = λ s. record {
          receiver = record n.receiver {
            process_queue = record n.receiver.process_queue { items = rest };
          };
          status = s;
          processed = n.processed ++ p ∷ [];
        } in
        let ran : (process_data max_ack n.status p.seq_number >>= λ s. some (after s)) ≡ some n' =
          rw full at e in
        let (s, a, b) =
          bind_some (process_data max_ack n.status p.seq_number) (λ s. some (after s)) ran in
        let same : after s ≡ n' = ground arith in (p ∷ [], rw (sym same) refl)

-- Every number below `n` is in the list.
abbrev pub Includes : ℕ → List ℕ → Type 0
Includes zero l = Unit {0}
Includes (suc n) l = Includes n l × (mem n l ≡ true)

pub Includes-of_mem : (n : ℕ) (l : List ℕ) → ((j : ℕ) → j < n → mem j l ≡ true) → Includes n l
Includes-of_mem zero l h = tt
Includes-of_mem (suc n) l h = (Includes-of_mem n l (λ j k. h j (omega arith)), h n (omega arith))
