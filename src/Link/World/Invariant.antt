-- ===== src/Link/World/Invariant.antt =====
-- What holds in every world that the allowed steps reach.
use ciot_vlc.Base.{
  ℕ, zero, suc, ◌+◌, ◌≤◌, ◌<◌, ◌≡◌, refl, sym, ap, ◌∙◌, some, List, [], ◌∷◌, ◌++◌, length,
  get_elem?, get_elem?-append_left, length-append, Bool-cases, inl, inr, ltb, ltb→lt, arith,
}
use ciot_vlc.Packet.{Packet}
use ciot_vlc.Gateway.State.{Gateway, initial}
use ciot_vlc.Gateway.Flow.{Flow, numbers, upto, IsFull, AreFull, initial-Flow, length-upto, total}
use ciot_vlc.Node.Wire.{my_mac}
use ciot_vlc.Node.Status.{NodeStatus, max_seq_number, max_ack_bit_pattern}
use ciot_vlc.Node.Track.{AreBelow}
use ciot_vlc.Node.Window.{IsStatus}
use ciot_vlc.Node.SendReport.{send_report}
use ciot_vlc.Node.Receive.{initial_receiver}
use ciot_vlc.Node.Rounds.{Node, initial_node}
use ciot_vlc.Link.Node.{IsNode, taken, initial-IsNode}
use ciot_vlc.Link.World.{World, initial_world}

-- The packet is one of those sent, as the node reads it over RF.
pub record IsSent (sent : List Packet) (q : Packet) : Type 0 where
  pub index : ℕ
  pub packet : Packet
  pub there : get_elem? sent index ≡ some packet
  pub same : q ≡ record packet { vlc_id = 0 }

abbrev pub AreSent : List Packet → List Packet → Type 0
AreSent sent [] = Unit {0}
AreSent sent (q ∷ l) = IsSent sent q × AreSent sent l

-- The node sent the frame in a status whose ACK number is at most `ack`.
pub record IsReportFrame (ether_type ack : ℕ) (frame : List ℕ) : Type 0 where
  pub quality : ℕ
  pub status : NodeStatus
  pub valid : IsStatus max_seq_number status
  pub fits : status.last_rcv_seq + 1 ≤ status.rcv_seq + 7984
  pub first : 0 < status.rcv_seq
  pub acked : status.rcv_seq ≤ ack
  pub made : send_report my_mac ether_type quality status ≡ some frame

abbrev pub AreReportFrames : ℕ → ℕ → List (List ℕ) → Type 0
AreReportFrames ether_type ack [] = Unit {0}
AreReportFrames ether_type ack (frame ∷ l) =
    IsReportFrame ether_type ack frame × AreReportFrames ether_type ack l

-- The numbers that the node may have received, before and after one more.
abbrev pub number_bound : {D : Type 0} → World D → ℕ
number_bound w = w.gateway.arr_seq + 2

pub record IsWorld {D : Type 0} (ether_type : ℕ) (w : World D) : Type 0 where
  pub flow : Flow w.gateway.arr_seq w.gateway
  pub few : w.gateway.arr_seq < max_ack_bit_pattern
  pub node : IsNode max_seq_number (number_bound w) w.node
  pub sent : AreSent w.gateway.rf_sent (taken w.node)
  pub reports : AreReportFrames ether_type w.node.status.rcv_seq w.reports
  pub acked : w.gateway.unacked_seq ≤ w.node.status.rcv_seq

pub IsSent-append : (sent new : List Packet) (q : Packet) → IsSent sent q → IsSent (sent ++ new) q
IsSent-append sent new q v = record {
  index = v.index;
  packet = v.packet;
  there = get_elem?-append v.index sent new v.there;
  same = v.same;
}
  where
    get_elem?-append :
        (k : ℕ) (l m : List Packet) {p : Packet}
        → get_elem? l k ≡ some p
        → get_elem? (l ++ m) k ≡ some p
    get_elem?-append k [] m e = absurd (ground arith)
    get_elem?-append zero (x ∷ l) m e = e
    get_elem?-append (suc k) (x ∷ l) m e = get_elem?-append k l m e

pub AreSent-more : (sent new l : List Packet) → AreSent sent l → AreSent (sent ++ new) l
AreSent-more sent new [] v = tt
AreSent-more sent new (q ∷ l) v = (IsSent-append sent new q v.0, AreSent-more sent new l v.1)

pub AreSent-append :
    (sent l : List Packet) (q : Packet)
    → AreSent sent l
    → IsSent sent q
    → AreSent sent (l ++ q ∷ [])
AreSent-append sent [] q v s = (s, tt)
AreSent-append sent (p ∷ l) q v s = (v.0, AreSent-append sent l q v.1 s)

pub AreReportFrames-grow :
    (ether_type a b : ℕ) (l : List (List ℕ))
    → a ≤ b
    → AreReportFrames ether_type a l
    → AreReportFrames ether_type b l
AreReportFrames-grow ether_type a b [] h v = tt
AreReportFrames-grow ether_type a b (frame ∷ l) h v = (
  record {
    quality = v.0.quality;
    status = v.0.status;
    valid = v.0.valid;
    fits = v.0.fits;
    first = v.0.first;
    acked = omega (arith, v.0.acked);
    made = v.0.made;
  },
  AreReportFrames-grow ether_type a b l h v.1,
)

pub AreReportFrames-append :
    (ether_type a : ℕ) (l : List (List ℕ)) (frame : List ℕ)
    → AreReportFrames ether_type a l
    → IsReportFrame ether_type a frame
    → AreReportFrames ether_type a (l ++ frame ∷ [])
AreReportFrames-append ether_type a [] frame v r = (r, tt)
AreReportFrames-append ether_type a (x ∷ l) frame v r =
    (v.0, AreReportFrames-append ether_type a l frame v.1 r)

pub AreReportFrames-at :
    (ether_type a k : ℕ) (l : List (List ℕ))
    → k < length l
    → AreReportFrames ether_type a l
    → (frame : List ℕ) × (get_elem? l k ≡ some frame) × IsReportFrame ether_type a frame
AreReportFrames-at ether_type a k [] h v = elim h [ ]
AreReportFrames-at ether_type a zero (frame ∷ l) h v = (frame, refl, v.0)
AreReportFrames-at ether_type a (suc k) (frame ∷ l) h v =
    AreReportFrames-at ether_type a k l (omega arith) v.1

get_elem?-last : (l : List ℕ) (x : ℕ) → get_elem? (l ++ x ∷ []) (length l) ≡ some x
get_elem?-last [] x = refl
get_elem?-last (y ∷ l) x = get_elem?-last l x

get_elem?-upto : (k n : ℕ) → k < n → get_elem? (upto n) k ≡ some k
get_elem?-upto k zero h = elim h [ ]
get_elem?-upto k (suc n) h = elim (Bool-cases (ltb k n)) [
  | inl before ↦
      let lt : k < n = ltb→lt k n before in
      get_elem?-append_left (upto n) (n ∷ []) k (omega (arith, length-upto n))
      ∙ get_elem?-upto k n lt
  | inr here ↦
      let same : k ≡ n = ground arith in rw same (rw (length-upto n) at (get_elem?-last (upto n) n))
]

get_elem?-some : {A : Type 0} (l : List A) (k : ℕ) {x : A} → get_elem? l k ≡ some x → k < length l
get_elem?-some [] k e = absurd (ground arith)
get_elem?-some (y ∷ l) zero e = omega arith
get_elem?-some (y ∷ l) (suc k) e = let h = get_elem?-some l k e in omega arith

IsFull-at :
    (k : ℕ) (l m : List Packet)
    → k < length l
    → AreFull (l ++ m)
    → (p : Packet) × (get_elem? l k ≡ some p)
      × IsFull p
      × (get_elem? (numbers (l ++ m)) k ≡ some p.seq_number)
IsFull-at k [] m h v = elim h [ ]
IsFull-at zero (p ∷ l) m h v = (p, refl, v.0, refl)
IsFull-at (suc k) (p ∷ l) m h v = IsFull-at k l m (omega arith) v.1

-- A packet sent over RF, numbered by its place.
pub record SentAt (n k : ℕ) (sent : List Packet) : Type 0 where
  pub packet : Packet
  pub there : get_elem? sent k ≡ some packet
  pub number : packet.seq_number ≡ k
  pub full : IsFull packet
  pub before : k < n

pub sent_at :
    {D : Type 0} {n k : ℕ} {g : Gateway D} → Flow n g → k < length g.rf_sent → SentAt n k g.rf_sent
sent_at {n} {k} {g} f h =
    let waiting = g.tbf_queue.items ++ (g.rf_queue.items ++ g.node_queue.items) in
    let (p, there, full, number) = IsFull-at k g.rf_sent waiting h f.full in
    let few : k < n = omega (arith, total f, length-append {0} g.rf_sent waiting) in
    let e : get_elem? (upto n) k ≡ some p.seq_number = rw f.ordered at number in
    let same : some p.seq_number ≡ some k = sym e ∙ get_elem?-upto k n few in
    record { packet = p; there = there; number = ground arith; full = full; before = few }

-- What was sent has numbers below the number of packets generated.
pub AreSent-AreBelow :
    {D : Type 0} {n : ℕ} {g : Gateway D} (l : List Packet)
    → Flow n g
    → AreSent g.rf_sent l
    → AreBelow (n + 1) (numbers l)
AreSent-AreBelow [] f v = tt
AreSent-AreBelow {g} (q ∷ l) f v =
    let s = sent_at f (get_elem?-some g.rf_sent v.0.index v.0.there) in
    let same : some s.packet ≡ some v.0.packet = sym s.there ∙ v.0.there in
    let number : q.seq_number ≡ v.0.index =
      ground (arith, ap (λ (p : Packet). p.seq_number) v.0.same, s.number) in
    (omega (arith, number, s.before), AreSent-AreBelow l f v.1)

pub AreBelow-weaken : (a b : ℕ) (l : List ℕ) → a ≤ b → AreBelow a l → AreBelow b l
AreBelow-weaken a b [] h v = tt
AreBelow-weaken a b (k ∷ l) h v = (omega (arith, v.0), AreBelow-weaken a b l h v.1)

pub IsNode-weaken : {max : ℕ} (a b : ℕ) (n : Node) → a ≤ b → IsNode max a n → IsNode max b n
IsNode-weaken a b n h v = record {
  tracks = record {
    size = v.tracks.size;
    marks = v.tracks.marks;
    below = v.tracks.below;
    first = v.tracks.first;
    top = v.tracks.top;
    room = omega (arith, v.tracks.room);
    window = v.tracks.window;
  };
  limit = v.limit;
}

pub initial-IsWorld :
    {D : Type 0} (ether_type : ℕ) (zero_error : D) → IsWorld ether_type (initial_world zero_error)
unfolding initial initial_node initial_receiver
initial-IsWorld ether_type zero_error = record {
  flow = initial-Flow zero_error;
  few = omega arith;
  node =
      initial-IsNode {max = max_seq_number} {bound = 2} max_ack_bit_pattern (omega arith)
        (omega arith) (omega arith) (omega arith);
  sent = tt;
  reports = tt;
  acked = omega arith;
}
