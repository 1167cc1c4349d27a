-- ===== src/Node/Window.antt =====
-- The node's status between packets, in general: `process_data` and the window of the report.
use ciot_vlc.Base.{
  ℕ, zero, suc, ◌+◌, ◌^◌, ◌≤◌, ◌<◌, ◌≡◌, refl, ◌∙◌, Bool, true, false, ◌&&◌, ◌||◌, none, some, List,
  ◌==◌, ltb, leb, if◌then◌else◌, length, get_elem?, set, [], ◌∷◌, arith, get_elem?-set_self, inl,
  inr, Bool-cases, length-set, length-replicate, le→leb, lt→ltb,
}
use ciot_vlc.Node.Status.{
  NodeStatus, initialize_node_status, mark, advance, limit_window, process_data,
}
use ciot_vlc.Node.Track.{Marks, advance_lem, get_elem?-set, initialize-Tracks}

-- `seen` says which entries are marked; none is above the last number.
pub record IsStatus (max : ℕ) (s : NodeStatus) : Type 0 where
  pub seen : ℕ → Bool
  pub size : length s.rcv_state ≡ max
  pub marks : Marks s.rcv_state max seen
  pub top : (j : ℕ) → seen j ≡ true → j ≤ s.last_rcv_seq
  pub room : s.last_rcv_seq + 1 < max
  pub window : s.rcv_seq ≤ s.last_rcv_seq + 1

pub initialize-IsStatus : (max : ℕ) → 1 < max → IsStatus max (initialize_node_status max)
unfolding initialize_node_status
initialize-IsStatus max h = record {
  seen = λ j. false;
  size = length-replicate max 0;
  marks = (initialize-Tracks max max h).marks;
  top = λ j e. cc;
  room = h;
  window = omega arith;
}

-- What a packet leaves: a status, with the window cut to `max_ack` and no number going back.
pub record Kept (max max_ack : ℕ) (s : NodeStatus) (i : ℕ) : Type 0 where
  pub after : NodeStatus
  pub returned : process_data max_ack s i ≡ some after
  pub valid : IsStatus max after
  pub bounded : after.last_rcv_seq + 1 ≤ after.rcv_seq + max_ack
  pub ack_grows : s.rcv_seq ≤ after.rcv_seq
  pub last_grows : (s.last_rcv_seq ≤ after.last_rcv_seq) × (i ≤ after.last_rcv_seq)

limit_window_bounds :
    (max_ack last k : ℕ)
    → 0 < max_ack
    → k ≤ last + 1
    → (k ≤ limit_window max_ack last k)
      × (limit_window max_ack last k ≤ last + 1)
      × (last + 1 ≤ limit_window max_ack last k + max_ack)
unfolding limit_window
limit_window_bounds max_ack last k p h = ground arith

module _ {max : ℕ} {s : NodeStatus} (v : IsStatus max s) where
  -- Which entries are marked after packet `i`.
  abbrev seen_after : ℕ → ℕ → Bool
  seen_after i j = ((i == j) && leb s.rcv_seq i) || v.seen j

  marked :
      (i : ℕ)
      → i < max
      → (l : List ℕ) × ((if leb s.rcv_seq i then mark s.rcv_state i else some s.rcv_state) ≡ some l)
        × (length l ≡ max)
        × Marks l max (seen_after i)
  unfolding mark
  marked i h = elim (Bool-cases (leb s.rcv_seq i)) [
    | inl new ↦ (
      set s.rcv_state i 1,
      rw (new, lt→ltb i (length s.rcv_state) (omega (arith, v.size))) refl,
      length-set s.rcv_state i 1 ∙ v.size,
      λ j l. ground (arith, get_elem?-set s.rcv_state i j 1, v.marks j, v.size),
    )
    | inr old ↦ (s.rcv_state, rw old refl, v.size, λ j l. ground (arith, v.marks j))
  ]

  not_seen : (i last : ℕ) → i ≤ last → s.last_rcv_seq ≤ last → seen_after i (last + 1) ≡ false
  not_seen i last h k = elim (Bool-cases (v.seen (last + 1))) [
    | inl got ↦ absurd (omega (arith, v.top (last + 1) got))
    | inr gap ↦ ground arith
  ]

  -- Between packets, with a window of at least 1, a packet with any number but the last of the array
  -- is processed with no access outside it: the window is then at most `max_ack` wide, the ACK
  -- number and the last number do not go back, and the status is well formed again.
  pub process_data-Kept :
      (max_ack i : ℕ) → 0 < max_ack → i < 2 ^ 31 → i + 1 < max → Kept max max_ack s i
  unfolding process_data
  process_data-Kept max_ack i pos small h =
      let (l, eq, size, marks) = marked i (omega arith) in
      let last : ℕ = if ltb s.last_rcv_seq i then i else s.last_rcv_seq in
      let le_last : (i ≤ last) × (s.last_rcv_seq ≤ last) × (last + 1 < max) =
        ground (arith, v.room) in
      let (k, run, lo, hi, out, all) =
        advance_lem (suc (length l)) s.rcv_seq (last + 1) max l (seen_after i) (omega (arith, size))
          (omega (arith, v.window)) (omega arith) marks (not_seen i last le_last.0 le_last.1) in
      let bounds = limit_window_bounds max_ack last k pos hi in
      record {
        after = record {
          rcv_seq = limit_window max_ack last k;
          rcv_state = l;
          last_rcv_seq = last;
        };
        returned = rw (lt→ltb i (2 ^ 31) small, eq, run) refl;
        valid = record {
          seen = seen_after i;
          size = size;
          marks = marks;
          top = λ j e. ground (arith, v.top j);
          room = omega arith;
          window = omega (arith, bounds);
        };
        bounded = omega (arith, bounds);
        ack_grows = omega (arith, bounds);
        last_grows = omega arith;
      }

get_elem?-none : (l : List ℕ) (j : ℕ) → length l ≤ j → get_elem? l j ≡ none
get_elem?-none [] j h = refl
get_elem?-none (x ∷ l) zero h = elim h [ ]
get_elem?-none (x ∷ l) (suc j) h = get_elem?-none l j (omega arith)

advance-none : (fuel : ℕ) (l : List ℕ) (j : ℕ) → length l ≤ j → advance fuel l j ≡ none
unfolding advance
advance-none zero l j h = refl
advance-none (suc fuel) l j h = rw (get_elem?-none l j h) refl

advance_last :
    (fuel : ℕ) (l : List ℕ) (i : ℕ)
    → get_elem? l i ≡ some 1
    → length l ≤ i + 1
    → advance fuel l i ≡ none
unfolding advance
advance_last zero l i e h = refl
advance_last (suc fuel) l i e h = rw (e) (advance-none fuel l (suc i) (omega arith))

-- A packet with the last number of the array, an `int`, arriving when the ACK number stands at it,
-- drives the loop past the end of the array.
pub process_data-last :
    (max max_ack i : ℕ) (s : NodeStatus)
    → length s.rcv_state ≡ max
    → i + 1 ≡ max
    → s.rcv_seq ≡ i
    → i < 2 ^ 31
    → process_data max_ack s i ≡ none
unfolding process_data mark
process_data-last max max_ack i s size top next small =
    let l : List ℕ = set s.rcv_state i 1 in
    let len : length l ≡ max = length-set s.rcv_state i 1 ∙ size in
    rw
      (
        lt→ltb i (2 ^ 31) small,
        next,
        le→leb i i (omega arith),
        lt→ltb i (length s.rcv_state) (omega (arith, size)),
        advance_last (suc (length l)) l i (get_elem?-set_self s.rcv_state i 1 (omega (arith, size)))
            (omega arith),
      )
      refl
