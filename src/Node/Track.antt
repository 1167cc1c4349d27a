-- ===== src/Node/Track.antt =====
-- What the node knows after a run of packets: `process_data` against the numbers received.
use ciot_vlc.Base.{
  ℕ, zero, suc, ◌+◌, ◌-◌, ◌^◌, ◌≤◌, ◌<◌, ◌≡◌, refl, ◌∙◌, Bool, true, false, ◌&&◌, ◌||◌, some, List,
  ◌==◌, ltb, leb, if◌then◌else◌, length, get_elem?, set, replicate, [], ◌∷◌, arith, inl, inr,
  Bool-cases, length-set, length-replicate, lt→ltb, le→ltb,
}
use ciot_vlc.Node.Status.{
  NodeStatus, initialize_node_status, mark, advance, limit_window, process_data, process_all,
}

abbrev pub mem : ℕ → List ℕ → Bool
mem j [] = false
mem j (i ∷ l) = (i == j) || mem j l

-- Entry `j` is 1 exactly where `m` holds.
abbrev pub Marks : List ℕ → ℕ → (ℕ → Bool) → Type 0
Marks rcv_state max m = (j : ℕ) → j < max → get_elem? rcv_state j ≡ some (if m j then 1 else 0)

abbrev pub in_list : List ℕ → ℕ → Bool
in_list seqs j = mem j seqs

pub record Tracks (max bound : ℕ) (s : NodeStatus) (seqs : List ℕ) : Type 0 where
  pub size : length s.rcv_state ≡ max
  pub marks : Marks s.rcv_state max (in_list seqs)
  pub below : (j : ℕ) → j < s.rcv_seq → mem j seqs ≡ true
  pub first : mem s.rcv_seq seqs ≡ false
  pub top : (j : ℕ) → mem j seqs ≡ true → j ≤ s.last_rcv_seq
  pub room : s.last_rcv_seq + 1 < bound
  pub window : s.rcv_seq ≤ s.last_rcv_seq + 1

pub get_elem?-set :
    (l : List ℕ) (i j v : ℕ)
    → j < length l
    → get_elem? (set l i v) j ≡ (if i == j then some v else get_elem? l j)
get_elem?-set [] i j v h = elim h [ ]
get_elem?-set (x ∷ l) zero zero v h = refl
get_elem?-set (x ∷ l) zero (suc j) v h = ground arith
get_elem?-set (x ∷ l) (suc i) zero v h = ground arith
get_elem?-set (x ∷ l) (suc i) (suc j) v h = ground (arith, get_elem?-set l i j v)

get_elem?-replicate : (n j : ℕ) → j < n → get_elem? {A = ℕ} (replicate n 0) j ≡ some 0
get_elem?-replicate zero j h = elim h [ ]
get_elem?-replicate (suc n) zero h = refl
get_elem?-replicate (suc n) (suc j) h = get_elem?-replicate n j (omega arith)

-- The loop stops at the first number missing, if there is one in the array.
pub advance_lem :
    (fuel start stop max : ℕ) (rcv_state : List ℕ) (m : ℕ → Bool)
    → stop - start < fuel
    → start ≤ stop
    → stop < max
    → Marks rcv_state max m
    → m stop ≡ false
    → (k : ℕ) × (advance fuel rcv_state start ≡ some k)
      × (start ≤ k)
      × (k ≤ stop)
      × (m k ≡ false)
      × ((j : ℕ) → start ≤ j → j < k → m j ≡ true)
unfolding advance
advance_lem zero start stop max rcv_state m f h l marks e = elim f [ ]
advance_lem (suc fuel) start stop max rcv_state m f h l marks e = elim (Bool-cases (m start)) [
  | inl got ↦
      let apart : start < stop = ground arith in
      let (k, run, lo, hi, out, all) =
        advance_lem fuel (suc start) stop max rcv_state m (omega arith) apart l marks e in
      (
        k,
        rw (marks start (omega arith), got) run,
        omega arith,
        hi,
        out,
        λ j p q. ground (arith, all j),
      )
  | inr gap ↦ (
    start,
    rw (marks start (omega arith), gap) refl,
    omega arith,
    h,
    gap,
    λ j p q. absurd (omega arith),
  )
]

-- A status that has just been set up tracks no packet.
pub initialize-Tracks :
    (max bound : ℕ) → 1 < bound → Tracks max bound (initialize_node_status max) []
unfolding initialize_node_status
initialize-Tracks max bound h = record {
  size = length-replicate max 0;
  marks = λ j l. get_elem?-replicate max j l;
  below = λ j l. elim l [ ];
  first = refl;
  top = λ j e. cc;
  room = h;
  window = omega arith;
}

module _ {max bound : ℕ} {s : NodeStatus} {seqs : List ℕ} (t : Tracks max bound s seqs) where
  -- The array after the mark, on both branches of the test.
  marked :
      (i : ℕ)
      → i < 2 ^ 31
      → i < max
      → (l : List ℕ) × ((if ltb i (2 ^ 31) && leb s.rcv_seq i
            then mark s.rcv_state i
            else some s.rcv_state)
          ≡ some l)
        × (length l ≡ max)
        × Marks l max (in_list (i ∷ seqs))
  unfolding mark
  marked i small h = elim (Bool-cases (leb s.rcv_seq i)) [
    | inl new ↦ (
      set s.rcv_state i 1,
      rw (lt→ltb i (2 ^ 31) small, new, lt→ltb i (length s.rcv_state) (omega (arith, t.size))) refl,
      length-set s.rcv_state i 1 ∙ t.size,
      λ j l. ground (arith, get_elem?-set s.rcv_state i j 1, t.marks j, t.size),
    )
    | inr old ↦ (
      s.rcv_state,
      rw (lt→ltb i (2 ^ 31) small, old) refl,
      t.size,
      λ j l. ground (arith, t.marks j, t.below j),
    )
  ]

  not_seen : (i last : ℕ) → i ≤ last → s.last_rcv_seq ≤ last → mem (last + 1) (i ∷ seqs) ≡ false
  not_seen i last h k = elim (Bool-cases (mem (last + 1) seqs)) [
    | inl got ↦ absurd (omega (arith, t.top (last + 1) got))
    | inr gap ↦ ground arith
  ]

  -- One packet, where the window is never cut.
  pub process_data-Tracks :
      (max_ack i : ℕ)
      → i < 2 ^ 31
      → i + 1 < bound
      → bound ≤ max
      → bound ≤ max_ack + 1
      → (s' : NodeStatus) × (process_data max_ack s i ≡ some s') × Tracks max bound s' (i ∷ seqs)
  unfolding process_data limit_window
  process_data-Tracks max_ack i small h fits wide =
      let (l, eq, size, marks) = marked i small (omega arith) in
      let last : ℕ = if ltb s.last_rcv_seq i then i else s.last_rcv_seq in
      let le_last : (i ≤ last) × (s.last_rcv_seq ≤ last) × (last + 1 < bound) =
        ground (arith, t.room) in
      let gap : mem (last + 1) (i ∷ seqs) ≡ false = not_seen i last le_last.0 le_last.1 in
      let (k, run, lo, hi, out, all) =
        advance_lem (suc (length l)) s.rcv_seq (last + 1) max l (in_list (i ∷ seqs))
          (omega (arith, size)) (omega arith) (omega arith) marks gap in
      (
        record { rcv_seq = k; rcv_state = l; last_rcv_seq = last },
        rw (eq, lt→ltb i (2 ^ 31) small, run, le→ltb (max_ack + k) (last + 1) (omega arith)) refl,
        record {
          size = size;
          marks = marks;
          below = λ j b. ground (arith, t.below j, all j);
          first = out;
          top = λ j e. ground (arith, t.top j);
          room = omega arith;
          window = hi;
        },
      )

  -- Only which numbers are in the list matters.
  pub Tracks-ext :
      (other : List ℕ) → ((j : ℕ) → mem j seqs ≡ mem j other) → Tracks max bound s other
  Tracks-ext other same = record {
    size = t.size;
    marks = λ j l. ground (arith, t.marks j, same j);
    below = λ j l. ground (arith, t.below j, same j);
    first = ground (arith, t.first, same s.rcv_seq);
    top = λ j e. ground (arith, t.top j, same j);
    room = t.room;
    window = t.window;
  }

-- Every number is below `bound - 1`.
abbrev pub AreBelow : ℕ → List ℕ → Type 0
AreBelow bound [] = Unit {0}
AreBelow bound (i ∷ l) = (i + 1 < bound) × AreBelow bound l

abbrev rev_onto : List ℕ → List ℕ → List ℕ
rev_onto [] seen = seen
rev_onto (i ∷ l) seen = rev_onto l (i ∷ seen)

mem-rev_onto : (j : ℕ) (l seen : List ℕ) → mem j (rev_onto l seen) ≡ (mem j l || mem j seen)
mem-rev_onto j [] seen = refl
mem-rev_onto j (i ∷ l) seen = ground (arith, mem-rev_onto j l (i ∷ seen))

or-false : (b : Bool) → (b || false) ≡ b
or-false true = refl
or-false false = refl

process_all_onto :
    (max bound max_ack : ℕ) (l seen : List ℕ) {s : NodeStatus}
    → bound ≤ max
    → bound ≤ 2 ^ 31
    → bound ≤ max_ack + 1
    → AreBelow bound l
    → Tracks max bound s seen
    → (s' : NodeStatus) × (process_all max_ack s l ≡ some s')
      × Tracks max bound s' (rev_onto l seen)
unfolding process_all
process_all_onto max bound max_ack [] seen {s} fits small wide b t = (s, refl, t)
process_all_onto max bound max_ack (i ∷ l) seen {s} fits small wide b t =
    let (s1, e1, t1) = process_data-Tracks t max_ack i (omega (arith, b.0)) b.0 fits wide in
    let (s2, e2, t2) =
      process_all_onto max bound max_ack l (i ∷ seen) {s = s1} fits small wide b.1 t1 in
    (s2, rw (e1) e2, t2)

-- After any packets with numbers below `bound - 1`, where `bound` is at least 2, an `int`, at most
-- the size of the array and at most one more than the window: no access was outside the array, it
-- marks exactly the numbers received, the ACK number is the first one missing, and no number
-- received is above the last number, which is below `bound - 1` too.
pub process_all-Tracks :
    (max bound max_ack : ℕ) (seqs : List ℕ)
    → 1 < bound
    → bound ≤ max
    → bound ≤ 2 ^ 31
    → bound ≤ max_ack + 1
    → AreBelow bound seqs
    → (s : NodeStatus) × (process_all max_ack (initialize_node_status max) seqs ≡ some s)
      × Tracks max bound s seqs
process_all-Tracks max bound max_ack seqs two fits small wide b =
    let (s, e, t) =
      process_all_onto max bound max_ack seqs [] fits small wide b
        (initialize-Tracks max bound two) in
    (s, e, Tracks-ext t seqs (λ j. mem-rev_onto j seqs [] ∙ or-false (mem j seqs)))
