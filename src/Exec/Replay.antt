-- ===== src/Exec/Replay.antt =====
-- What a client that reconnects gets: the numbered, bounded event buffer of
-- crates/oad/src/background_exec.rs against the whole history of the session.
use Prim.Native.Nat.{max}
use omniagent.Prelude.{
  ℕ, zero, suc, ◌+◌, ◌-◌, ◌≤◌, ◌<◌, ◌≡◌, refl, sym, ap, ◌∙◌, subst, List, [], ◌∷◌, ◌++◌, arith,
  Text, length, drop, filter_by, leb, leb→le, length-append, append_assoc, Bool-cases, ==_iff, ◌==◌,
  inl, inr,
}
use omniagent.Exec.Session.{
  BackgroundExecSession, BackgroundExecEvent, BackgroundExecEventKind, BackgroundExecInfo,
  event_buffer_capacity, u64_mod, push_event, events_since, make_room, new, new,
}

abbrev pub Numbered : ℕ → List BackgroundExecEvent → Type 0
Numbered n [] = Unit
Numbered n (e ∷ es) = (e.sequence ≡ n) × Numbered (suc n) es

-- The queue is the end of the history, which is numbered from 1 without gaps.
pub record IsOrdered (s : BackgroundExecSession) : Type 0 where
  pub old : List BackgroundExecEvent
  pub split : s.sent ≡ old ++ s.events
  pub numbered : Numbered 1 s.sent
  pub counter : s.next_sequence ≡ length s.sent + 1
  pub bounded : length s.events ≤ event_buffer_capacity
  pub full : length old ≡ length s.sent - event_buffer_capacity

Numbered-append :
    (n : ℕ) (xs : List BackgroundExecEvent) (e : BackgroundExecEvent)
    → Numbered n xs
    → e.sequence ≡ n + length xs
    → Numbered n (xs ++ e ∷ [])
Numbered-append n [] e h k = (omega arith, tt)
Numbered-append n (x ∷ xs) e h k = (h.0, Numbered-append (suc n) xs e h.1 (omega arith))

Numbered-drop :
    (n : ℕ) (xs ys : List BackgroundExecEvent) → Numbered n (xs ++ ys) → Numbered (n + length xs) ys
Numbered-drop n [] ys h = subst (λ k. Numbered k ys) (omega arith) h
Numbered-drop n (x ∷ xs) ys h =
    subst (λ k. Numbered k ys) (omega arith) (Numbered-drop (suc n) xs ys h.1)

drop-nil : (k : ℕ) → drop k (let l : List BackgroundExecEvent = [] in l) ≡ []
drop-nil zero = refl
drop-nil (suc k) = refl

drop_eq : (xs : List BackgroundExecEvent) (j k : ℕ) → j ≡ k → drop j xs ≡ drop k xs
drop_eq xs j k e = ap (λ (n : ℕ). drop n xs) e

-- Of events numbered from `n`, those from number `from` on are a final segment.
filter_by-Numbered :
    (from n : ℕ) (xs : List BackgroundExecEvent)
    → Numbered n xs
    → filter_by (λ e. leb from e.sequence) xs ≡ drop (from - n) xs
unfolding filter_by
filter_by-Numbered from n [] h = sym (drop-nil (from - n))
filter_by-Numbered from n (x ∷ xs) h =
    let ih = filter_by-Numbered from (suc n) xs h.1 in
    elim (Bool-cases (leb from x.sequence)) [
      | inl e ↦
          let le : from ≤ n = omega (arith, leb→le from x.sequence e) in
          rw e (
            ap (λ l. x ∷ l) (ih ∙ drop_eq xs (from - suc n) 0 (omega arith))
            ∙ drop_eq (x ∷ xs) 0 (from - n) (omega arith))
      | inr e ↦
          let lt : n < from = ground arith in
          rw e (ih ∙ drop_eq (x ∷ xs) (suc (from - suc n)) (from - n) (omega arith))
    ]

drop-append :
    (k : ℕ) (xs ys : List BackgroundExecEvent)
    → length xs ≤ k
    → drop k (xs ++ ys) ≡ drop (k - length xs) ys
drop-append k [] ys h = ap (λ (n : ℕ). drop n ys) (omega arith)
drop-append zero (x ∷ xs) ys h = absurd (omega arith)
drop-append (suc k) (x ∷ xs) ys h =
    drop-append k xs ys (omega arith) ∙ ap (λ (n : ℕ). drop n ys) (omega arith)

-- `events_since` returns the history from the number asked for on, except what has left the queue:
-- the session keeps the last 4096 events.
pub events_since_lem :
    (from : ℕ) (s : BackgroundExecSession)
    → IsOrdered s
    → events_since from s ≡ drop (max (from - 1) (length s.sent - event_buffer_capacity)) s.sent
unfolding events_since
events_since_lem from s h =
    let total : length s.sent ≡ length h.old + length s.events =
      ap length h.split ∙ length-append h.old s.events in
    let tail : Numbered (1 + length h.old) s.events =
      Numbered-drop 1 h.old s.events (subst (Numbered 1) h.split h.numbered) in
    filter_by-Numbered from (1 + length h.old) s.events tail
    ∙ drop_eq s.events (from - (1 + length h.old))
        (max (from - 1) (length s.sent - event_buffer_capacity) - length h.old) (omega arith)
    ∙ sym (
        drop-append (max (from - 1) (length s.sent - event_buffer_capacity)) h.old s.events
          (omega arith))
    ∙ ap (λ l. drop (max (from - 1) (length s.sent - event_buffer_capacity)) l) (sym h.split)

-- Making room takes a full queue's first event, and leaves a place.
make_room-split :
    (xs : List BackgroundExecEvent)
    → length xs ≤ event_buffer_capacity
    → (front : List BackgroundExecEvent) × (xs ≡ front ++ make_room xs)
      × (length front ≡ length xs + 1 - event_buffer_capacity)
      × (length (make_room xs) < event_buffer_capacity)
unfolding make_room
make_room-split [] h = ([], refl, refl, omega arith)
make_room-split (x ∷ xs) h = elim (Bool-cases (length (x ∷ xs) == event_buffer_capacity)) [
  | inl e ↦
      let full : length (x ∷ xs) ≡ event_buffer_capacity = (==_iff _ _).0 e in
      (x ∷ [], rw e, omega arith, rw e (omega arith))
  | inr e ↦
      let room : length (x ∷ xs) < event_buffer_capacity = ground arith in
      ([], rw e, omega arith, rw e room)
]

-- Pushing an event keeps the queue the end of the numbered history, while the counter does not wrap.
pub push_event-IsOrdered :
    (id : Text) (kind : BackgroundExecEventKind) (s : BackgroundExecSession)
    → IsOrdered s
    → length s.sent + 2 < u64_mod
    → IsOrdered (push_event id kind s)
unfolding push_event
push_event-IsOrdered id kind s h small =
    let (front, split, size, room) = make_room-split s.events h.bounded in
    let total : length s.sent ≡ length h.old + length s.events =
      ap length h.split ∙ length-append h.old s.events in
    let e : BackgroundExecEvent = record {
      sequence = s.next_sequence;
      exec_id = id;
      event = kind;
    } in
    record {
      old = h.old ++ front;
      split =
          ap (λ l. l ++ e ∷ []) (h.split ∙ ap (λ l. h.old ++ l) split)
          ∙ ap (λ l. l ++ e ∷ []) (sym (append_assoc h.old front (make_room s.events)))
          ∙ append_assoc (h.old ++ front) (make_room s.events) (e ∷ []);
      numbered = Numbered-append 1 s.sent e h.numbered (omega (arith, h.counter));
      counter = rw length-append (omega (arith, h.counter));
      bounded = rw length-append (omega arith);
      full = omega (arith, h.full, length-append h.old front, length-append s.sent (e ∷ []));
    }

pub new-IsOrdered : (info : BackgroundExecInfo) → IsOrdered (new info)
unfolding new
new-IsOrdered info = record {
  old = [];
  split = refl;
  numbered = tt;
  counter = refl;
  bounded = omega arith;
  full = refl;
}
