-- ===== src/Client/Channel/Outbox.antt =====
-- The outbox of a channel, crates/omniagent-cli/src/client/conn.rs: its order, its byte count and
-- what `shed_outbox` drops.
use omniagent.Prelude.{
  ℕ, zero, suc, ◌+◌, ◌-◌, ◌≤◌, ◌<◌, ◌≡◌, refl, sym, ap, subst, true, Bool-cases, Option-cases, none,
  some, ◌⊎◌, inl, inr, List, [], ◌∷◌, ◌++◌, arith, length, length-append, ltb, Member, All,
  Member-remove, Member-restore, Member-middle,
}
use omniagent.Client.Channel.{
  Json, Outgoing, is_output, payload_bytes, remove_output, shed_loop, total_bytes,
}

-- The sequence numbers rise, from above `low`.
abbrev pub Ascending : {V : Type 0} → ℕ → List (Outgoing V) → Type 0
Ascending low [] = Unit
Ascending low (item ∷ items) = (low < item.seq) × Ascending item.seq items

abbrev pub AllBelow : {V : Type 0} → ℕ → List (Outgoing V) → Type 0
AllBelow high items = All (λ item. item.seq ≤ high) items

pub Ascending-weaken :
    {V : Type 0} (low low' : ℕ) (items : List (Outgoing V))
    → low' ≤ low
    → Ascending low items
    → Ascending low' items
Ascending-weaken low low' [] h a = tt
Ascending-weaken low low' (item ∷ items) h a = (omega arith, a.1)

pub Ascending-append_one :
    {V : Type 0} (low high : ℕ) (items : List (Outgoing V)) (item : Outgoing V)
    → low ≤ high
    → Ascending low items
    → AllBelow high items
    → high < item.seq
    → Ascending low (items ++ item ∷ [])
Ascending-append_one low high [] item l a b h = (omega arith, tt)
Ascending-append_one low high (first ∷ items) item l a b h =
    (a.0, Ascending-append_one first.seq high items item b.0 a.1 b.1 h)

Ascending-remove :
    {V : Type 0} (low : ℕ) (before : List (Outgoing V)) (item : Outgoing V)
    (after : List (Outgoing V))
    → Ascending low (before ++ item ∷ after)
    → Ascending low (before ++ after)
Ascending-remove low [] item after a = Ascending-weaken item.seq low after (omega arith) a.1
Ascending-remove low (first ∷ before) item after a =
    (a.0, Ascending-remove first.seq before item after a.1)

-- What is behind an item in a rising list has a higher number.
pub Ascending-Member :
    {V : Type 0} (low : ℕ) (x : Outgoing V) (items : List (Outgoing V))
    → Ascending low items
    → Member x items
    → low < x.seq
Ascending-Member low x [] a m = elim m [ ]
Ascending-Member low x (item ∷ items) a (inl e) = subst (λ y. low < y.seq) (sym e) a.0
Ascending-Member low x (item ∷ items) a (inr m) =
    omega (arith, a.0, Ascending-Member item.seq x items a.1 m)

-- Where `remove_output` took its item from.
record IsTaken {V : Type 0} (items : List (Outgoing V)) (item : Outgoing V)
    (others : List (Outgoing V)) : Type 0 where
  before : List (Outgoing V)
  after : List (Outgoing V)
  whole : items ≡ before ++ item ∷ after
  rest : others ≡ before ++ after
  output : is_output item ≡ true

remove_output-IsTaken :
    {V : Type 0} (items : List (Outgoing V)) (item : Outgoing V) (others : List (Outgoing V))
    → remove_output items ≡ some (item, others)
    → IsTaken items item others
unfolding remove_output
remove_output-IsTaken [] item others h = cc
remove_output-IsTaken (first ∷ items) item others h = elim (Bool-cases (is_output first)) [
  | inl found ↦ record {
    before = [];
    after = items;
    whole = cc (rw found at h);
    rest = cc (rw found at h);
    output = ground (arith, rw found at h);
  }
  | inr other ↦ elim (Option-cases (remove_output items)) [
    | inl nothing ↦ let bad = rw (other, nothing) at h in cc
    | inr ((taken, rest), found) ↦
        let e = rw (other, found) at h in
        let t = remove_output-IsTaken items taken rest found in
        record {
          before = first ∷ t.before;
          after = t.after;
          whole = cc (t.whole, e);
          rest = cc (t.rest, e);
          output =
              (let same : taken ≡ item = cc (e) in subst (λ i. is_output i ≡ true) same t.output);
        }
  ]
]

module _ {V : Type 0} (json : Json V) where
  pub total_bytes-append :
      (xs ys : List (Outgoing V))
      → total_bytes json (xs ++ ys) ≡ total_bytes json xs + total_bytes json ys
  unfolding total_bytes
  total_bytes-append [] ys = omega arith
  total_bytes-append (x ∷ xs) ys = omega (arith, total_bytes-append xs ys)

  -- What shedding keeps and drops: nothing else goes, only output is dropped, and the byte count and
  -- the order stay right.
  pub record IsShed (outbox : List (Outgoing V)) (bytes : ℕ)
      (r : List (Outgoing V) × ℕ × List (Outgoing V)) : Type 0 where
    pub kept : (x : Outgoing V) → Member x outbox → Member x r.0 ⊎ Member x r.2
    pub queued : (x : Outgoing V) → Member x r.0 → Member x outbox
    pub dropped : (x : Outgoing V) → Member x r.2 → Member x outbox × (is_output x ≡ true)
    pub counted : bytes ≡ total_bytes json outbox → r.1 ≡ total_bytes json r.0
    pub ordered : (low : ℕ) → Ascending low outbox → Ascending low r.0

  stop-IsShed : (outbox : List (Outgoing V)) (bytes : ℕ) → IsShed outbox bytes (outbox, bytes, [])
  stop-IsShed outbox bytes = record {
    kept = λ x m. inl m;
    queued = λ x m. m;
    dropped = λ x m. elim m [ ];
    counted = λ e. e;
    ordered = λ low a. a;
  }

  total_bytes_remove :
      (before : List (Outgoing V)) (item : Outgoing V) (after : List (Outgoing V))
      → total_bytes json (before ++ item ∷ after)
        ≡ payload_bytes json item.payload + total_bytes json (before ++ after)
  unfolding total_bytes
  total_bytes_remove [] item after = refl
  total_bytes_remove (x ∷ before) item after = omega (arith, total_bytes_remove before item after)

  step-IsShed :
      (outbox others : List (Outgoing V)) (item : Outgoing V) (bytes : ℕ)
      (r : List (Outgoing V) × ℕ × List (Outgoing V))
      → IsTaken outbox item others
      → IsShed others (bytes - payload_bytes json item.payload) r
      → IsShed outbox bytes (r.0, r.1, item ∷ r.2)
  step-IsShed outbox others item bytes r t s = record {
    kept = kept;
    queued = λ x m. back x (s.queued x m);
    dropped = dropped;
    counted = λ e. s.counted (
        omega (
          arith,
          e,
          ap (total_bytes json) t.whole,
          ap (total_bytes json) t.rest,
          total_bytes_remove t.before item t.after,
        ));
    ordered = λ low a. s.ordered low (
        subst (Ascending low) (sym t.rest)
          (Ascending-remove low t.before item t.after (subst (Ascending low) t.whole a)));
  }
    where
      back : (x : Outgoing V) → Member x others → Member x outbox
      back x m =
          subst (Member x) (sym t.whole)
            (Member-restore x t.before item t.after (subst (Member x) t.rest m))

      kept : (x : Outgoing V) → Member x outbox → Member x r.0 ⊎ Member x (item ∷ r.2)
      kept x m = elim (Member-remove x t.before item t.after (subst (Member x) t.whole m)) [
        | inl e ↦ inr (inl e)
        | inr k ↦ elim (s.kept x (subst (Member x) (sym t.rest) k)) [
          | inl q ↦ inl q
          | inr d ↦ inr (inr d)
        ]
      ]

      dropped : (x : Outgoing V) → Member x (item ∷ r.2) → Member x outbox × (is_output x ≡ true)
      dropped x (inl e) =
          subst (λ y. Member y outbox × (is_output y ≡ true)) (sym e)
            (subst (Member item) (sym t.whole) (Member-middle t.before item t.after), t.output)
      dropped x (inr m) = (back x (s.dropped x m).0, (s.dropped x m).1)

  pub shed_loop-IsShed :
      (fuel cap : ℕ) (outbox : List (Outgoing V)) (bytes : ℕ)
      → IsShed outbox bytes (shed_loop json fuel cap outbox bytes)
  unfolding shed_loop
  shed_loop-IsShed zero cap outbox bytes = stop-IsShed outbox bytes
  shed_loop-IsShed (suc fuel) cap outbox bytes = elim (Bool-cases (ltb cap bytes)) [
    | inr fits ↦ rw (shed_loop, fits) (stop-IsShed outbox bytes)
    | inl over ↦ elim (Option-cases (remove_output outbox)) [
      | inl nothing ↦ rw (shed_loop, over, nothing) (stop-IsShed outbox bytes)
      | inr ((item, others), found) ↦
          rw (shed_loop, over, found)
            (step-IsShed outbox others item bytes
              (shed_loop json fuel cap others (bytes - payload_bytes json item.payload))
              (remove_output-IsTaken outbox item others found)
              (shed_loop-IsShed fuel cap others (bytes - payload_bytes json item.payload)))
    ]
  ]

  length_taken :
      (outbox others : List (Outgoing V)) (item : Outgoing V)
      → IsTaken outbox item others
      → length outbox ≡ suc (length others)
  length_taken outbox others item t = omega (
    arith,
    ap length t.whole,
    ap length t.rest,
    length-append t.before (item ∷ t.after),
    length-append t.before t.after,
  )

  -- The loop of shed_outbox, with as much fuel as there are items, ends by one of its two tests: the
  -- bytes are within the cap, or no output is left to drop.
  pub shed_loop_ends :
      (fuel cap : ℕ) (outbox : List (Outgoing V)) (bytes : ℕ)
      → length outbox ≤ fuel
      → ((shed_loop json fuel cap outbox bytes).1 ≤ cap)
        ⊎ (remove_output (shed_loop json fuel cap outbox bytes).0 ≡ none)
  unfolding shed_loop remove_output
  shed_loop_ends zero cap [] bytes h = inr refl
  shed_loop_ends zero cap (item ∷ outbox) bytes h = absurd (omega arith)
  shed_loop_ends (suc fuel) cap outbox bytes h = elim (Bool-cases (ltb cap bytes)) [
    | inr fits ↦ rw (shed_loop, fits) (inl (ground arith))
    | inl over ↦ elim (Option-cases (remove_output outbox)) [
      | inl nothing ↦ rw (shed_loop, over, nothing) (inr nothing)
      | inr ((item, others), found) ↦
          rw (shed_loop, over, found)
            (shed_loop_ends fuel cap others (bytes - payload_bytes json item.payload) (
              omega (
                arith,
                length_taken outbox others item (remove_output-IsTaken outbox item others found),
              )))
    ]
  ]
