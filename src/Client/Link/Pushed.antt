-- ===== src/Client/Link/Pushed.antt =====
-- What a push does to the outbox, `push_replayable` of crates/omniagent-cli/src/client/conn.rs: what it
-- adds, what it keeps and what it drops.
use omniagent.Prelude.{
  ℕ, ◌+◌, ◌≤◌, ◌<◌, ◌≡◌, refl, sym, ap, subst, ◌∙◌, Bool, true, false, not, ◌&&◌, ◌⊎◌, inl, inr,
  List, [], ◌∷◌, ◌++◌, arith, Text, length, ltb, Member, append-Member_left, append-Member_right,
  append-Member_split,
}
use omniagent.Client.Channel.{
  Json, Outgoing, ChannelInner, is_output, shed_loop, total_bytes, marker_item, mark_gap,
  shed_outbox, enqueue, push_replayable, outbox_byte_cap,
}
use omniagent.Client.Channel.Outbox.{IsShed, shed_loop-IsShed}
use omniagent.Client.Link.{gap_items, pushed_items}

module _ {V : Type 0} (json : Json V) where
  -- What a push adds, and what becomes of the outbox.
  pub record IsPushed (inner : ChannelInner V) (new : List (Outgoing V))
      (r : ChannelInner V × List (Outgoing V)) : Type 0 where
    pub fresh : (x : Outgoing V) → Member x new → inner.seq < x.seq
    pub under : (x : Outgoing V) → Member x new → x.seq ≤ r.0.seq
    pub apart : (x y : Outgoing V) → Member x new → Member y new → x.seq ≡ y.seq → x ≡ y
    pub grows : inner.seq ≤ r.0.seq
    pub marks_same : (r.0.sent_upto ≡ inner.sent_upto) × (r.0.last_acked ≡ inner.last_acked)
    pub kept :
        (x : Outgoing V) → Member x (inner.outbox ++ new) → Member x r.0.outbox ⊎ Member x r.1
    pub queued : (x : Outgoing V) → Member x r.0.outbox → Member x (inner.outbox ++ new)
    pub dropped : (x : Outgoing V) → Member x r.1 → is_output x ≡ true

  mark_gap-IsPushed :
      (b : Bool) (inner : ChannelInner V) (item : Outgoing V) (bytes : ℕ)
      (r : List (Outgoing V) × ℕ × List (Outgoing V))
      → item.seq ≡ inner.seq + 1
      → IsShed json (inner.outbox ++ item ∷ []) bytes r
      → IsPushed inner
          (item ∷ gap_items json b (item.seq + 1))
          (mark_gap json b (record inner { seq = item.seq; outbox = r.0; outbox_bytes = r.1 }), r.2)
  unfolding mark_gap marker_item
  mark_gap-IsPushed false inner item bytes r e s = record {
    fresh = λ x m. elim m [
      | inl same ↦ subst (λ y. inner.seq < y.seq) (sym same) (omega arith)
      | inr bad ↦ elim bad [ ]
    ];
    under = λ x m. elim m [
      | inl same ↦ omega (arith, ap (λ (y : Outgoing V). y.seq) same)
      | inr bad ↦ elim bad [ ]
    ];
    apart = λ x y mx my same. elim mx [
      | inl ex ↦ elim my [ inl ey ↦ ex ∙ sym ey | inr bad ↦ elim bad [ ] ]
      | inr bad ↦ elim bad [ ]
    ];
    grows = omega arith;
    marks_same = (refl, refl);
    kept = s.kept;
    queued = s.queued;
    dropped = λ x m. (s.dropped x m).1;
  }
  mark_gap-IsPushed true inner item bytes r e s = record {
    fresh = λ x m. elim m [
      | inl same ↦ omega (arith, ap (λ (y : Outgoing V). y.seq) same)
      | inr (inl same) ↦ omega (arith, ap (λ (y : Outgoing V). y.seq) same)
      | inr (inr bad) ↦ elim bad [ ]
    ];
    under = λ x m. elim m [
      | inl same ↦ omega (arith, ap (λ (y : Outgoing V). y.seq) same)
      | inr (inl same) ↦ omega (arith, ap (λ (y : Outgoing V). y.seq) same)
      | inr (inr bad) ↦ elim bad [ ]
    ];
    apart = λ x y mx my same. apart2 x y mx my same;
    grows = omega arith;
    marks_same = (refl, refl);
    kept = λ x m. kept2 x (split3 x m);
    queued = λ x m. elim (append-Member_split x r.0 (marker_item json (item.seq + 1) ∷ []) m) [
      | inl l ↦ elim (append-Member_split x inner.outbox (item ∷ []) (s.queued x l)) [
        | inl old ↦ append-Member_left x inner.outbox new old
        | inr (inl same) ↦ append-Member_right x inner.outbox new (inl same)
        | inr (inr bad) ↦ elim bad [ ]
      ]
      | inr (inl same) ↦ append-Member_right x inner.outbox new (inr (inl same))
      | inr (inr bad) ↦ elim bad [ ]
    ];
    dropped = λ x m. (s.dropped x m).1;
  }
    where
      new : List (Outgoing V)
      new = item ∷ marker_item json (item.seq + 1) ∷ []

      apart2 : (x y : Outgoing V) → Member x new → Member y new → x.seq ≡ y.seq → x ≡ y
      apart2 x y (inl ex) (inl ey) same = ex ∙ sym ey
      apart2 x y (inr (inl ex)) (inr (inl ey)) same = ex ∙ sym ey
      apart2 x y (inl ex) (inr (inl ey)) same = absurd (
          omega (arith, same, ap (λ (z : Outgoing V). z.seq) ex, ap (λ (z : Outgoing V). z.seq) ey))
      apart2 x y (inr (inl ex)) (inl ey) same = absurd (
          omega (arith, same, ap (λ (z : Outgoing V). z.seq) ex, ap (λ (z : Outgoing V). z.seq) ey))
      apart2 x y (inr (inr bad)) my same = elim bad [ ]
      apart2 x y mx (inr (inr bad)) same = elim bad [ ]

      split3 :
          (x : Outgoing V)
          → Member x (inner.outbox ++ new)
          → Member x (inner.outbox ++ item ∷ []) ⊎ (x ≡ marker_item json (item.seq + 1))
      split3 x m = elim (append-Member_split x inner.outbox new m) [
        | inl old ↦ inl (append-Member_left x inner.outbox (item ∷ []) old)
        | inr (inl same) ↦ inl (append-Member_right x inner.outbox (item ∷ []) (inl same))
        | inr (inr (inl marker)) ↦ inr marker
        | inr (inr (inr bad)) ↦ elim bad [ ]
      ]

      kept2 :
          (x : Outgoing V)
          → Member x (inner.outbox ++ item ∷ []) ⊎ (x ≡ marker_item json (item.seq + 1))
          → Member x (r.0 ++ marker_item json (item.seq + 1) ∷ []) ⊎ Member x r.2
      kept2 x (inl m) = elim (s.kept x m) [
        | inl l ↦ inl (append-Member_left x r.0 (marker_item json (item.seq + 1) ∷ []) l)
        | inr d ↦ inr d
      ]
      kept2 x (inr same) =
          inl (append-Member_right x r.0 (marker_item json (item.seq + 1) ∷ []) (inl same))

  pub push_replayable-IsPushed :
      (event : Text) (payload : V) (inner : ChannelInner V)
      → IsPushed inner
          (pushed_items json event payload inner)
          (push_replayable json event payload inner)
  unfolding push_replayable pushed_items enqueue shed_outbox
  push_replayable-IsPushed event payload inner =
      let filled = enqueue json event payload inner in
      let shed =
        shed_loop json (length filled.outbox) outbox_byte_cap filled.outbox filled.outbox_bytes in
      mark_gap-IsPushed (ltb 0 (total_bytes json shed.2) && not inner.truncating) inner
        (record {
          seq = inner.seq + 1;
          event = event;
          payload = json.with_sequence (inner.seq + 1) payload;
        })
        filled.outbox_bytes shed refl
        (shed_loop-IsShed json (length filled.outbox) outbox_byte_cap filled.outbox
          filled.outbox_bytes)
