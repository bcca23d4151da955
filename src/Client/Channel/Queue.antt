-- ===== src/Client/Channel/Queue.antt =====
-- What every operation on a channel keeps, crates/omniagent-cli/src/client/conn.rs: the outbox in
-- order, its bytes counted exactly, and every mark at most the highest number given out.
use omniagent.Prelude.{
  ℕ, ◌+◌, ◌-◌, ◌≤◌, ◌≡◌, refl, sym, ap, subst, Bool, true, false, not, ◌&&◌, Bool-cases, ◌⊎◌, inl,
  inr, List, [], ◌∷◌, ◌++◌, arith, Text, length, leb, ltb, leb→le, max, Member, All-append,
  All-Member, All-intro, All-map,
}
use omniagent.Client.Channel.{
  Json, Outgoing, ChannelInner, payload_bytes, pop_upto, settle_drained, apply_ack, resume,
  advance_sent_upto, shed_loop, total_bytes, marker_item, mark_gap, shed_outbox, enqueue,
  push_replayable, outbox_byte_cap, default_inner,
}
use omniagent.Client.Channel.Outbox.{
  Ascending, AllBelow, shed_loop-IsShed, Ascending-weaken, Ascending-append_one, total_bytes-append,
}

module _ {V : Type 0} (json : Json V) where
  pub record IsQueue (inner : ChannelInner V) : Type 0 where
    pub counted : inner.outbox_bytes ≡ total_bytes json inner.outbox
    pub ordered : Ascending 0 inner.outbox
    pub below : AllBelow inner.seq inner.outbox
    pub acked : inner.last_acked ≤ inner.seq
    pub sent : inner.sent_upto ≤ inner.seq

  pub default_inner-IsQueue : IsQueue default_inner
  unfolding total_bytes
  default_inner-IsQueue = record {
    counted = refl;
    ordered = tt;
    below = tt;
    acked = omega arith;
    sent = omega arith;
  }

  pub pop_upto_kept :
      (upto : ℕ) (x : Outgoing V) (outbox : List (Outgoing V)) (bytes : ℕ)
      → Member x outbox
      → Member x (pop_upto json upto outbox bytes).0 ⊎ (x.seq ≤ upto)
  unfolding pop_upto
  pop_upto_kept upto x [] bytes m = elim m [ ]
  pop_upto_kept upto x (item ∷ items) bytes m = elim (Bool-cases (leb item.seq upto)) [
    | inr kept ↦ rw (kept) (inl m)
    | inl popped ↦ rw (popped) (elim m [
      | inl e ↦ inr (subst (λ y. y.seq ≤ upto) (sym e) (leb→le item.seq upto popped))
      | inr k ↦ pop_upto_kept upto x items (bytes - payload_bytes json item.payload) k
    ])
  ]

  pub pop_upto_queued :
      (upto : ℕ) (x : Outgoing V) (outbox : List (Outgoing V)) (bytes : ℕ)
      → Member x (pop_upto json upto outbox bytes).0
      → Member x outbox
  unfolding pop_upto
  pop_upto_queued upto x [] bytes m = m
  pop_upto_queued upto x (item ∷ items) bytes m = elim (Bool-cases (leb item.seq upto)) [
    | inr kept ↦ rw (kept) at m
    | inl popped ↦
        inr (
          pop_upto_queued upto x items (bytes - payload_bytes json item.payload) (rw (popped) at m))
  ]

  pop_upto_counted :
      (upto : ℕ) (outbox : List (Outgoing V)) (bytes : ℕ)
      → bytes ≡ total_bytes json outbox
      → (pop_upto json upto outbox bytes).1 ≡ total_bytes json (pop_upto json upto outbox bytes).0
  unfolding pop_upto total_bytes
  pop_upto_counted upto [] bytes h = h
  pop_upto_counted upto (item ∷ items) bytes h = elim (Bool-cases (leb item.seq upto)) [
    | inr kept ↦ rw (kept) h
    | inl popped ↦
        rw (popped)
          (pop_upto_counted upto items (bytes - payload_bytes json item.payload) (omega arith))
  ]

  pop_upto_ordered :
      (upto low : ℕ) (outbox : List (Outgoing V)) (bytes : ℕ)
      → Ascending low outbox
      → Ascending low (pop_upto json upto outbox bytes).0
  unfolding pop_upto
  pop_upto_ordered upto low [] bytes a = tt
  pop_upto_ordered upto low (item ∷ items) bytes a = elim (Bool-cases (leb item.seq upto)) [
    | inr kept ↦ rw (kept) a
    | inl popped ↦ rw (popped) (
        pop_upto_ordered upto low items (bytes - payload_bytes json item.payload)
          (Ascending-weaken item.seq low items (omega arith) a.1))
  ]

  -- `settle_drained` only touches the count and the flag of an empty outbox.
  pub settle_drained_keeps :
      (inner : ChannelInner V)
      → ((settle_drained inner).seq ≡ inner.seq)
        × ((settle_drained inner).last_acked ≡ inner.last_acked)
        × ((settle_drained inner).sent_upto ≡ inner.sent_upto)
        × ((settle_drained inner).outbox ≡ inner.outbox)
  unfolding settle_drained
  settle_drained_keeps inner = cases inner.outbox refl
    where
      cases :
          (items : List (Outgoing V))
          → inner.outbox ≡ items
          → ((settle_drained inner).seq ≡ inner.seq)
            × ((settle_drained inner).last_acked ≡ inner.last_acked)
            × ((settle_drained inner).sent_upto ≡ inner.sent_upto)
            × ((settle_drained inner).outbox ≡ inner.outbox)
      cases [] e = rw (settle_drained, e) (refl, refl, refl, e)
      cases (item ∷ items) e = rw (settle_drained, e) (refl, refl, refl, e)

  settle_drained-IsQueue : (inner : ChannelInner V) → IsQueue inner → IsQueue (settle_drained inner)
  unfolding settle_drained total_bytes
  settle_drained-IsQueue inner q = cases inner.outbox refl
    where
      cases : (items : List (Outgoing V)) → inner.outbox ≡ items → IsQueue (settle_drained inner)
      cases [] e =
          rw (settle_drained, e)
            (record {
              counted = sym (ap (total_bytes json) e);
              ordered = q.ordered;
              below = q.below;
              acked = q.acked;
              sent = q.sent;
            })
      cases (item ∷ items) e = rw (settle_drained, e) q

  pub apply_ack-IsQueue :
      (acked : ℕ) (inner : ChannelInner V)
      → acked ≤ inner.seq
      → IsQueue inner
      → IsQueue (apply_ack json acked inner)
  unfolding apply_ack
  apply_ack-IsQueue acked inner h q =
      let upto = max inner.last_acked acked in
      settle_drained-IsQueue _ (record {
        counted = pop_upto_counted upto inner.outbox inner.outbox_bytes q.counted;
        ordered = pop_upto_ordered upto 0 inner.outbox inner.outbox_bytes q.ordered;
        below =
            All-intro (λ item. item.seq ≤ inner.seq)
              (pop_upto json upto inner.outbox inner.outbox_bytes).0
              (λ x m.
                All-Member (λ item. item.seq ≤ inner.seq) x inner.outbox q.below
                  (pop_upto_queued upto x inner.outbox inner.outbox_bytes m));
        acked = ground (arith, q.acked);
        sent = q.sent;
      })

  pub resume-IsQueue :
      (lcs : ℕ) (inner : ChannelInner V) → IsQueue inner → IsQueue (resume json lcs inner)
  unfolding resume
  resume-IsQueue lcs inner q =
      let marked = record inner {
        seq = max inner.seq lcs;
        last_acked = max inner.last_acked lcs;
        outbox = (pop_upto json lcs inner.outbox inner.outbox_bytes).0;
        outbox_bytes = (pop_upto json lcs inner.outbox inner.outbox_bytes).1;
      } in
      let settled = settle_drained-IsQueue marked (record {
        counted = pop_upto_counted lcs inner.outbox inner.outbox_bytes q.counted;
        ordered = pop_upto_ordered lcs 0 inner.outbox inner.outbox_bytes q.ordered;
        below =
            All-intro (λ item. item.seq ≤ max inner.seq lcs)
              (pop_upto json lcs inner.outbox inner.outbox_bytes).0
              (λ x m.
                let h =
                  All-Member (λ item. item.seq ≤ inner.seq) x inner.outbox q.below
                    (pop_upto_queued lcs x inner.outbox inner.outbox_bytes m) in
                ground arith);
        acked = ground (arith, q.acked);
        sent = ground (arith, q.sent);
      }) in
      record {
        counted = settled.counted;
        ordered = settled.ordered;
        below = settled.below;
        acked = settled.acked;
        sent = (let e = (settle_drained_keeps marked).0 in ground (arith, e));
      }

  pub advance_sent_upto-IsQueue :
      (seq : ℕ) (inner : ChannelInner V)
      → seq ≤ inner.seq
      → IsQueue inner
      → IsQueue (advance_sent_upto seq inner)
  unfolding advance_sent_upto
  advance_sent_upto-IsQueue seq inner h q = record {
    counted = q.counted;
    ordered = q.ordered;
    below = q.below;
    acked = q.acked;
    sent = ground (arith, q.sent);
  }

  append_one-IsQueue :
      (inner : ChannelInner V) (item : Outgoing V) (truncating : Bool)
      → item.seq ≡ inner.seq + 1
      → IsQueue inner
      → IsQueue (record inner {
        seq = item.seq;
        truncating = truncating;
        outbox_bytes = inner.outbox_bytes + payload_bytes json item.payload;
        outbox = inner.outbox ++ item ∷ [];
      })
  unfolding total_bytes
  append_one-IsQueue inner item truncating e q = record {
    counted = omega (arith, q.counted, total_bytes-append json inner.outbox (item ∷ []));
    ordered =
        Ascending-append_one 0 inner.seq inner.outbox item (omega arith) q.ordered q.below
          (omega arith);
    below =
        All-append (λ i. i.seq ≤ item.seq) inner.outbox (item ∷ [])
          (All-map (λ i. i.seq ≤ inner.seq) (λ i. i.seq ≤ item.seq) inner.outbox
            (λ x h. omega arith) q.below)
          (omega arith, tt);
    acked = omega (arith, q.acked);
    sent = omega (arith, q.sent);
  }

  mark_gap-IsQueue :
      (b : Bool) (inner : ChannelInner V) → IsQueue inner → IsQueue (mark_gap json b inner)
  unfolding mark_gap marker_item
  mark_gap-IsQueue false inner q = q
  mark_gap-IsQueue true inner q =
      append_one-IsQueue inner (marker_item json (inner.seq + 1)) true refl q

  shed_outbox-IsQueue :
      (cap : ℕ) (inner : ChannelInner V) → IsQueue inner → IsQueue (shed_outbox json cap inner).0
  unfolding shed_outbox
  shed_outbox-IsQueue cap inner q =
      let shed = shed_loop json (length inner.outbox) cap inner.outbox inner.outbox_bytes in
      let s = shed_loop-IsShed json (length inner.outbox) cap inner.outbox inner.outbox_bytes in
      mark_gap-IsQueue (ltb 0 (total_bytes json shed.2) && not inner.truncating)
        (record inner { outbox = shed.0; outbox_bytes = shed.1 })
        (record {
          counted = s.counted q.counted;
          ordered = s.ordered 0 q.ordered;
          below =
              All-intro (λ i. i.seq ≤ inner.seq) shed.0
                (λ x m. All-Member (λ i. i.seq ≤ inner.seq) x inner.outbox q.below (s.queued x m));
          acked = q.acked;
          sent = q.sent;
        })

  -- Pushing a replayable event keeps the outbox in order of its sequence numbers, its bytes counted
  -- exactly, and every mark at most the highest number given out.
  pub push_replayable-IsQueue :
      (event : Text) (payload : V) (inner : ChannelInner V)
      → IsQueue inner
      → IsQueue (push_replayable json event payload inner).0
  unfolding push_replayable enqueue
  push_replayable-IsQueue event payload inner q =
      shed_outbox-IsQueue outbox_byte_cap (enqueue json event payload inner) (
        append_one-IsQueue inner
          (record {
            seq = inner.seq + 1;
            event = event;
            payload = json.with_sequence (inner.seq + 1) payload;
          })
          inner.truncating refl q)
