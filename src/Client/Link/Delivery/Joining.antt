-- ===== src/Client/Link/Delivery/Joining.antt =====
-- The steps of a push, of the server, of its replies and of the supervisor, which joins again after a
-- disconnect: crates/omniagent-cli/src/client/conn.rs.
use omniagent.Prelude.{
  ℕ, ◌≤◌, ◌≡◌, sym, subst, true, false, List, ◌∷◌, ◌++◌, arith, Text, max, append-Member_left,
  append-Member_split, append_assoc, inl, inr,
}
use omniagent.Client.Channel.{Json, ChannelInner, apply_ack, resume, pop_upto, push_replayable}
use omniagent.Client.Channel.Queue.{
  settle_drained_keeps, apply_ack-IsQueue, resume-IsQueue, push_replayable-IsQueue,
}
use omniagent.Client.Link.{
  Frame, carried, in_flight, handle_in, Outcome, refused_by, Link, pushed_items, after_push,
  after_disconnect,
}
use omniagent.Client.Link.Claims.{Within, Extends-refl}
use omniagent.Client.Link.Stored.{handle_in-Within}
use omniagent.Client.Link.Basics.{
  IsPushed-Extends, Basics-push, Basics-trim, Basics-take, append-Within_base, Basics, Basics-high,
}
use omniagent.Client.Link.Traffic.{Traffic, Traffic-lift, Traffic-take, Traffic-join}
use omniagent.Client.Link.Delivery.{IsSound, Flow, gone}
use omniagent.Client.Link.Pushed.{push_replayable-IsPushed}

module _ {V : Type 0} (json : Json V) where
  pub push-IsSound :
      (event : Text) (payload : V) (s : Link V)
      → IsSound json s
      → IsSound json (after_push json event payload s)
  unfolding after_push
  push-IsSound event payload s i =
      let r = push_replayable json event payload s.inner in
      let new = pushed_items json event payload s.inner in
      let p = push_replayable-IsPushed json event payload s.inner in
      let moved = append_assoc s.refused s.shed r.1 in
      record {
        basics =
            subst (λ lost. Basics json r.0 (s.history ++ new) lost s.server) moved
              (Basics-push json s.inner s.history (gone s) new s.server r
                (push_replayable-IsQueue json event payload s.inner i.basics.queue) p i.basics);
        dropped = λ x m. elim (append-Member_split x s.shed r.1 m) [
          | inl old ↦ i.dropped x old
          | inr cut ↦ p.dropped x cut
        ];
        flow =
            subst
              (λ sent.
                Traffic (s.history ++ new) r.0.seq
                  ((s.refused ++ (s.shed ++ r.1)) ++ s.server.stored) s.connected sent s.flusher
                  s.beat s.wire)
              (sym p.marks_same.0)
              (Traffic-lift s.history (s.history ++ new) s.inner.seq r.0.seq
                (gone s ++ s.server.stored) ((s.refused ++ (s.shed ++ r.1)) ++ s.server.stored)
                s.connected s.inner.sent_upto s.flusher s.beat s.wire
                (IsPushed-Extends json s.inner s.history new r p)
                (λ x m. append-Member_left x s.history new m)
                (subst (λ lost. Within (gone s ++ s.server.stored) (lost ++ s.server.stored)) moved
                  (append-Within_base json (gone s) r.1 s.server.stored))
                i.flow);
      }

  -- A new queue that gives out no new item: what was claimed is claimed still.
  Flow-settle :
      (s : Link V) (after : ChannelInner V)
      → s.inner.seq ≡ after.seq
      → s.inner.sent_upto ≡ after.sent_upto
      → Flow json s
      → Flow json (record s { inner = after })
  Flow-settle s after e e' f =
      subst
        (λ top.
          Traffic s.history top (gone s ++ s.server.stored) s.connected after.sent_upto s.flusher
            s.beat s.wire)
        e
        (subst
          (λ sent.
            Traffic s.history s.inner.seq (gone s ++ s.server.stored) s.connected sent s.flusher
              s.beat s.wire)
          e' f)

  pub acknowledge-IsSound :
      (s : Link V) (acked : ℕ)
      → acked ≤ s.server.answered
      → IsSound json s
      → IsSound json (record s { inner = apply_ack json acked s.inner })
  unfolding apply_ack
  acknowledge-IsSound s acked le i =
      let upto = max s.inner.last_acked acked in
      let popped = pop_upto json upto s.inner.outbox s.inner.outbox_bytes in
      let keeps =
        settle_drained_keeps json
          (record s.inner { last_acked = upto; outbox = popped.0; outbox_bytes = popped.1 }) in
      let within : upto ≤ s.server.answered = ground (arith, i.basics.acked) in
      record {
        basics =
            Basics-trim json s.inner (apply_ack json acked s.inner) s.history (gone s) s.server upto
              s.inner.outbox_bytes within keeps.3 (omega (arith, keeps.0))
              (omega (arith, keeps.1, within))
              (apply_ack-IsQueue json acked s.inner (omega (arith, i.basics.high_claims.0))
                i.basics.queue)
              i.basics;
        dropped = i.dropped;
        flow = Flow-settle s (apply_ack json acked s.inner) (sym keeps.0) (sym keeps.2) i.flow;
      }

  pub disconnect-IsSound : (s : Link V) → IsSound json s → IsSound json (after_disconnect s)
  disconnect-IsSound s i = record {
    basics = i.basics;
    dropped = i.dropped;
    flow = record {
      wire_known = λ x m. elim m [ ];
      held_known = λ x m. elim m [ ];
      wire_claims = tt;
      sent_claims = λ on. absurd (cc (on));
      flusher_claims = tt;
      beat_claims = tt;
    };
  }

  pub take-IsSound :
      (s : Link V) (outcome : Outcome) (frame : Frame V) (wire : List (Frame V))
      → s.wire ≡ frame ∷ wire
      → IsSound json s
      → IsSound json (record s {
        wire = wire;
        server = handle_in outcome frame s.server;
        refused = s.refused ++ refused_by outcome frame;
      })
  take-IsSound s outcome frame wire e i =
      let base = gone s ++ s.server.stored in
      let lost = (s.refused ++ refused_by outcome frame) ++ s.shed in
      let flow =
        subst (Traffic s.history s.inner.seq base s.connected s.inner.sent_upto s.flusher s.beat) e
          i.flow in
      let known : Within (carried frame) s.history =
        λ x m. flow.wire_known x (append-Member_left x (carried frame) (in_flight wire) m) in
      let grown =
        handle_in-Within s.history i.basics.single outcome frame s.server known i.basics.keyed
          s.refused s.shed in
      record {
        basics =
            Basics-take json s.inner s.history (gone s) lost s.server outcome frame known
              flow.wire_claims.0 grown i.basics;
        dropped = i.dropped;
        flow =
            Traffic-lift s.history s.history s.inner.seq s.inner.seq (base ++ carried frame)
              (lost ++ (handle_in outcome frame s.server).stored) s.connected s.inner.sent_upto
              s.flusher s.beat wire (Extends-refl s.history s.inner.seq) (λ x m. m) grown
              (Traffic-take s.history s.inner.seq base s.connected s.inner.sent_upto s.flusher
                s.beat frame wire flow);
      }

  -- A join takes up the server's mark: it is what counts as sent from then on.
  pub join-IsSound :
      (s : Link V)
      → s.connected ≡ false
      → IsSound json s
      → IsSound json (record s { inner = resume json s.server.high s.inner; connected = true })
  unfolding resume
  join-IsSound s off i =
      let high = s.server.high in
      let upto = Basics-high json s.inner s.history (gone s) s.server i.basics in
      let popped = pop_upto json high s.inner.outbox s.inner.outbox_bytes in
      let marked = record s.inner {
        seq = max s.inner.seq high;
        last_acked = max s.inner.last_acked high;
        outbox = popped.0;
        outbox_bytes = popped.1;
      } in
      let keeps = settle_drained_keeps json marked in
      let after = resume json high s.inner in
      let top : s.inner.seq ≡ after.seq = ground (arith, keeps.0, upto.0) in
      let mark : max s.inner.last_acked high ≤ s.server.answered =
        ground (arith, i.basics.acked, i.basics.high_answered) in
      record {
        basics =
            Basics-trim json s.inner after s.history (gone s) s.server high s.inner.outbox_bytes
              i.basics.high_answered keeps.3 (omega (arith, top)) (omega (arith, keeps.1, mark))
              (resume-IsQueue json high s.inner i.basics.queue) i.basics;
        dropped = i.dropped;
        flow =
            subst
              (λ seq.
                Traffic s.history seq (gone s ++ s.server.stored) true high s.flusher s.beat s.wire)
              top
              (Traffic-join s.history s.inner.seq (gone s ++ s.server.stored) s.connected
                s.inner.sent_upto high s.flusher s.beat s.wire upto i.flow);
      }
