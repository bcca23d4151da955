-- ===== src/Client/Link/Delivery/Sending.antt =====
-- The steps of the flusher and of the heartbeat, `flush_channel_once`, `flush_pty_run` and
-- `spawn_heartbeat` of crates/omniagent-cli/src/client/conn.rs.
use omniagent.Prelude.{
  ℕ, ◌≡◌, sym, subst, Bool, true, Bool-cases, none, some, inl, inr, List, [], ◌∷◌, ◌++◌,
  append_assoc, append-nil, ltb, filter_by, Member, append-Member_left, append-Member_right,
}
use omniagent.Client.Channel.{Json, Outgoing, advance_sent_upto}
use omniagent.Client.Channel.Queue.{advance_sent_upto-IsQueue}
use omniagent.Client.Link.{
  one, batch, heartbeat, in_flight, last_seq, Flusher, parked, sending, written, waiting, Link,
  unsent,
}
use omniagent.Client.Link.Claims.{Within, Upto, Prefixes, Prefixes-run, Prefixes-unsent}
use omniagent.Client.Link.Traffic.{FlusherClaims, BeatClaims, held, Traffic-write, Traffic-mark}
use omniagent.Client.Link.Delivery.{IsSound, gone}

filter_by-Member :
    {A : Type 0} (p : A → Bool) (x : A) (xs : List A) → Member x (filter_by p xs) → Member x xs
unfolding filter_by
filter_by-Member p x [] m = m
filter_by-Member p x (y ∷ xs) m = elim (Bool-cases (p y)) [
  | inl kept ↦ elim (rw (kept) at m) [ inl e ↦ inl e | inr k ↦ inr (filter_by-Member p x xs k) ]
  | inr left ↦ inr (filter_by-Member p x xs (rw (left) at m))
]

module _ {V : Type 0} (json : Json V) where
  pub start-IsSound :
      (s : Link V)
      → s.connected ≡ true
      → IsSound json s
      → IsSound json (record s { flusher = sending [] (unsent s.inner) })
  unfolding unsent
  start-IsSound s on i = record {
    basics = i.basics;
    dropped = i.dropped;
    flow = record {
      wire_known = i.flow.wire_known;
      held_known = λ x m.
          i.basics.known x
            (filter_by-Member (λ item. ltb s.inner.sent_upto item.seq) x s.inner.outbox m);
      wire_claims = i.flow.wire_claims;
      sent_claims = i.flow.sent_claims;
      flusher_claims =
          Prefixes-unsent s.history s.inner.seq s.inner.sent_upto 0 s.inner.outbox
            ((gone s ++ s.server.stored) ++ in_flight s.wire) i.basics.queue.ordered
            (λ x m. i.basics.below x (i.basics.known x m))
            (λ x m. elim (i.basics.accounted x m) [
              | inl done ↦
                  inl (append-Member_left x (gone s ++ s.server.stored) (in_flight s.wire) done)
              | inr waits ↦ inr waits
            ])
            (i.flow.sent_claims on).1;
      beat_claims = i.flow.beat_claims;
    };
  }

  -- What the flusher claims, by the form it is in.
  pub claims_of :
      (s : Link V) (flusher : Flusher V)
      → s.flusher ≡ flusher
      → IsSound json s
      → FlusherClaims s.history s.inner.seq
          ((gone s ++ s.server.stored) ++ in_flight s.wire)
          flusher
  claims_of s flusher e i =
      subst (FlusherClaims s.history s.inner.seq ((gone s ++ s.server.stored) ++ in_flight s.wire))
        e i.flow.flusher_claims

  pub held_of :
      (s : Link V) (flusher : Flusher V)
      → s.flusher ≡ flusher
      → IsSound json s
      → Within (held flusher) s.history
  held_of s flusher e i = subst (λ f. Within (held f) s.history) e i.flow.held_known

  pub collect-IsSound :
      (s : Link V) (run : List (Outgoing V)) (item : Outgoing V) (rest : List (Outgoing V))
      → s.flusher ≡ sending run (item ∷ rest)
      → IsSound json s
      → IsSound json (record s { flusher = sending (run ++ item ∷ []) rest })
  collect-IsSound s run item rest e i =
      let moved = sym (append_assoc run (item ∷ []) rest) in
      record {
        basics = i.basics;
        dropped = i.dropped;
        flow = record {
          wire_known = i.flow.wire_known;
          held_known =
              subst (λ l. Within l s.history) moved (held_of s (sending run (item ∷ rest)) e i);
          wire_claims = i.flow.wire_claims;
          sent_claims = i.flow.sent_claims;
          flusher_claims =
              subst
                (Prefixes s.history s.inner.seq ((gone s ++ s.server.stored) ++ in_flight s.wire))
                moved (claims_of s (sending run (item ∷ rest)) e i);
          beat_claims = i.flow.beat_claims;
        };
      }

  pub write_batch-IsSound :
      (s : Link V) (item : Outgoing V) (items rest : List (Outgoing V))
      → s.flusher ≡ sending (item ∷ items) rest
      → IsSound json s
      → IsSound json (record s {
        flusher = waiting (last_seq item items) rest;
        wire = s.wire ++ batch (item ∷ items) ∷ [];
      })
  write_batch-IsSound s item items rest e i =
      let known = held_of s (sending (item ∷ items) rest) e i in
      let run =
        Prefixes-run s.history s.inner.seq item items rest
          ((gone s ++ s.server.stored) ++ in_flight s.wire)
          (claims_of s (sending (item ∷ items) rest) e i) in
      record {
        basics = i.basics;
        dropped = i.dropped;
        flow =
            Traffic-write s.history s.inner.seq (gone s ++ s.server.stored) s.connected
              s.inner.sent_upto s.flusher (waiting (last_seq item items) rest) s.beat s.beat s.wire
              (batch (item ∷ items)) i.flow
              (λ x m. known x (append-Member_left x (item ∷ items) rest m))
              (λ x m. known x (append-Member_right x (item ∷ items) rest m)) run.2 (run.0, run.1)
              i.flow.beat_claims;
      }

  pub write_one-IsSound :
      (s : Link V) (item : Outgoing V) (rest : List (Outgoing V))
      → s.flusher ≡ sending [] (item ∷ rest)
      → IsSound json s
      → IsSound json (record s { flusher = written item.seq rest; wire = s.wire ++ one item ∷ [] })
  write_one-IsSound s item rest e i =
      let known = held_of s (sending [] (item ∷ rest)) e i in
      let run = claims_of s (sending [] (item ∷ rest)) e i in
      record {
        basics = i.basics;
        dropped = i.dropped;
        flow =
            Traffic-write s.history s.inner.seq (gone s ++ s.server.stored) s.connected
              s.inner.sent_upto s.flusher (written item.seq rest) s.beat s.beat s.wire (one item)
              i.flow (λ x m. known x (append-Member_left x (item ∷ []) rest m))
              (λ x m. known x (inr m)) tt (run.0, run.1) i.flow.beat_claims;
      }

  -- The mark of what was sent goes up to a number that everything up to is accounted for.
  pub mark-IsSound :
      (s : Link V) (seq : ℕ) (rest : List (Outgoing V))
      → Upto s.history s.inner.seq seq ((gone s ++ s.server.stored) ++ in_flight s.wire)
      → Prefixes s.history s.inner.seq ((gone s ++ s.server.stored) ++ in_flight s.wire) rest
      → Within rest s.history
      → IsSound json s
      → IsSound json (record s { inner = advance_sent_upto seq s.inner; flusher = sending [] rest })
  unfolding advance_sent_upto
  mark-IsSound s seq rest u p known i = record {
    basics = record {
      queue = advance_sent_upto-IsQueue json seq s.inner u.0 i.basics.queue;
      accounted = i.basics.accounted;
      single = i.basics.single;
      below = i.basics.below;
      known = i.basics.known;
      stored_below = i.basics.stored_below;
      keyed = i.basics.keyed;
      high_claims = i.basics.high_claims;
      high_answered = i.basics.high_answered;
      acked = i.basics.acked;
    };
    dropped = i.dropped;
    flow =
        Traffic-mark s.history s.inner.seq (gone s ++ s.server.stored) s.connected s.inner.sent_upto
          seq s.flusher (sending [] rest) s.beat s.wire i.flow u known p;
  }

  -- A heartbeat reads the mark of what was sent.
  pub beat-IsSound :
      (s : Link V)
      → s.connected ≡ true
      → IsSound json s
      → IsSound json (record s { beat = some s.inner.sent_upto })
  beat-IsSound s on i = record {
    basics = i.basics;
    dropped = i.dropped;
    flow = record {
      wire_known = i.flow.wire_known;
      held_known = i.flow.held_known;
      wire_claims = i.flow.wire_claims;
      sent_claims = i.flow.sent_claims;
      flusher_claims = i.flow.flusher_claims;
      beat_claims = i.flow.sent_claims on;
    };
  }

  pub write_beat-IsSound :
      (s : Link V) (seq : ℕ)
      → s.beat ≡ some seq
      → IsSound json s
      → IsSound json (record s { beat = none; wire = s.wire ++ heartbeat seq ∷ [] })
  write_beat-IsSound s seq e i =
      let safe = (gone s ++ s.server.stored) ++ in_flight s.wire in
      let same = sym (append-nil safe) in
      record {
        basics = i.basics;
        dropped = i.dropped;
        flow =
            Traffic-write s.history s.inner.seq (gone s ++ s.server.stored) s.connected
              s.inner.sent_upto s.flusher s.flusher s.beat none s.wire (heartbeat seq) i.flow
              (λ x m. elim m [ ]) i.flow.held_known
              (subst (Upto s.history s.inner.seq seq) same
                (subst (BeatClaims s.history s.inner.seq safe) e i.flow.beat_claims))
              (subst (λ b. FlusherClaims s.history s.inner.seq b s.flusher) same
                i.flow.flusher_claims)
              tt;
      }

  pub park-IsSound : (s : Link V) → IsSound json s → IsSound json (record s { flusher = parked })
  park-IsSound s i = record {
    basics = i.basics;
    dropped = i.dropped;
    flow = record {
      wire_known = i.flow.wire_known;
      held_known = λ x m. elim m [ ];
      wire_claims = i.flow.wire_claims;
      sent_claims = i.flow.sent_claims;
      flusher_claims = tt;
      beat_claims = i.flow.beat_claims;
    };
  }
