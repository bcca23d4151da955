-- ===== src/Client/Link/Loss.antt =====
-- What becomes of everything that was pushed: the outbox of crates/omniagent-cli/src/client/conn.rs
-- against the server's rows, over every order of the steps of a channel.
use omniagent.Prelude.{◌++◌, ◌≤◌, ◌≡◌, true, ◌⊎◌, inl, inr, arith, Member, append-Member_split}
use omniagent.Client.Channel.{
  Json, Outgoing, is_output, resume, settle_drained, pop_upto, default_inner,
}
use omniagent.Client.Channel.Queue.{default_inner-IsQueue, resume-IsQueue}
use omniagent.Client.Link.{
  Server, Link, Step, pushes, starts, collects, writes_batch, writes_one, marks, replies, parks,
  beats, writes_beat, takes, acknowledges, disconnects, joins, start, Reach, joined, next, written,
  waiting,
}
use omniagent.Client.Link.Delivery.{IsSound, gone}
use omniagent.Client.Link.Delivery.Sending.{
  start-IsSound, claims_of, held_of, collect-IsSound, write_batch-IsSound, write_one-IsSound,
  mark-IsSound, beat-IsSound, write_beat-IsSound, park-IsSound,
}
use omniagent.Client.Link.Delivery.Joining.{
  push-IsSound, acknowledge-IsSound, disconnect-IsSound, take-IsSound, join-IsSound,
}

-- The server has no row above the number up to which it acknowledges.
abbrev pub IsCovered : {V : Type 0} → Server V → Type 0
IsCovered {V} server = (y : Outgoing V) → Member y server.stored → y.seq ≤ server.high

module _ {V : Type 0} (json : Json V) where
  Step-IsSound : (s t : Link V) → Step json s t → IsSound json s → IsSound json t
  Step-IsSound s _ (pushes event payload) i = push-IsSound json event payload s i
  Step-IsSound s _ (starts on idle) i = start-IsSound json s on i
  Step-IsSound s _ (collects run item rest e output) i = collect-IsSound json s run item rest e i
  Step-IsSound s _ (writes_batch item items rest e ends) i =
      write_batch-IsSound json s item items rest e i
  Step-IsSound s _ (writes_one item rest e other) i = write_one-IsSound json s item rest e i
  Step-IsSound s _ (marks seq rest e) i =
      let c = claims_of json s (written seq rest) e i in
      mark-IsSound json s seq rest c.0 c.1 (held_of json s (written seq rest) e i) i
  Step-IsSound s _ (replies last rest e) i =
      let c = claims_of json s (waiting last rest) e i in
      mark-IsSound json s last rest c.0 c.1 (held_of json s (waiting last rest) e i) i
  Step-IsSound s _ parks i = park-IsSound json s i
  Step-IsSound s _ (beats on more) i = beat-IsSound json s on i
  Step-IsSound s _ (writes_beat seq e) i = write_beat-IsSound json s seq e i
  Step-IsSound s _ (takes outcome frame wire e) i = take-IsSound json s outcome frame wire e i
  Step-IsSound s _ (acknowledges acked le) i = acknowledge-IsSound json s acked le i
  Step-IsSound s _ disconnects i = disconnect-IsSound json s i
  Step-IsSound s _ (joins off) i = join-IsSound json s off i

  joined-IsSound :
      (server : Server V)
      → IsCovered server
      → IsSound json (record (start json server) {
        inner = resume json server.high default_inner;
        connected = true;
      })
  unfolding resume settle_drained pop_upto
  joined-IsSound server covered = record {
    basics = record {
      queue = resume-IsQueue json server.high default_inner (default_inner-IsQueue json);
      accounted = λ x m. elim m [ ];
      single = λ x y m n e. elim m [ ];
      below = λ x m. elim m [ ];
      known = λ x m. elim m [ ];
      stored_below = λ y m. let h = covered y m in ground arith;
      keyed = λ x y m n e. elim m [ ];
      high_claims = (ground arith, λ x m le. elim m [ ]);
      high_answered = omega arith;
      acked = ground arith;
    };
    dropped = λ x m. elim m [ ];
    flow = record {
      wire_known = λ x m. elim m [ ];
      held_known = λ x m. elim m [ ];
      wire_claims = tt;
      sent_claims = λ on. (ground arith, λ x m le. elim m [ ]);
      flusher_claims = tt;
      beat_claims = tt;
    };
  }

  Reach-IsSound :
      (server : Server V) → IsCovered server → (s : Link V) → Reach json server s → IsSound json s
  Reach-IsSound server covered _ joined = joined-IsSound server covered
  Reach-IsSound server covered t (next {s} r step) =
      Step-IsSound s t step (Reach-IsSound server covered s r)

  -- What is accounted for, by where it is.
  placed :
      (s : Link V)
      → IsSound json s
      → (x : Outgoing V) → Member x (gone s ++ s.server.stored)
      → Member x s.server.stored ⊎ ((Member x s.shed × (is_output x ≡ true)) ⊎ Member x s.refused)
  placed s i x m = elim (append-Member_split x (gone s) s.server.stored m) [
    | inl lost ↦ elim (append-Member_split x s.refused s.shed lost) [
      | inl dropped ↦ inr (inr dropped)
      | inr cut ↦ inr (inl (cut, i.dropped x cut))
    ]
    | inr row ↦ inl row
  ]

  -- Where a server whose acknowledged number covers all its rows is joined, then in every state that
  -- pushes, flushes, heartbeats, frames that the server handles or refuses, replies, failed writes,
  -- disconnects and joins again lead to, in any order, each item that was pushed is still in the
  -- outbox, or stored at the server, or the cap dropped it and it is terminal output, or a frame that
  -- carried it was refused by the server.
  pub no_loss :
      (server : Server V)
      → IsCovered server
      → (s : Link V) → Reach json server s
      → (x : Outgoing V) → Member x s.history
      → Member x s.inner.outbox
        ⊎ (Member x s.server.stored
            ⊎ ((Member x s.shed × (is_output x ≡ true)) ⊎ Member x s.refused))
  no_loss server covered s r x m =
      let i = Reach-IsSound server covered s r in
      elim (i.basics.accounted x m) [ inl done ↦ inr (placed s i x done) | inr waits ↦ inl waits ]

  -- In the same states, the number that the client takes for acknowledged, and the server's own, are
  -- at most the highest number that the server gave in a join or a reply, and each pushed item up to
  -- that one is stored, or the cap dropped it and it is terminal output, or a frame that carried it
  -- was refused by the server.
  pub high_stored :
      (server : Server V)
      → IsCovered server
      → (s : Link V) → Reach json server s
      → (s.inner.last_acked ≤ s.server.answered)
        × (s.server.high ≤ s.server.answered)
        × ((x : Outgoing V)
            → Member x s.history
            → x.seq ≤ s.server.answered
            → Member x s.server.stored
              ⊎ ((Member x s.shed × (is_output x ≡ true)) ⊎ Member x s.refused))
  high_stored server covered s r =
      let i = Reach-IsSound server covered s r in
      (
        i.basics.acked,
        i.basics.high_answered,
        λ x m le. placed s i x (i.basics.high_claims.1 x m le),
      )
