-- ===== src/Client/Link/Basics.antt =====
-- The outbox of crates/omniagent-cli/src/client/conn.rs against the server's rows: what holds of them
-- together, and how a push, an acknowledgement, a frame that is taken and a join keep it.
use omniagent.Prelude.{
  ℕ, max, ◌≤◌, ◌≡◌, sym, subst, ◌⊎◌, inl, inr, List, ◌++◌, arith, Member, append-Member_left,
  append-Member_right, append-Member_split,
}
use omniagent.Client.Channel.{Json, Outgoing, ChannelInner, pop_upto}
use omniagent.Client.Channel.Queue.{IsQueue, pop_upto_kept, pop_upto_queued}
use omniagent.Client.Link.{
  Frame, one, batch, heartbeat, carried, max_seq, Server, Outcome, accepts, refuses, rowless,
  handle_in, update_last_sequence, answer_rowless,
}
use omniagent.Client.Link.Claims.{
  Within, append-Within, Upto, Extends, Extends-refl, Claim, Upto-lift, Upto-max,
}
use omniagent.Client.Link.Stored.{Keyed, handle_in_from, handle_in-Keyed}
use omniagent.Client.Link.Pushed.{IsPushed}

module _ {V : Type 0} (json : Json V) where
  -- What holds of the channel, of what was pushed, of what is gone, which the cap
  -- dropped or the server refused, and of the server's rows.
  pub record Basics (inner : ChannelInner V) (history gone : List (Outgoing V)) (server : Server V)
      : Type 0 where
    pub queue : IsQueue json inner
    pub accounted :
        (x : Outgoing V)
        → Member x history
        → Member x (gone ++ server.stored) ⊎ Member x inner.outbox
    pub single : (x y : Outgoing V) → Member x history → Member y history → x.seq ≡ y.seq → x ≡ y
    pub below : (x : Outgoing V) → Member x history → x.seq ≤ inner.seq
    pub known : Within inner.outbox history
    pub stored_below : (y : Outgoing V) → Member y server.stored → y.seq ≤ inner.seq
    pub keyed : Keyed history server.stored
    pub high_claims : Upto history inner.seq server.answered (gone ++ server.stored)
    pub high_answered : server.high ≤ server.answered
    pub acked : inner.last_acked ≤ server.answered

  pub IsPushed-Extends :
      (inner : ChannelInner V) (history new : List (Outgoing V))
      (r : ChannelInner V × List (Outgoing V))
      → IsPushed json inner new r
      → Extends history inner.seq (history ++ new) r.0.seq
  IsPushed-Extends inner history new r p = (
    p.grows,
    λ x m. elim (append-Member_split x history new m) [
      | inl old ↦ inl old
      | inr fresh ↦ inr (p.fresh x fresh)
    ],
  )

  pub append-Within_base :
      (gone more rows : List (Outgoing V)) → Within (gone ++ rows) ((gone ++ more) ++ rows)
  append-Within_base gone more rows =
      append-Within gone (gone ++ more) rows (λ x m. append-Member_left x gone more m)

  pub Basics-push :
      (inner : ChannelInner V) (history gone new : List (Outgoing V)) (server : Server V)
      (r : ChannelInner V × List (Outgoing V))
      → IsQueue json r.0
      → IsPushed json inner new r
      → Basics inner history gone server
      → Basics r.0 (history ++ new) (gone ++ r.1) server
  Basics-push inner history gone new server r q p i = record {
    queue = q;
    accounted = λ x m. elim (append-Member_split x history new m) [
      | inl old ↦ elim (i.accounted x old) [
        | inl done ↦ inl (append-Within_base gone r.1 server.stored x done)
        | inr waits ↦ place x (p.kept x (append-Member_left x inner.outbox new waits))
      ]
      | inr fresh ↦ place x (p.kept x (append-Member_right x inner.outbox new fresh))
    ];
    single = λ x y mx my same.
        one_item x y (append-Member_split x history new mx) (append-Member_split y history new my)
          same;
    below = λ x m. elim (append-Member_split x history new m) [
      | inl old ↦ omega (arith, i.below x old, p.grows)
      | inr fresh ↦ p.under x fresh
    ];
    known = λ x m. elim (append-Member_split x inner.outbox new (p.queued x m)) [
      | inl old ↦ append-Member_left x history new (i.known x old)
      | inr fresh ↦ append-Member_right x history new fresh
    ];
    stored_below = λ y m. omega (arith, i.stored_below y m, p.grows);
    keyed = λ x y mx my same. elim (append-Member_split x history new mx) [
      | inl old ↦ i.keyed x y old my same
      | inr fresh ↦ absurd (omega (arith, p.fresh x fresh, i.stored_below y my))
    ];
    high_claims =
        Upto-lift history (history ++ new) inner.seq r.0.seq
          (IsPushed-Extends inner history new r p) server.answered (gone ++ server.stored)
          ((gone ++ r.1) ++ server.stored) (append-Within_base gone r.1 server.stored)
          i.high_claims;
    high_answered = i.high_answered;
    acked = subst (λ k. k ≤ server.answered) (sym p.marks_same.1) i.acked;
  }
    where
      place :
          (x : Outgoing V)
          → Member x r.0.outbox ⊎ Member x r.1
          → Member x ((gone ++ r.1) ++ server.stored) ⊎ Member x r.0.outbox
      place x (inl waits) = inr waits
      place x (inr cut) =
          inl
            (append-Member_left x (gone ++ r.1) server.stored (append-Member_right x gone r.1 cut))

      one_item :
          (x y : Outgoing V)
          → Member x history ⊎ Member x new
          → Member y history ⊎ Member y new
          → x.seq ≡ y.seq
          → x ≡ y
      one_item x y (inl mx) (inl my) same = i.single x y mx my same
      one_item x y (inr mx) (inr my) same = p.apart x y mx my same
      one_item x y (inl mx) (inr my) same = absurd (omega (arith, i.below x mx, p.fresh y my, same))
      one_item x y (inr mx) (inl my) same = absurd (omega (arith, i.below y my, p.fresh x mx, same))

  -- Items leave the outbox up to a number that the server gave in a reply.
  pub Basics-trim :
      (inner after : ChannelInner V) (history gone : List (Outgoing V)) (server : Server V)
      (upto bytes : ℕ)
      → upto ≤ server.answered
      → after.outbox ≡ (pop_upto json upto inner.outbox bytes).0
      → inner.seq ≤ after.seq
      → after.last_acked ≤ server.answered
      → IsQueue json after
      → Basics inner history gone server
      → Basics after history gone server
  Basics-trim inner after history gone server upto bytes le popped grows acked q i = record {
    queue = q;
    accounted = λ x m. elim (i.accounted x m) [
      | inl done ↦ inl done
      | inr waits ↦ elim (pop_upto_kept json upto x inner.outbox bytes waits) [
        | inl stays ↦ inr (subst (Member x) (sym popped) stays)
        | inr low ↦ inl (i.high_claims.1 x m (omega arith))
      ]
    ];
    single = i.single;
    below = λ x m. omega (arith, i.below x m);
    known = λ x m.
        i.known x (pop_upto_queued json upto x inner.outbox bytes (subst (Member x) popped m));
    stored_below = λ y m. omega (arith, i.stored_below y m);
    keyed = i.keyed;
    high_claims = (omega (arith, i.high_claims.0), i.high_claims.1);
    high_answered = i.high_answered;
    acked = acked;
  }

  handle_in_grows :
      (outcome : Outcome) (frame : Frame V) (server : Server V)
      → server.high ≤ server.answered
      → (server.answered ≤ (handle_in outcome frame server).answered)
        × ((handle_in outcome frame server).high ≤ (handle_in outcome frame server).answered)
  unfolding handle_in update_last_sequence answer_rowless
  handle_in_grows accepts (one item) server le = (omega arith, le)
  handle_in_grows accepts (batch items) server le = (ground arith, ground arith)
  handle_in_grows accepts (heartbeat seq) server le = (ground arith, ground arith)
  handle_in_grows refuses frame server le = (omega arith, le)
  handle_in_grows rowless (one item) server le = (omega arith, le)
  handle_in_grows rowless (batch items) server le = (ground arith, ground arith)
  handle_in_grows rowless (heartbeat seq) server le = (ground arith, ground arith)

  handle_in_claims :
      (history : List (Outgoing V)) (top : ℕ) (base : List (Outgoing V)) (outcome : Outcome)
      (frame : Frame V) (server : Server V)
      → Upto history top server.high base
      → Upto history top server.answered base
      → Claim history top base frame
      → Upto history top (handle_in outcome frame server).answered base
  unfolding handle_in update_last_sequence answer_rowless
  handle_in_claims history top base accepts (one item) server h u c = u
  handle_in_claims history top base accepts (batch items) server h u c =
      Upto-max history top server.answered (max server.high (max_seq items)) base u
        (Upto-max history top server.high (max_seq items) base h c)
  handle_in_claims history top base accepts (heartbeat seq) server h u c =
      Upto-max history top server.answered (max server.high seq) base u
        (Upto-max history top server.high seq base h c)
  handle_in_claims history top base refuses frame server h u c = u
  handle_in_claims history top base rowless (one item) server h u c = u
  handle_in_claims history top base rowless (batch items) server h u c =
      Upto-max history top server.answered (max_seq items) base u c
  handle_in_claims history top base rowless (heartbeat seq) server h u c =
      Upto-max history top server.answered seq base u c

  -- What the server gave as its number covers what it keeps as its number.
  pub Basics-high :
      (inner : ChannelInner V) (history gone : List (Outgoing V)) (server : Server V)
      → Basics inner history gone server
      → Upto history inner.seq server.high (gone ++ server.stored)
  Basics-high inner history gone server i = (
    omega (arith, i.high_answered, i.high_claims.0),
    λ x m le. i.high_claims.1 x m (omega (arith, i.high_answered)),
  )

  -- The server takes a frame whose claims are accounted for.
  pub Basics-take :
      (inner : ChannelInner V) (history gone gone' : List (Outgoing V)) (server : Server V)
      (outcome : Outcome) (frame : Frame V)
      → Within (carried frame) history
      → Claim history inner.seq ((gone ++ server.stored) ++ carried frame) frame
      → Within
          ((gone ++ server.stored) ++ carried frame)
          (gone' ++ (handle_in outcome frame server).stored)
      → Basics inner history gone server
      → Basics inner history gone' (handle_in outcome frame server)
  Basics-take inner history gone gone' server outcome frame known claim grown i =
      let base = (gone ++ server.stored) ++ carried frame in
      let wider : Within (gone ++ server.stored) base =
        λ x m. append-Member_left x (gone ++ server.stored) (carried frame) m in
      let lift = Upto-lift history history inner.seq inner.seq (Extends-refl history inner.seq) in
      let grows = handle_in_grows outcome frame server i.high_answered in
      record {
        queue = i.queue;
        accounted = λ x m. elim (i.accounted x m) [
          | inl done ↦ inl (grown x (wider x done))
          | inr waits ↦ inr waits
        ];
        single = i.single;
        below = i.below;
        known = i.known;
        stored_below = λ y m. elim (handle_in_from outcome frame server y m) [
          | inl old ↦ i.stored_below y old
          | inr new ↦ i.below y (known y new)
        ];
        keyed = handle_in-Keyed history i.single outcome frame server known i.keyed;
        high_claims =
            lift (handle_in outcome frame server).answered base
              (gone' ++ (handle_in outcome frame server).stored) grown
              (handle_in_claims history inner.seq base outcome frame server
                (lift server.high (gone ++ server.stored) base wider
                  (Basics-high inner history gone server i))
                (lift server.answered (gone ++ server.stored) base wider i.high_claims) claim);
        high_answered = grows.1;
        acked = omega (arith, i.acked, grows.0);
      }
