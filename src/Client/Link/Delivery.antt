-- ===== src/Client/Link/Delivery.antt =====
-- What holds at every moment of a channel and its server, crates/omniagent-cli/src/client/conn.rs:
-- everything pushed is accounted for, and no number on its way claims more than that.
pub mod Sending
pub mod Joining
use omniagent.Prelude.{List, ◌≡◌, true, ◌++◌, Member}
use omniagent.Client.Channel.{Json, Outgoing, is_output}
use omniagent.Client.Link.{Link}
use omniagent.Client.Link.Basics.{Basics}
use omniagent.Client.Link.Traffic.{Traffic}

-- What is in no row and need not be sent again: the server refused it, or the cap dropped it.
abbrev pub gone : {V : Type 0} → Link V → List (Outgoing V)
gone s = s.refused ++ s.shed

module _ {V : Type 0} (json : Json V) where
  abbrev pub Flow : Link V → Type 0
  Flow s =
      Traffic s.history s.inner.seq (gone s ++ s.server.stored) s.connected s.inner.sent_upto
        s.flusher s.beat s.wire

  pub record IsSound (s : Link V) : Type 0 where
    pub basics : Basics json s.inner s.history (gone s) s.server
    pub dropped : (x : Outgoing V) → Member x s.shed → is_output x ≡ true
    pub flow : Flow s
