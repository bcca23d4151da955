-- ===== src/Client/Link.antt =====
-- One channel with its flusher, its heartbeat and the server, in any order of steps:
-- `flush_channel_once`, `flush_pty_run`, `spawn_heartbeat` and the joins of
-- crates/omniagent-cli/src/client/conn.rs. Each step is what happens between two awaits. The server is
-- what apps/omniagent_web's client_channel.ex does with a frame; it takes frames in the order they
-- were written, and those not yet taken are lost with the connection. A span or a review item, which
-- the server keeps by its own id, counts as a row of its number; a row counts as stored from then on,
-- and a session whose row was deleted is not made again.
pub mod Claims
pub mod Traffic
pub mod Stored
pub mod Pushed
pub mod Basics
pub mod Delivery
pub mod Loss
use omniagent.Prelude.{
  ℕ, ◌+◌, ◌≤◌, ◌<◌, ◌≡◌, ◌≢◌, Bool, true, false, not, ◌&&◌, Option, none, some, List, [], ◌∷◌, ◌++◌,
  Text, length, ltb, max, if◌then◌else◌, filter_by, any, ◌==◌, text_eq,
}
use omniagent.Client.Channel.{
  Json, Outgoing, ChannelInner, is_output, apply_ack, resume, advance_sent_upto, shed_loop,
  total_bytes, marker_item, enqueue, push_replayable, outbox_byte_cap, default_inner,
}

pub data Frame (V : Type 0) : Type 0 where
  one : Outgoing V → Frame V
  batch : List (Outgoing V) → Frame V
  heartbeat : (seq : ℕ) → Frame V

abbrev pub carried : {V : Type 0} → Frame V → List (Outgoing V)
carried (one item) = item ∷ []
carried (batch items) = items
carried (heartbeat seq) = []

abbrev pub in_flight : {V : Type 0} → List (Frame V) → List (Outgoing V)
in_flight [] = []
in_flight (frame ∷ wire) = carried frame ++ in_flight wire

abbrev pub max_seq : {V : Type 0} → List (Outgoing V) → ℕ
max_seq [] = 0
max_seq (item ∷ items) = max item.seq (max_seq items)

-- The server's session: what it stored, `last_client_sequence`, and the highest number that a join or
-- a reply gave as that. The last two differ where `update_last_sequence` found no row.
pub record Server (V : Type 0) : Type 0 where
  pub stored : List (Outgoing V)
  pub high : ℕ
  pub answered : ℕ

-- What becomes of a frame: it is handled; it is refused, since the channel has no session or the row
-- of an item cannot be stored; or the row of the session is gone, so that nothing is stored and
-- `update_last_sequence` gives the client its own number back.
pub data Outcome : Type 0 where
  accepts refuses rowless : Outcome

-- The rows are unique by event and sequence number, and an insertion that conflicts does nothing.
abbrev pub same_key : {V : Type 0} → Outgoing V → Outgoing V → Bool
same_key item row = row.seq == item.seq && text_eq row.event item.event

unfoldable pub store : {V : Type 0} → Outgoing V → List (Outgoing V) → List (Outgoing V)
store item stored = if any (same_key item) stored then stored else stored ++ item ∷ []

unfoldable pub store_all : {V : Type 0} → List (Outgoing V) → List (Outgoing V) → List (Outgoing V)
unfolding store
store_all [] stored = stored
store_all (item ∷ items) stored = store_all items (store item stored)

-- `update_last_sequence`, and the number that the reply holds.
unfoldable pub update_last_sequence : {V : Type 0} → ℕ → Server V → Server V
update_last_sequence seq server = record server {
  high = max server.high seq;
  answered = max server.answered (max server.high seq);
}

-- Where it finds no row.
unfoldable pub answer_rowless : {V : Type 0} → ℕ → Server V → Server V
answer_rowless seq server = record server { answered = max server.answered seq }

unfoldable pub handle_in : {V : Type 0} → Outcome → Frame V → Server V → Server V
unfolding store_all update_last_sequence answer_rowless
handle_in accepts (one item) server = record server { stored = store_all (item ∷ []) server.stored }
handle_in accepts (batch items) server =
    update_last_sequence (max_seq items) (record server { stored = store_all items server.stored })
handle_in accepts (heartbeat seq) server = update_last_sequence seq server
handle_in refuses frame server = server
handle_in rowless (one item) server = server
handle_in rowless (batch items) server = answer_rowless (max_seq items) server
handle_in rowless (heartbeat seq) server = answer_rowless seq server

-- The items that the server took and did not store.
abbrev pub refused_by : {V : Type 0} → Outcome → Frame V → List (Outgoing V)
refused_by accepts frame = []
refused_by refuses frame = carried frame
refused_by rowless frame = carried frame

-- The flusher: parked; with a run of output collected and the rest of its snapshot; after a frame
-- that was written and is not yet marked as sent; and while it waits for the reply to a batch.
pub data Flusher (V : Type 0) : Type 0 where
  parked : Flusher V
  sending : (run rest : List (Outgoing V)) → Flusher V
  written : (seq : ℕ) (rest : List (Outgoing V)) → Flusher V
  waiting : (last : ℕ) (rest : List (Outgoing V)) → Flusher V

-- `history`, `shed` and `refused` remember what was pushed, what the cap dropped, and the items of the
-- frames that the server refused; `beat` is a heartbeat that has read its number and is not yet
-- written.
pub record Link (V : Type 0) : Type 0 where
  pub inner : ChannelInner V
  pub connected : Bool
  pub flusher : Flusher V
  pub beat : Option ℕ
  pub wire : List (Frame V)
  pub server : Server V
  pub history : List (Outgoing V)
  pub shed : List (Outgoing V)
  pub refused : List (Outgoing V)

-- The snapshot of `flush_channel_once`.
unfoldable pub unsent : {V : Type 0} → ChannelInner V → List (Outgoing V)
unsent inner = filter_by (λ item. ltb inner.sent_upto item.seq) inner.outbox

abbrev pub last_seq : {V : Type 0} → Outgoing V → List (Outgoing V) → ℕ
last_seq item [] = item.seq
last_seq item (next ∷ items) = last_seq next items

-- The run is flushed where the snapshot ends or goes on with an event that is no output.
abbrev pub ends_run : {V : Type 0} → List (Outgoing V) → Bool
ends_run [] = true
ends_run (item ∷ rest) = not (is_output item)

abbrev pub after_disconnect : {V : Type 0} → Link V → Link V
after_disconnect s = record s { connected = false; flusher = parked; beat = none; wire = [] }

module _ {V : Type 0} (json : Json V) where
  -- What one push puts into the outbox: its item, and the marker of a gap.
  abbrev pub gap_items : Bool → ℕ → List (Outgoing V)
  gap_items false seq = []
  gap_items true seq = marker_item json seq ∷ []

  unfoldable pub pushed_items : Text → V → ChannelInner V → List (Outgoing V)
  pushed_items event payload inner =
      let filled = enqueue json event payload inner in
      let shed =
        shed_loop json (length filled.outbox) outbox_byte_cap filled.outbox filled.outbox_bytes in
      record {
        seq = inner.seq + 1;
        event = event;
        payload = json.with_sequence (inner.seq + 1) payload;
      }
      ∷ gap_items (ltb 0 (total_bytes json shed.2) && not inner.truncating) (filled.seq + 1)

  unfoldable pub after_push : Text → V → Link V → Link V
  unfolding pushed_items
  after_push event payload s =
      let pushed = push_replayable json event payload s.inner in
      record s {
        inner = pushed.0;
        history = s.history ++ pushed_items event payload s.inner;
        shed = s.shed ++ pushed.1;
      }

  pub data Step (s : Link V) : Link V → Type 0 where
    pushes : (event : Text) (payload : V) → Step s (after_push event payload s)
    starts :
        s.connected ≡ true
        → s.flusher ≡ parked
        → Step s (record s { flusher = sending [] (unsent s.inner) })
    collects :
        (run : List (Outgoing V)) (item : Outgoing V) (rest : List (Outgoing V))
        → s.flusher ≡ sending run (item ∷ rest)
        → is_output item ≡ true
        → Step s (record s { flusher = sending (run ++ item ∷ []) rest })
    writes_batch :
        (item : Outgoing V) (items rest : List (Outgoing V))
        → s.flusher ≡ sending (item ∷ items) rest
        → ends_run rest ≡ true
        → Step s (record s {
          flusher = waiting (last_seq item items) rest;
          wire = s.wire ++ batch (item ∷ items) ∷ [];
        })
    writes_one :
        (item : Outgoing V) (rest : List (Outgoing V))
        → s.flusher ≡ sending [] (item ∷ rest)
        → is_output item ≡ false
        → Step s (record s { flusher = written item.seq rest; wire = s.wire ++ one item ∷ [] })
    marks :
        (seq : ℕ) (rest : List (Outgoing V))
        → s.flusher ≡ written seq rest
        → Step s (record s { inner = advance_sent_upto seq s.inner; flusher = sending [] rest })
    -- The reply to a batch: its items count as sent. The acknowledgement that it carries is a step of
    -- its own, `acknowledges`.
    replies :
        (last : ℕ) (rest : List (Outgoing V))
        → s.flusher ≡ waiting last rest
        → Step s (record s { inner = advance_sent_upto last s.inner; flusher = sending [] rest })
    -- The end of a flush, or a write or a request that failed.
    parks : Step s (record s { flusher = parked })
    beats :
        s.connected ≡ true
        → s.inner.last_acked < s.inner.sent_upto
        → Step s (record s { beat = some s.inner.sent_upto })
    writes_beat :
        (seq : ℕ)
        → s.beat ≡ some seq
        → Step s (record s { beat = none; wire = s.wire ++ heartbeat seq ∷ [] })
    takes :
        (outcome : Outcome) (frame : Frame V) (wire : List (Frame V))
        → s.wire ≡ frame ∷ wire
        → Step s (record s {
          wire = wire;
          server = handle_in outcome frame s.server;
          refused = s.refused ++ refused_by outcome frame;
        })
    -- A reply holds a number that the server gave before.
    acknowledges :
        (acked : ℕ)
        → acked ≤ s.server.answered
        → Step s (record s { inner = apply_ack json acked s.inner })
    disconnects : Step s (after_disconnect s)
    joins :
        s.connected ≡ false
        → Step s (record s { inner = resume json s.server.high s.inner; connected = true })

  -- A new daemon: an empty channel, whatever the server already has of the session.
  abbrev pub start : Server V → Link V
  start server = record {
    inner = default_inner;
    connected = false;
    flusher = parked;
    beat = none;
    wire = [];
    server = record server { answered = server.high };
    history = [];
    shed = [];
    refused = [];
  }

  pub data Reach (server : Server V) : Link V → Type 0 where
    joined :
        Reach server (record (start server) {
          inner = resume json server.high default_inner;
          connected = true;
        })
    next : {s t : Link V} → Reach server s → Step s t → Reach server t
