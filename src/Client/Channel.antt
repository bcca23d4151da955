-- ===== src/Client/Channel.antt =====
-- The delivery state of one channel: `ChannelInner` of crates/omniagent-cli/src/client/conn.rs. JSON
-- values are serde_json's: their type and what the code asks of them are an argument. Each function
-- is what the source does under one lock of `inner`; sequence numbers are plain numbers.
pub mod Outbox
pub mod Queue
use omniagent.Prelude.{
  ℕ, zero, suc, ◌+◌, ◌-◌, ◌*◌, Bool, true, false, not, ◌&&◌, Option, none, some, List, [], ◌∷◌,
  ◌++◌, Text, codes, utf8_len, text_eq, length, leb, ltb, max, if◌then◌else◌,
}

-- `data_text` is `get("data")` read by `as_str`, `serialized_len` the length of `to_string`;
-- `with_sequence` inserts the field "sequence" into an object, and `marker` is the payload of the
-- truncation marker.
pub record Json (V : Type 0) : Type 0 where
  pub data_text : V → Option Text
  pub serialized_len : V → ℕ
  pub with_sequence : ℕ → V → V
  pub marker : ℕ → V

pub record Outgoing (V : Type 0) : Type 0 where
  pub seq : ℕ
  pub event : Text
  pub payload : V

pub record ChannelInner (V : Type 0) : Type 0 where
  pub seq : ℕ
  pub last_acked : ℕ
  pub sent_upto : ℕ
  pub outbox : List (Outgoing V)
  pub outbox_bytes : ℕ
  pub truncating : Bool

abbrev pub outbox_byte_cap : ℕ
outbox_byte_cap = 8 * 1024 * 1024

abbrev pub pty_output : Text
pty_output = codes "pty_output"

abbrev pub is_output : {V : Type 0} → Outgoing V → Bool
is_output item = text_eq item.event pty_output

-- `ChannelInner::default`.
abbrev pub default_inner : {V : Type 0} → ChannelInner V
default_inner = record {
  seq = 0;
  last_acked = 0;
  sent_upto = 0;
  outbox = [];
  outbox_bytes = 0;
  truncating = false;
}

unfoldable pub settle_drained : {V : Type 0} → ChannelInner V → ChannelInner V
settle_drained inner = elim inner.outbox [
  | [] ↦ record inner { outbox_bytes = 0; truncating = false }
  | item ∷ items ↦ inner
]

unfoldable pub advance_sent_upto : {V : Type 0} → ℕ → ChannelInner V → ChannelInner V
advance_sent_upto seq inner = record inner { sent_upto = max inner.sent_upto seq }

-- `position` of the first output and its `remove`.
unfoldable pub remove_output :
    {V : Type 0} → List (Outgoing V) → Option (Outgoing V × List (Outgoing V))
remove_output [] = none
remove_output (item ∷ items) =
    let rest = remove_output items in
    if is_output item
    then some (item, items)
    else elim rest [ none ↦ none | some (found, others) ↦ some (found, item ∷ others) ]

module _ {V : Type 0} (json : Json V) where
  unfoldable pub payload_bytes : V → ℕ
  payload_bytes payload = elim (json.data_text payload) [
    | none ↦ json.serialized_len payload
    | some text ↦ utf8_len text
  ]

  -- `while front.seq <= upto { pop_front }`, with the bytes that are left.
  unfoldable pub pop_upto : ℕ → List (Outgoing V) → ℕ → List (Outgoing V) × ℕ
  unfolding payload_bytes
  pop_upto upto [] bytes = ([], bytes)
  pop_upto upto (item ∷ items) bytes =
      let rest = pop_upto upto items (bytes - payload_bytes item.payload) in
      if leb item.seq upto then rest else (item ∷ items, bytes)

  unfoldable pub apply_ack : ℕ → ChannelInner V → ChannelInner V
  unfolding pop_upto settle_drained
  apply_ack acked inner =
      let last_acked = max inner.last_acked acked in
      let popped = pop_upto last_acked inner.outbox inner.outbox_bytes in
      settle_drained
        (record inner { last_acked = last_acked; outbox = popped.0; outbox_bytes = popped.1 })

  -- The block of `handshake_session` under the lock, for the server's `last_client_sequence`.
  unfoldable pub resume : ℕ → ChannelInner V → ChannelInner V
  unfolding pop_upto settle_drained
  resume lcs inner =
      let popped = pop_upto lcs inner.outbox inner.outbox_bytes in
      record (settle_drained (record inner {
        seq = max inner.seq lcs;
        last_acked = max inner.last_acked lcs;
        outbox = popped.0;
        outbox_bytes = popped.1;
      })) { sent_upto = lcs }

  -- The loop of `shed_outbox`, with fuel; what it dropped comes last.
  unfoldable pub shed_loop :
      ℕ → ℕ → List (Outgoing V) → ℕ → List (Outgoing V) × ℕ × List (Outgoing V)
  unfolding remove_output payload_bytes
  shed_loop zero cap outbox bytes = (outbox, bytes, [])
  shed_loop (suc fuel) cap outbox bytes = elim (ltb cap bytes) [
    | false ↦ (outbox, bytes, [])
    | true ↦ elim (remove_output outbox) [
      | none ↦ (outbox, bytes, [])
      | some (item, others) ↦
          let rest = shed_loop fuel cap others (bytes - payload_bytes item.payload) in
          (rest.0, rest.1, item ∷ rest.2)
    ]
  ]

  unfoldable pub total_bytes : List (Outgoing V) → ℕ
  unfolding payload_bytes
  total_bytes [] = 0
  total_bytes (item ∷ items) = payload_bytes item.payload + total_bytes items

  unfoldable pub marker_item : ℕ → Outgoing V
  marker_item seq = record { seq = seq; event = pty_output; payload = json.marker seq }

  unfoldable pub mark_gap : Bool → ChannelInner V → ChannelInner V
  unfolding payload_bytes marker_item
  mark_gap false inner = inner
  mark_gap true inner =
      let seq = inner.seq + 1 in
      record inner {
        seq = seq;
        truncating = true;
        outbox_bytes = inner.outbox_bytes + payload_bytes (json.marker seq);
        outbox = inner.outbox ++ marker_item seq ∷ [];
      }

  -- With the items that were dropped.
  unfoldable pub shed_outbox : ℕ → ChannelInner V → ChannelInner V × List (Outgoing V)
  unfolding shed_loop total_bytes mark_gap
  shed_outbox cap inner =
      let shed = shed_loop (length inner.outbox) cap inner.outbox inner.outbox_bytes in
      (
        mark_gap (ltb 0 (total_bytes shed.2) && not inner.truncating)
            (record inner { outbox = shed.0; outbox_bytes = shed.1 }),
        shed.2,
      )

  unfoldable pub enqueue : Text → V → ChannelInner V → ChannelInner V
  unfolding payload_bytes
  enqueue event payload inner =
      let seq = inner.seq + 1 in
      let numbered = json.with_sequence seq payload in
      record inner {
        seq = seq;
        outbox_bytes = inner.outbox_bytes + payload_bytes numbered;
        outbox = inner.outbox ++ record { seq = seq; event = event; payload = numbered } ∷ [];
      }

  unfoldable pub push_replayable : Text → V → ChannelInner V → ChannelInner V × List (Outgoing V)
  unfolding enqueue shed_outbox
  push_replayable event payload inner = shed_outbox outbox_byte_cap (enqueue event payload inner)
