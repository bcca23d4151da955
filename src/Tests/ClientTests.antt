-- ===== src/Tests/ClientTests.antt =====
-- crates/omniagent-cli/src/client/conn.rs: an event that is lost with the first connection, one that
-- the server refuses, and a
-- channel over its cap.
use omniagent.Prelude.{
  ◌+◌, ◌*◌, ◌^◌, ◌<◌, min, ◌≤◌, ◌≡◌, refl, true, none, some, ◌⊎◌, inl, List, [], ◌∷◌, ◌++◌, arith,
  Text, codes, utf8_len, Member, filter_by, text_eq,
}
use omniagent.Client.Channel.{
  Json, Outgoing, is_output, payload_bytes, pop_upto, settle_drained, apply_ack, advance_sent_upto,
  resume, remove_output, shed_loop, total_bytes, mark_gap, shed_outbox, enqueue, push_replayable,
  default_inner,
}
use omniagent.Client.Channel.Outbox.{shed_loop_ends}
use omniagent.Client.Channel.Queue.{IsQueue, default_inner-IsQueue, push_replayable-IsQueue}
use omniagent.Client.Link.{
  Server, Link, Reach, unsent, pushed_items, after_push, after_disconnect, start, sending, written,
  one, heartbeat, accepts, refuses, handle_in, update_last_sequence, joined, next, pushes, starts,
  writes_one, marks, beats, writes_beat, takes, acknowledges, disconnects, joins,
}
use omniagent.Client.Backoff.{next_wait, after_attempts, next_wait_bounds}
use omniagent.Client.Link.Loss.{IsCovered, no_loss, high_stored}

abbrev json : Json Text
json = record {
  data_text = λ text. some text;
  serialized_len = λ text. utf8_len text;
  with_sequence = λ seq text. text;
  marker = λ seq. codes "cut";
}

abbrev span : Outgoing Text
span = record { seq = 6; event = codes "trace_span"; payload = codes "{}" }

abbrev server : Server Text
server = record { stored = []; high = 5; answered = 5 }

server-IsCovered : IsCovered server
server-IsCovered = λ y m. elim m [ ]

abbrev fresh : Link Text
fresh = record (start json server) { inner = resume json 5 default_inner; connected = true }

abbrev pushed : Link Text
pushed = after_push json (codes "trace_span") (codes "{}") fresh

abbrev snapped : Link Text
snapped = record pushed { flusher = sending [] (unsent pushed.inner) }

-- The event is written, and the connection is lost before the server takes it.
abbrev lost : Link Text
lost =
    after_disconnect
      (record snapped { flusher = written 6 []; wire = snapped.wire ++ one span ∷ [] })

abbrev rejoined : Link Text
rejoined = record lost { inner = resume json 5 lost.inner; connected = true }

rejoined_reached : Reach json server rejoined
unfolding after_push push_replayable shed_outbox enqueue mark_gap shed_loop pop_upto resume
    settle_drained payload_bytes total_bytes unsent filter_by pushed_items utf8_len text_eq
rejoined_reached =
    next
      (next
        (next (next (next joined (pushes (codes "trace_span") (codes "{}"))) (starts refl refl))
          (writes_one span [] refl refl))
        disconnects)
      (joins refl)

span_pushed : Member span rejoined.history
unfolding after_push push_replayable shed_outbox enqueue mark_gap shed_loop pop_upto resume
    settle_drained payload_bytes total_bytes unsent filter_by pushed_items utf8_len text_eq
span_pushed = inl refl

span_queued : rejoined.inner.outbox ≡ span ∷ []
unfolding after_push push_replayable shed_outbox enqueue mark_gap shed_loop pop_upto resume
    settle_drained payload_bytes total_bytes unsent filter_by pushed_items utf8_len text_eq
span_queued = refl

no_loss_example :
    Member span rejoined.inner.outbox
    ⊎ (Member span rejoined.server.stored
        ⊎ ((Member span rejoined.shed × (is_output span ≡ true)) ⊎ Member span rejoined.refused))
no_loss_example = no_loss json server server-IsCovered rejoined rejoined_reached span span_pushed

-- The event is written and marked as sent, the server refuses it, and a heartbeat claims it.
abbrev refused : Link Text
refused = record snapped {
  inner = apply_ack json 6 (advance_sent_upto 6 snapped.inner);
  flusher = sending [] [];
  server = handle_in accepts (heartbeat 6) snapped.server;
  refused = span ∷ [];
}

refused_reached : Reach json server refused
unfolding after_push push_replayable shed_outbox enqueue mark_gap shed_loop pop_upto resume
    settle_drained payload_bytes total_bytes unsent filter_by pushed_items utf8_len text_eq
    apply_ack advance_sent_upto handle_in update_last_sequence
refused_reached =
    next
      (next
        (next
          (next
            (next
              (next
                (next
                  (next (next joined (pushes (codes "trace_span") (codes "{}"))) (starts refl refl))
                  (writes_one span [] refl refl))
                (takes refuses (one span) [] refl))
              (marks 6 [] refl))
            (beats refl (omega arith)))
          (writes_beat 6 refl))
        (takes accepts (heartbeat 6) [] refl))
      (acknowledges 6 (omega arith))

-- It is then nowhere: neither stored, nor to be sent again.
refused_lost : (refused.inner.outbox ≡ []) × (refused.server.stored ≡ [])
unfolding after_push push_replayable shed_outbox enqueue mark_gap shed_loop pop_upto resume
    settle_drained payload_bytes total_bytes unsent filter_by pushed_items utf8_len text_eq
    apply_ack advance_sent_upto handle_in update_last_sequence
refused_lost = (refl, refl)

high_stored_example :
    (refused.inner.last_acked ≤ refused.server.answered)
    × (refused.server.high ≤ refused.server.answered)
    × ((x : Outgoing Text)
        → Member x refused.history
        → x.seq ≤ refused.server.answered
        → Member x refused.server.stored
          ⊎ ((Member x refused.shed × (is_output x ≡ true)) ⊎ Member x refused.refused))
high_stored_example = high_stored json server server-IsCovered refused refused_reached

push_replayable-IsQueue_example :
    IsQueue json (push_replayable json (codes "pty_output") (codes "hi") default_inner).0
push_replayable-IsQueue_example =
    push_replayable-IsQueue json (codes "pty_output") (codes "hi") default_inner
      (default_inner-IsQueue json)

abbrev outputs : List (Outgoing Text)
outputs =
    record { seq = 1; event = codes "pty_output"; payload = codes "abcd" }
    ∷ record { seq = 2; event = codes "pty_exit"; payload = codes "0" }
    ∷ record { seq = 3; event = codes "pty_output"; payload = codes "ef" }
    ∷ []

-- The oldest output goes, and the exit stays.
oldest_dropped : (shed_loop json 3 3 outputs 7).1 ≡ 3
unfolding shed_loop remove_output payload_bytes text_eq utf8_len
oldest_dropped = refl

shed_loop_ends_example :
    ((shed_loop json 3 0 outputs 7).1 ≤ 0) ⊎ (remove_output (shed_loop json 3 0 outputs 7).0 ≡ none)
shed_loop_ends_example = shed_loop_ends json 3 0 outputs 7 (omega arith)

next_wait_bounds_example :
    ((after_attempts (λ k. 7) 3).current ≡ min (500 * 2 ^ 3) 30000)
    × ((after_attempts (λ k. 7) 3).current
        ≤ 2 * (next_wait 123456789 (after_attempts (λ k. 7) 3)).1 + 1)
    × ((next_wait 123456789 (after_attempts (λ k. 7) 3)).1 < (after_attempts (λ k. 7) 3).current)
next_wait_bounds_example = next_wait_bounds (λ k. 7) 3 123456789

fourth_wait : (next_wait 123456789 (after_attempts (λ k. 7) 3)).1 ≡ 2789
unfolding next_wait after_attempts
fourth_wait = refl
