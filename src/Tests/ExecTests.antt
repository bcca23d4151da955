-- ===== src/Tests/ExecTests.antt =====
-- crates/oad/src/background_exec.rs: a session from its start to its end.
use Prim.Native.Nat.{max}
use omniagent.Prelude.{
  ◌+◌, ◌-◌, ◌≤◌, ◌≡◌, refl, true, false, none, some, List, [], ◌∷◌, ◌++◌, arith, codes, ok, pos,
  negsuc, length, drop, if◌then◌else◌,
}
use omniagent.Exec.Session.{
  BackgroundExecInfo, BackgroundExecSession, running, exited, failed, stdout, exited_with,
  failed_with, is_running, push_event, events_since, finish, finish_status, finish_publish,
  finish_control, new, event_buffer_capacity,
}
use omniagent.Exec.Control.{Written, write_stdin, kill, kill_final, finish_once, IsReleased}
use omniagent.Exec.Waiter.{Poll, pending, pty_wait, kills_of, pty_wait_kills_once}
use omniagent.Exec.Replay.{IsOrdered, events_since_lem, push_event-IsOrdered, new-IsOrdered}
use omniagent.Exec.Steps.{
  Action, idle, read_stdout, begin_exited, release_handles, publish, kill_session, run,
}
use omniagent.Exec.Steps.Terminal.{
  terminals, AllAgree, start, one_end_per_session, finished_session_has_end,
}

abbrev info : BackgroundExecInfo
info = record {
  id = codes "e1";
  sandbox_id = codes "web";
  container = codes "app";
  command = codes "ls" ∷ [];
  pty = false;
  status = running;
  exit_code = none;
  last_error = none;
}

abbrev hello : BackgroundExecSession
hello = push_event (codes "e1") (stdout (b'h' ∷ [])) (new info)

hello-IsOrdered : IsOrdered hello
unfolding new
hello-IsOrdered =
    push_event-IsOrdered (codes "e1") (stdout (b'h' ∷ [])) (new info) (new-IsOrdered info)
      (omega arith)

push_event-IsOrdered_example : IsOrdered hello
unfolding new
push_event-IsOrdered_example =
    push_event-IsOrdered (codes "e1") (stdout (b'h' ∷ [])) (new info) (new-IsOrdered info)
      (omega arith)

events_since_lem_example :
    events_since 1 hello ≡ drop (max (1 - 1) (length hello.sent - event_buffer_capacity)) hello.sent
events_since_lem_example = events_since_lem 1 hello hello-IsOrdered

-- Output, a kill, two waiters that both want to finish, output after the status is set.
abbrev actions : List Action
actions =
    read_stdout (b'h' ∷ [])
    ∷ kill_session true true
    ∷ begin_exited (negsuc 0)
    ∷ begin_exited (pos 0)
    ∷ read_stdout (b'i' ∷ [])
    ∷ release_handles
    ∷ publish
    ∷ []

ends_with_signal : (run actions (start false info)).session.info.exit_code ≡ some (negsuc 0)
unfolding run new kill push_event finish_status finish_publish finish_control
ends_with_signal = refl

one_end_per_session_example :
    (terminals (run actions (start true info)).session.sent
      ≤ (if is_running (run actions (start true info)).session.info.status then 0 else 1))
    × AllAgree
        (run actions (start true info)).session.info
        (run actions (start true info)).session.sent
one_end_per_session_example = one_end_per_session true info actions refl

is_idle : (run actions (start false info)).finishing ≡ idle
unfolding run new kill push_event finish_status
is_idle = refl

is_over : is_running (run actions (start false info)).session.info.status ≡ false
unfolding run new kill push_event finish_status finish_publish finish_control
is_over = refl

finished_session_has_end_example : terminals (run actions (start false info)).session.sent ≡ 1
finished_session_has_end_example = finished_session_has_end false info actions refl is_idle is_over

abbrev three_bytes : Written
three_bytes = record { taken = 1 ∷ 2 ∷ 3 ∷ []; error = none }

kill_final_example :
    (write_stdin (1 ∷ 2 ∷ 3 ∷ []) true three_bytes (kill true true (new info)).0
      ≡ ((kill true true (new info)).0, ok false))
    × (kill true true (kill true true (new info)).0 ≡ ((kill true true (new info)).0, false))
kill_final_example = kill_final (new info) true true (1 ∷ 2 ∷ 3 ∷ []) true three_bytes true true

abbrev once : BackgroundExecSession
once = finish (codes "e1") exited (some (pos 0)) none (exited_with (pos 0)) hello

hello_runs : hello.info.status ≡ running
unfolding push_event new
hello_runs = refl

finish_once_example :
    (once.info ≡ record hello.info { status = exited; exit_code = some (pos 0); last_error = none })
    × IsReleased once.control
    × (once.sent
        ≡ hello.sent
          ++ record {
            sequence = hello.next_sequence;
            exec_id = codes "e1";
            event = exited_with (pos 0);
          }
            ∷ [])
    × (once.notified ≡ hello.notified + 1)
    × (finish (codes "e1") failed none (some []) (failed_with []) once ≡ once)
finish_once_example =
    finish_once (codes "e1") exited (some (pos 0)) none (exited_with (pos 0)) hello hello_runs refl
      failed none (some []) (failed_with [])

abbrev polls : List Poll
polls = pending true ∷ pending false ∷ pending true ∷ []

pty_wait_kills_once_example : kills_of (pty_wait (codes "e1") false 0 polls hello) ≤ 1
pty_wait_kills_once_example = pty_wait_kills_once (codes "e1") polls hello
