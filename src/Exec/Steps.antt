-- ===== src/Exec/Steps.antt =====
-- One session under all its tasks: readers that push output, clients that write and kill, and
-- waiters that finish it, interleaved in any order (crates/oad/src/background_exec.rs). A terminal's
-- reader pushes to stdout, and its waiter ends by the same two calls; a resize leaves the session as
-- it is.
pub mod Terminal
use omniagent.Prelude.{
  ℕ, suc, ◌+◌, ◌≤◌, ◌<◌, ◌≡◌, refl, sym, ap, ◌∙◌, subst, ◌⊎◌, inl, inr, Bool, true, false, Option,
  none, some, List, [], ◌∷◌, ◌++◌, arith, Text, ℤ, count_if, if◌then◌else◌, length, Bool-cases,
}
use omniagent.Exec.Session.{
  BackgroundExecStatus, running, exited, failed, BackgroundExecInfo, BackgroundExecEventKind,
  stdout, stderr, exited_with, failed_with, is_terminal, BackgroundExecEvent, BackgroundExecSession,
  is_running, push_event, make_room, finish_status, finish_control, finish_publish, new,
}
use omniagent.Exec.Control.{Written, write_stdin, kill}

-- Where the one task that has passed the guard of `finish` stands.
pub data Finishing : Type 0 where
  idle : Finishing
  releasing : BackgroundExecEventKind → Finishing
  publishing : BackgroundExecEventKind → Finishing

pub record Machine : Type 0 where
  pub session : BackgroundExecSession
  pub finishing : Finishing

-- What a task does next. A step that is not enabled leaves the machine as it is.
pub data Action : Type 0 where
  read_stdout : List ℕ → Action
  read_stderr : List ℕ → Action
  write : List ℕ → (close : Bool) → Written → Action
  kill_session : (listens kills : Bool) → Action
  begin_exited : ℤ → Action
  begin_failed : Text → Action
  release_handles : Action
  publish : Action

-- The guard of `finish`; a task that does not pass it is done.
begin : BackgroundExecStatus → Option ℤ → Option Text → BackgroundExecEventKind → Machine → Machine
begin status code error kind m =
    let (s, first) = finish_status status code error m.session in
    if first then record { session = s; finishing = releasing kind } else m

release_step : Finishing → Machine → Machine
release_step (releasing kind) m = record {
  session = finish_control m.session;
  finishing = publishing kind;
}
release_step idle m = m
release_step (publishing kind) m = m

publish_step : Finishing → Machine → Machine
publish_step (publishing kind) m = record {
  session = finish_publish m.session.info.id kind m.session;
  finishing = idle;
}
publish_step idle m = m
publish_step (releasing kind) m = m

unfoldable pub act : Action → Machine → Machine
unfolding begin release_step publish_step
act (read_stdout bytes) m = record m {
  session = push_event m.session.info.id (stdout bytes) m.session;
}
act (read_stderr bytes) m = record m {
  session = push_event m.session.info.id (stderr bytes) m.session;
}
act (write bytes close w) m = record m { session = (write_stdin bytes close w m.session).0 }
act (kill_session listens kills) m = record m { session = (kill listens kills m.session).0 }
act (begin_exited code) m = begin exited (some code) none (exited_with code) m
act (begin_failed message) m = begin failed none (some message) (failed_with message) m
act release_handles m = release_step m.finishing m
act publish m = publish_step m.finishing m

unfoldable pub run : List Action → Machine → Machine
unfolding act
run [] m = m
run (a ∷ rest) m = run rest (act a m)
