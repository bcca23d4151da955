-- ===== src/Exec/Session.antt =====
-- The state of one background exec session, its event buffer and its way to the terminal state:
-- crates/oad/src/background_exec.rs and the types of crates/oad-api/src/lib.rs. A lock that is
-- taken and released inside one function is one step of the model.
use omniagent.Prelude.{
  ℕ, ◌+◌, ◌%◌, ◌^◌, Bool, true, false, not, Option, none, some, List, [], ◌∷◌, ◌++◌, Text, ℤ,
  length, drop, filter_by, leb, ◌==◌, if◌then◌else◌,
}

pub data BackgroundExecStatus : Type 0 where
  running exited failed : BackgroundExecStatus

pub record BackgroundExecInfo : Type 0 where
  pub id : Text
  pub sandbox_id : Text
  pub container : Text
  pub command : List Text
  pub pty : Bool
  pub status : BackgroundExecStatus
  pub exit_code : Option ℤ
  pub last_error : Option Text

-- The bytes of an output event are a list of numbers.
pub data BackgroundExecEventKind : Type 0 where
  stdout : List ℕ → BackgroundExecEventKind
  stderr : List ℕ → BackgroundExecEventKind
  exited_with : ℤ → BackgroundExecEventKind
  failed_with : Text → BackgroundExecEventKind

unfoldable pub is_terminal : BackgroundExecEventKind → Bool
is_terminal (exited_with code) = true
is_terminal (failed_with message) = true
is_terminal (stdout bytes) = false
is_terminal (stderr bytes) = false

pub record BackgroundExecEvent : Type 0 where
  pub sequence : ℕ
  pub exec_id : Text
  pub event : BackgroundExecEventKind

-- What the session holds of its process. An open writer is the bytes that it has taken so far; a
-- `kill_tx` or a `killer` is there or was taken. The pseudo-terminal's master always stays.
pub data SessionControl : Type 0 where
  pipes : (stdin : Option (List ℕ)) (kill_tx : Bool) → SessionControl
  pty_control : (writer : Option (List ℕ)) (killer : Bool) (kill_tx : Bool) → SessionControl

-- `sent` is what went out on the broadcast channel, and `notified` counts `notify_waiters`.
pub record BackgroundExecSession : Type 0 where
  pub info : BackgroundExecInfo
  pub control : SessionControl
  pub events : List BackgroundExecEvent
  pub next_sequence : ℕ
  pub sent : List BackgroundExecEvent
  pub notified : ℕ

abbrev pub event_buffer_capacity : ℕ
event_buffer_capacity = 4096

abbrev pub u64_mod : ℕ
u64_mod = 2 ^ 64

unfoldable pub new : BackgroundExecInfo → BackgroundExecSession
new info = record {
  info = info;
  control = pipes (some []) true;
  events = [];
  next_sequence = 1;
  sent = [];
  notified = 0;
}

unfoldable pub new_pty : BackgroundExecInfo → BackgroundExecSession
new_pty info = record {
  info = info;
  control = pty_control (some []) true true;
  events = [];
  next_sequence = 1;
  sent = [];
  notified = 0;
}

abbrev pub is_running : BackgroundExecStatus → Bool
is_running running = true
is_running exited = false
is_running failed = false

unfoldable pub events_since : ℕ → BackgroundExecSession → List BackgroundExecEvent
events_since from s = filter_by (λ e. leb from e.sequence) s.events

-- A full queue loses its oldest event.
unfoldable pub make_room : List BackgroundExecEvent → List BackgroundExecEvent
make_room events = if length events == event_buffer_capacity then drop 1 events else events

-- The sequence number, the queue and the broadcast, all under the lock of the events.
unfoldable pub push_event :
    Text → BackgroundExecEventKind → BackgroundExecSession → BackgroundExecSession
unfolding make_room
push_event exec_id kind s =
    let e : BackgroundExecEvent = record {
      sequence = s.next_sequence;
      exec_id = exec_id;
      event = kind;
    } in
    record s {
      next_sequence = (s.next_sequence + 1) % u64_mod;
      events = make_room s.events ++ e ∷ [];
      sent = s.sent ++ e ∷ [];
    }

-- `finish` in its three steps, each under one lock: the status, the handles, the event.
unfoldable pub finish_status :
    BackgroundExecStatus
    → Option ℤ
    → Option Text
    → BackgroundExecSession
    → BackgroundExecSession × Bool
finish_status status exit_code last_error s =
    if is_running s.info.status
    then (
      record s {
        info = record s.info { status = status; exit_code = exit_code; last_error = last_error };
      },
      true,
    )
    else (s, false)

unfoldable pub released : SessionControl → SessionControl
released (pipes stdin kill_tx) = pipes none false
released (pty_control writer killer kill_tx) = pty_control none false false

unfoldable pub finish_control : BackgroundExecSession → BackgroundExecSession
unfolding released
finish_control s = record s { control = released s.control }

unfoldable pub finish_publish :
    Text → BackgroundExecEventKind → BackgroundExecSession → BackgroundExecSession
unfolding push_event
finish_publish exec_id kind s =
    let t = push_event exec_id kind s in record t { notified = t.notified + 1 }

unfoldable pub finish :
    Text
    → BackgroundExecStatus
    → Option ℤ
    → Option Text
    → BackgroundExecEventKind
    → BackgroundExecSession
    → BackgroundExecSession
unfolding finish_status finish_control finish_publish
finish exec_id status exit_code last_error kind s =
    let (t, first) = finish_status status exit_code last_error s in
    if first then finish_publish exec_id kind (finish_control t) else s

unfoldable pub finish_exited : Text → ℤ → BackgroundExecSession → BackgroundExecSession
unfolding finish
finish_exited exec_id code s = finish exec_id exited (some code) none (exited_with code) s

unfoldable pub finish_failed : Text → Text → BackgroundExecSession → BackgroundExecSession
unfolding finish
finish_failed exec_id message s = finish exec_id failed none (some message) (failed_with message) s

-- The loop of `wait_finished` returns when it sees this.
unfoldable pub is_finished : BackgroundExecSession → Bool
is_finished s = not (is_running s.info.status)
