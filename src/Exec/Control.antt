-- ===== src/Exec/Control.antt =====
-- Writing to, resizing and killing a session: `write_stdin`, `resize` and `kill` of
-- crates/oad/src/background_exec.rs. What the operating system answers is an argument: how many
-- bytes a write takes and whether it fails, whether a resize or a kill succeeds, and whether the
-- waiter still listens on the kill channel.
use omniagent.Prelude.{
  ℕ, ◌+◌, ℤ, ◌≡◌, refl, Bool, true, false, ◌&&◌, ◌||◌, if◌then◌else◌, Option, none, some, List, [],
  ◌∷◌, ◌++◌, Text, Result, ok, err,
}
use omniagent.Exec.Session.{
  BackgroundExecSession, SessionControl, pipes, pty_control, finish, finish_status, finish_control,
  finish_publish, released, BackgroundExecStatus, BackgroundExecEventKind, running, is_running,
  push_event,
}

-- The answer to `write_all` and `flush`: the bytes taken and the error, if any.
pub record Written : Type 0 where
  pub taken : List ℕ
  pub error : Option Text

-- A writer after the write and, if asked for, the close; an error returns before the close.
-- After the bytes: an error returns before the close.
unfoldable pub close_after : Bool → List ℕ → Option Text → Option (List ℕ) × Result Text Bool
close_after close out (some e) = (some out, err e)
close_after close out none = (if close then none else some out, ok true)

-- An open writer; nothing is written for no bytes.
unfoldable pub write_open : List ℕ → Bool → Written → List ℕ → Option (List ℕ) × Result Text Bool
unfolding close_after
write_open [] close w out = close_after close out none
write_open (b ∷ bytes) close w out = close_after close (out ++ w.taken) w.error

unfoldable pub write_writer :
    List ℕ → Bool → Written → Option (List ℕ) → Option (List ℕ) × Result Text Bool
unfolding write_open
write_writer bytes close w none = (none, ok false)
write_writer bytes close w (some out) = write_open bytes close w out

write_control : List ℕ → Bool → Written → SessionControl → SessionControl × Result Text Bool
unfolding write_writer
write_control bytes close w (pipes stdin kill_tx) =
    let (stdin', r) = write_writer bytes close w stdin in (pipes stdin' kill_tx, r)
write_control bytes close w (pty_control writer killer kill_tx) =
    let (writer', r) = write_writer bytes close w writer in (pty_control writer' killer kill_tx, r)

unfoldable pub write_stdin :
    List ℕ → Bool → Written → BackgroundExecSession → BackgroundExecSession × Result Text Bool
unfolding write_control
write_stdin bytes close w s =
    let (c, r) = write_control bytes close w s.control in (record s { control = c }, r)

-- `resized` is whether the master takes the new size; the size itself lives in the terminal.
resize_control : Bool → SessionControl → Bool
resize_control resized (pipes stdin kill_tx) = false
resize_control resized (pty_control writer killer kill_tx) = resized

unfoldable pub resize : Bool → BackgroundExecSession → Bool
unfolding resize_control
resize resized s = resize_control resized s.control

-- `listens` is whether the waiter still holds the receiver, `kills` whether the killer succeeds.
kill_control : Bool → Bool → SessionControl → SessionControl × Bool
kill_control listens kills (pipes stdin kill_tx) = (pipes none false, kill_tx && listens)
kill_control listens kills (pty_control writer killer kill_tx) =
    (pty_control none false false, (kill_tx && listens) || (killer && kills))

unfoldable pub kill : Bool → Bool → BackgroundExecSession → BackgroundExecSession × Bool
unfolding kill_control
kill listens kills s =
    let (c, killed) = kill_control listens kills s.control in (record s { control = c }, killed)

-- Every handle but the terminal's master is gone.
abbrev pub IsReleased : SessionControl → Type 0
IsReleased (pipes stdin kill_tx) = (stdin ≡ none) × (kill_tx ≡ false)
IsReleased (pty_control writer killer kill_tx) =
    (writer ≡ none) × (killer ≡ false) × (kill_tx ≡ false)

kill_control-IsReleased :
    (listens kills : Bool) (c : SessionControl) → IsReleased (kill_control listens kills c).0
unfolding kill_control
kill_control-IsReleased listens kills (pipes stdin kill_tx) = (refl, refl)
kill_control-IsReleased listens kills (pty_control writer killer kill_tx) = (refl, refl, refl)

write_control-IsReleased :
    (bytes : List ℕ) (close : Bool) (w : Written) (c : SessionControl)
    → IsReleased c
    → write_control bytes close w c ≡ (c, ok false)
unfolding write_control
write_control-IsReleased bytes close w (pipes stdin kill_tx) h = rw (h.0)
write_control-IsReleased bytes close w (pty_control writer killer kill_tx) h = rw (h.0)

kill_control_again :
    (listens kills : Bool) (c : SessionControl)
    → IsReleased c
    → kill_control listens kills c ≡ (c, false)
unfolding kill_control
kill_control_again listens kills (pipes stdin kill_tx) h = rw (h.0, h.1)
kill_control_again listens kills (pty_control writer killer kill_tx) h = rw (h.0, h.1, h.2)

finish-IsReleased : (c : SessionControl) → IsReleased (released c)
unfolding released
finish-IsReleased (pipes stdin kill_tx) = (refl, refl)
finish-IsReleased (pty_control writer killer kill_tx) = (refl, refl, refl)

refused :
    (s : BackgroundExecSession) (bytes : List ℕ) (close : Bool) (w : Written) (listens kills : Bool)
    → IsReleased s.control
    → (write_stdin bytes close w s ≡ (s, ok false)) × (kill listens kills s ≡ (s, false))
unfolding write_stdin kill
refused s bytes close w listens kills h = (
  rw (write_control-IsReleased bytes close w s.control h),
  rw (kill_control_again listens kills s.control h),
)

-- After a kill, whatever it answered, a session refuses every write and every further kill, and
-- neither changes it.
pub kill_final :
    (s : BackgroundExecSession) (l k : Bool) (bytes : List ℕ) (close : Bool) (w : Written)
    (listens kills : Bool)
    → (write_stdin bytes close w (kill l k s).0 ≡ ((kill l k s).0, ok false))
      × (kill listens kills (kill l k s).0 ≡ ((kill l k s).0, false))
kill_final s l k bytes close w listens kills =
    refused (kill l k s).0 bytes close w listens kills (killed s l k)
  where
    killed : (s : BackgroundExecSession) (l k : Bool) → IsReleased (kill l k s).0.control
    killed s l k = unfold kill in kill_control-IsReleased l k s.control

-- The first `finish` of a running session sets the status, the exit code and the error, lets go of
-- the handles, adds its event to the stream and wakes the waiters; a later one changes nothing.
pub finish_once :
    (id : Text) (status : BackgroundExecStatus) (code : Option ℤ) (error : Option Text)
    (kind : BackgroundExecEventKind) (s : BackgroundExecSession)
    → s.info.status ≡ running
    → is_running status ≡ false
    → (status' : BackgroundExecStatus) (code' : Option ℤ) (error' : Option Text)
      (kind' : BackgroundExecEventKind)
    → ((finish id status code error kind s).info
        ≡ record s.info { status = status; exit_code = code; last_error = error })
      × IsReleased (finish id status code error kind s).control
      × ((finish id status code error kind s).sent
          ≡ s.sent ++ record { sequence = s.next_sequence; exec_id = id; event = kind } ∷ [])
      × ((finish id status code error kind s).notified ≡ s.notified + 1)
      × (finish id status' code' error' kind' (finish id status code error kind s)
          ≡ finish id status code error kind s)
unfolding finish finish_status finish_control finish_publish push_event
finish_once id status code error kind s live over status' code' error' kind' =
    rw live (refl, finish-IsReleased s.control, refl, refl, rw over)
