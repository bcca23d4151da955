-- ===== src/Exec/Waiter.antt =====
-- The tasks that wait for the process: `finish_child`, and the polling loop of `spawn_pty_waiter`,
-- crates/oad/src/background_exec.rs. What a poll finds is an argument, one entry for each round.
use omniagent.Prelude.{
  ℕ, suc, ◌≤◌, Bool, true, false, not, ◌&&◌, Option, none, some, List, [], ◌∷◌, ◌++◌, arith, Text,
  codes, Result, ok, err, ℤ, pos, negsuc, if◌then◌else◌, ltb,
}
use omniagent.Exec.Session.{BackgroundExecSession, finish_exited, finish_failed}

-- `status.code()` is none when a signal ended the process.
unfoldable pub exit_code_or_signal : Option ℤ → ℤ
exit_code_or_signal none = negsuc 0
exit_code_or_signal (some code) = code

unfoldable pub finish_child :
    Text → Result Text (Option ℤ) → BackgroundExecSession → BackgroundExecSession
unfolding exit_code_or_signal
finish_child exec_id (ok code) s = finish_exited exec_id (exit_code_or_signal code) s
finish_child exec_id (err e) s =
    finish_failed exec_id (codes "failed to wait for background exec: " ++ e) s

-- `i32::try_from(exit_code).unwrap_or(-1)` on a u32.
unfoldable pub pty_exit_code : ℕ → ℤ
pty_exit_code n = if ltb n 0x80000000 then pos n else negsuc 0

-- One round: what `try_wait` returns, and whether a kill request is in the channel.
pub data Poll : Type 0 where
  exited : ℕ → Poll
  pending : (kill_requested : Bool) → Poll
  failed : Text → Poll

-- How the loop stands after the rounds: still polling, or the session it has finished; with the
-- number of calls of `child.kill`.
pub data Waited : Type 0 where
  polling : (kills : ℕ) → Waited
  done : (kills : ℕ) → BackgroundExecSession → Waited

unfoldable pub pty_wait : Text → Bool → ℕ → List Poll → BackgroundExecSession → Waited
unfolding pty_exit_code
pty_wait exec_id killed kills [] s = polling kills
pty_wait exec_id killed kills (exited code ∷ rest) s =
    done kills (finish_exited exec_id (pty_exit_code code) s)
pty_wait exec_id killed kills (failed e ∷ rest) s =
    done kills (finish_failed exec_id (codes "failed to wait for pty background exec: " ++ e) s)
pty_wait exec_id killed kills (pending requested ∷ rest) s =
    let now = not killed && requested in
    pty_wait exec_id (if now then true else killed) (if now then suc kills else kills) rest s

abbrev pub kills_of : Waited → ℕ
kills_of (polling kills) = kills
kills_of (done kills s) = kills

pty_wait_kills :
    (exec_id : Text) (killed : Bool) (kills : ℕ) (polls : List Poll) (s : BackgroundExecSession)
    → kills ≤ (if killed then 1 else 0)
    → kills_of (pty_wait exec_id killed kills polls s) ≤ 1
unfolding pty_wait
pty_wait_kills exec_id killed kills [] s h = ground arith
pty_wait_kills exec_id killed kills (exited code ∷ rest) s h = ground arith
pty_wait_kills exec_id killed kills (failed e ∷ rest) s h = ground arith
pty_wait_kills exec_id true kills (pending requested ∷ rest) s h =
    pty_wait_kills exec_id true kills rest s h
pty_wait_kills exec_id false kills (pending true ∷ rest) s h =
    pty_wait_kills exec_id true (suc kills) rest s (omega arith)
pty_wait_kills exec_id false kills (pending false ∷ rest) s h =
    pty_wait_kills exec_id false kills rest s h

-- However often a kill is requested, the polling loop kills the child at most once.
pub pty_wait_kills_once :
    (exec_id : Text) (polls : List Poll) (s : BackgroundExecSession)
    → kills_of (pty_wait exec_id false 0 polls s) ≤ 1
pty_wait_kills_once exec_id polls s = pty_wait_kills exec_id false 0 polls s (omega arith)
