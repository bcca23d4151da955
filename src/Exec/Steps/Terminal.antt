-- ===== src/Exec/Steps/Terminal.antt =====
-- A session ends once, and its info and its event stream tell the same end, in whatever order the
-- tasks of crates/oad/src/background_exec.rs take their steps.
use omniagent.Prelude.{
  ℕ, ◌+◌, ◌≤◌, ◌≡◌, refl, inl, inr, Bool, true, false, Option, none, some, List, [], ◌∷◌, ◌++◌,
  arith, Text, ℤ, count_if, if◌then◌else◌, Bool-cases,
}
use omniagent.Exec.Session.{
  BackgroundExecStatus, running, exited, failed, BackgroundExecInfo, BackgroundExecEventKind,
  stdout, stderr, exited_with, failed_with, is_terminal, BackgroundExecEvent, is_running,
  push_event, finish_status, finish_control, finish_publish, new, new_pty,
}
use omniagent.Exec.Control.{write_stdin, kill}
use omniagent.Exec.Steps.{
  Finishing, idle, releasing, publishing, Machine, Action, read_stdout, read_stderr, write,
  kill_session, begin_exited, begin_failed, release_handles, publish, begin, release_step,
  publish_step, act, run,
}

-- What the info says once this event is out.
abbrev pub Outcome : BackgroundExecInfo → BackgroundExecEventKind → Type 0
Outcome i (exited_with code) =
    (i.status ≡ exited) × (i.exit_code ≡ some code) × (i.last_error ≡ none)
Outcome i (failed_with message) =
    (i.status ≡ failed) × (i.exit_code ≡ none) × (i.last_error ≡ some message)
Outcome i (stdout bytes) = Unit
Outcome i (stderr bytes) = Unit

abbrev pub AllAgree : BackgroundExecInfo → List BackgroundExecEvent → Type 0
AllAgree i [] = Unit
AllAgree i (e ∷ es) = Outcome i e.event × AllAgree i es

abbrev pub terminals : List BackgroundExecEvent → ℕ
terminals es = count_if (λ e. is_terminal e.event) es

abbrev under_way : Finishing → ℕ
under_way idle = 0
under_way (releasing kind) = 1
under_way (publishing kind) = 1

abbrev Coming : BackgroundExecInfo → Finishing → Type 0
Coming i idle = Unit
Coming i (releasing kind) = Outcome i kind × (is_terminal kind ≡ true)
Coming i (publishing kind) = Outcome i kind × (is_terminal kind ≡ true)

record IsCoherent (m : Machine) : Type 0 where
  one :
      terminals m.session.sent + under_way m.finishing
      ≡ (if is_running m.session.info.status then 0 else 1)
  told : AllAgree m.session.info m.session.sent
  coming : Coming m.session.info m.finishing

terminals-append :
    (es : List BackgroundExecEvent) (e : BackgroundExecEvent)
    → terminals (es ++ e ∷ []) ≡ terminals es + (if is_terminal e.event then 1 else 0)
unfolding count_if
terminals-append [] e = omega arith
terminals-append (x ∷ es) e = omega (arith, terminals-append es e)

AllAgree-append :
    (i : BackgroundExecInfo) (es : List BackgroundExecEvent) (e : BackgroundExecEvent)
    → AllAgree i es
    → Outcome i e.event
    → AllAgree i (es ++ e ∷ [])
AllAgree-append i [] e h k = (k, tt)
AllAgree-append i (x ∷ es) e h k = (h.0, AllAgree-append i es e h.1 k)

quiet-Outcome :
    (i : BackgroundExecInfo) (k : BackgroundExecEventKind) → is_terminal k ≡ false → Outcome i k
unfolding is_terminal
quiet-Outcome i (exited_with code) h = cc
quiet-Outcome i (failed_with message) h = cc
quiet-Outcome i (stdout bytes) h = tt
quiet-Outcome i (stderr bytes) h = tt

-- A history without a terminal event agrees with any info.
quiet-AllAgree :
    (i : BackgroundExecInfo) (es : List BackgroundExecEvent) → terminals es ≡ 0 → AllAgree i es
unfolding count_if
quiet-AllAgree i [] h = tt
quiet-AllAgree i (e ∷ es) h = elim (Bool-cases (is_terminal e.event)) [
  | inl t ↦ absurd (omega (arith, rw t at h))
  | inr q ↦ (quiet-Outcome i e.event q, quiet-AllAgree i es (omega (arith, rw q at h)))
]

push_quiet-IsCoherent :
    (id : Text) (kind : BackgroundExecEventKind) (m : Machine)
    → is_terminal kind ≡ false
    → IsCoherent m
    → IsCoherent (record m { session = push_event id kind m.session })
unfolding push_event
push_quiet-IsCoherent id kind m q h = record {
  one = rw (terminals-append, q) (omega (arith, h.one));
  told =
      AllAgree-append m.session.info m.session.sent _ h.told (quiet-Outcome m.session.info kind q);
  coming = h.coming;
}

begin-IsCoherent :
    (status : BackgroundExecStatus) (code : Option ℤ) (error : Option Text)
    (kind : BackgroundExecEventKind) (m : Machine)
    → is_terminal kind ≡ true
    → is_running status ≡ false
    → ((i : BackgroundExecInfo)
        → Outcome (record i { status = status; exit_code = code; last_error = error }) kind)
    → IsCoherent m
    → IsCoherent (begin status code error kind m)
unfolding begin finish_status
begin-IsCoherent status code error kind m t stopped fits h =
    elim (Bool-cases (is_running m.session.info.status)) [
      | inl live ↦ rw live (
          let ended : BackgroundExecInfo = record m.session.info {
            status = status;
            exit_code = code;
            last_error = error;
          } in
          let none_yet : terminals m.session.sent ≡ 0 = omega (arith, rw live at h.one) in
          record {
            one = rw stopped (omega arith);
            told = quiet-AllAgree ended m.session.sent none_yet;
            coming = (fits m.session.info, t);
          })
      | inr over ↦ rw over h
    ]

release_step-IsCoherent :
    (f : Finishing) (m : Machine) → m.finishing ≡ f → IsCoherent m → IsCoherent (release_step f m)
unfolding release_step finish_control
release_step-IsCoherent idle m e h = h
release_step-IsCoherent (releasing kind) m e h = record {
  one = omega (arith, rw e at h.one);
  told = h.told;
  coming = rw e at h.coming;
}
release_step-IsCoherent (publishing kind) m e h = h

publish_step-IsCoherent :
    (f : Finishing) (m : Machine) → m.finishing ≡ f → IsCoherent m → IsCoherent (publish_step f m)
unfolding publish_step finish_publish push_event
publish_step-IsCoherent idle m e h = h
publish_step-IsCoherent (releasing kind) m e h = h
publish_step-IsCoherent (publishing kind) m e h =
    let due : Coming m.session.info (publishing kind) = rw e at h.coming in
    record {
      one = rw (terminals-append, due.1) (omega (arith, rw e at h.one));
      told = AllAgree-append m.session.info m.session.sent _ h.told (due.0);
      coming = tt;
    }

act-IsCoherent : (a : Action) (m : Machine) → IsCoherent m → IsCoherent (act a m)
unfolding act write_stdin kill is_terminal
act-IsCoherent (read_stdout bytes) m h = push_quiet-IsCoherent _ (stdout bytes) m refl h
act-IsCoherent (read_stderr bytes) m h = push_quiet-IsCoherent _ (stderr bytes) m refl h
act-IsCoherent (write bytes close w) m h = record { one = h.one; told = h.told; coming = h.coming }
act-IsCoherent (kill_session listens kills) m h = record {
  one = h.one;
  told = h.told;
  coming = h.coming;
}
act-IsCoherent (begin_exited code) m h =
    begin-IsCoherent exited (some code) none (exited_with code) m refl refl
      (λ i. (refl, refl, refl)) h
act-IsCoherent (begin_failed message) m h =
    begin-IsCoherent failed none (some message) (failed_with message) m refl refl
      (λ i. (refl, refl, refl)) h
act-IsCoherent release_handles m h = release_step-IsCoherent m.finishing m refl h
act-IsCoherent publish m h = publish_step-IsCoherent m.finishing m refl h

run-IsCoherent : (actions : List Action) (m : Machine) → IsCoherent m → IsCoherent (run actions m)
unfolding run
run-IsCoherent [] m h = h
run-IsCoherent (a ∷ rest) m h = run-IsCoherent rest (act a m) (act-IsCoherent a m h)

-- A session with pipes, or one with a pseudo-terminal.
abbrev pub start : Bool → BackgroundExecInfo → Machine
start false info = record { session = new info; finishing = idle }
start true info = record { session = new_pty info; finishing = idle }

start-IsCoherent :
    (pty : Bool) (info : BackgroundExecInfo) → info.status ≡ running → IsCoherent (start pty info)
unfolding new new_pty count_if
start-IsCoherent false info r = record { one = rw r (omega arith); told = tt; coming = tt }
start-IsCoherent true info r = record { one = rw r (omega arith); told = tt; coming = tt }

-- However the tasks of a session that starts as running, with pipes or with a pseudo-terminal,
-- interleave, its stream has at most one terminal event, and none while the session is running, and
-- every terminal event in it states the status, the exit code and the error that the info holds in
-- the end.
pub one_end_per_session :
    (pty : Bool) (info : BackgroundExecInfo) (actions : List Action)
    → info.status ≡ running
    → (terminals (run actions (start pty info)).session.sent
        ≤ (if is_running (run actions (start pty info)).session.info.status then 0 else 1))
      × AllAgree
          (run actions (start pty info)).session.info
          (run actions (start pty info)).session.sent
one_end_per_session pty info actions r =
    let h = run-IsCoherent actions (start pty info) (start-IsCoherent pty info r) in
    (omega (arith, h.one), h.told)

-- A session, with pipes or with a pseudo-terminal, that starts as running, whose status has left
-- running and whose `finish` has run to its end, has exactly one terminal event in its stream.
pub finished_session_has_end :
    (pty : Bool) (info : BackgroundExecInfo) (actions : List Action)
    → info.status ≡ running
    → (run actions (start pty info)).finishing ≡ idle
    → is_running (run actions (start pty info)).session.info.status ≡ false
    → terminals (run actions (start pty info)).session.sent ≡ 1
finished_session_has_end pty info actions r i over =
    let h = run-IsCoherent actions (start pty info) (start-IsCoherent pty info r) in
    omega (arith, rw (i, over) at h.one)
