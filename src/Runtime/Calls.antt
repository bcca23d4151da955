-- ===== src/Runtime/Calls.antt =====
-- `Runsc::run`, `Runsc::state` and `Runsc::delete` of crates/oad-runtime/src/lib.rs. The program and the
-- file for its log are arguments, over a world W of containers.
use omniagent.Prelude.{
  ◌≡◌, ◌∙◌, refl, sym, ap, subst, if◌then◌else◌, some, Bool-cases, inl, inr, Bool, true, false,
  List, Text, Result, ok, err,
}
use omniagent.Runtime.{Runsc, state_args, delete_args}

-- The program and the temporary file for its log: `output` is `Command::output`, which fails where
-- the program cannot be started.
pub record Output : Type 0 where
  pub success : Bool
  pub stdout : Text

pub record Program (W E : Type 0) : Type 0 where
  pub temp_log : W → W × Result E Text
  pub output : List Text → W → W × Result E Output
  pub exit_error : List Text → Output → E
  pub error_text : E → Text

pub record RunscCalls (W E : Type 0) : Type 0 where
  pub state : Text → W → W × Result E Text
  pub delete : Text → W → W × Result E (Unit {0})
  pub error_text : E → Text

module _ {W E : Type 0} (program : Program W E) where
  abbrev pub check_output : List Text → W × Result E Output → W × Result E Output
  check_output args (w, err e) = (w, err e)
  check_output args (w, ok output) =
      (w, if output.success then ok output else err (program.exit_error args output))

  -- `Runsc::run`.
  unfoldable pub run_program : List Text → W → W × Result E Output
  run_program args w = check_output args (program.output args w)

  -- What `state` and `delete` share: the log, and a run with the arguments for it.
  abbrev pub run_with : (Text → List Text) → W × Result E Text → W × Result E Output
  unfolding run_program
  run_with args (w, err e) = (w, err e)
  run_with args (w, ok log) = run_program (args log) w

  abbrev pub stdout_of : W × Result E Output → W × Result E Text
  stdout_of (w, err e) = (w, err e)
  stdout_of (w, ok output) = (w, ok output.stdout)

  abbrev pub done_of : W × Result E Output → W × Result E (Unit {0})
  done_of (w, err e) = (w, err e)
  done_of (w, ok output) = (w, ok tt)

  unfoldable pub runsc_state : Runsc → Text → W → W × Result E Text
  unfolding run_with
  runsc_state self container w =
      stdout_of (run_with (λ log. state_args self container (some log)) (program.temp_log w))

  unfoldable pub runsc_delete : Runsc → Text → W → W × Result E (Unit {0})
  unfolding run_with
  runsc_delete self container w =
      done_of (run_with (λ log. delete_args self container (some log)) (program.temp_log w))

  abbrev pub calls_of : Runsc → RunscCalls W E
  unfolding runsc_state runsc_delete
  calls_of self = record {
    state = runsc_state self;
    delete = runsc_delete self;
    error_text = program.error_text;
  }

-- What the program promises of the containers that are there: the log's file and `state` change none;
-- after a `delete` that exits well the container is gone; no `delete` brings a container back.
pub record IsProgram {W E : Type 0} (program : Program W E) (self : Runsc)
    (present : Text → W → Bool) : Type 0 where
  pub log_keeps : (d : Text) (w : W) → present d (program.temp_log w).0 ≡ present d w
  pub state_keeps :
      (c d log : Text) (w : W)
      → present d (program.output (state_args self c (some log)) w).0 ≡ present d w
  pub delete_done :
      (c log : Text) (w : W) {output : Output}
      → (program.output (delete_args self c (some log)) w).1 ≡ ok output
      → output.success ≡ true
      → present c (program.output (delete_args self c (some log)) w).0 ≡ false
  pub delete_keeps :
      (c d log : Text) (w : W)
      → present d w ≡ false
      → present d (program.output (delete_args self c (some log)) w).0 ≡ false

-- The same of `state` and `delete`.
pub record IsRunsc {W E : Type 0} (runsc : RunscCalls W E) (present : Text → W → Bool)
    : Type 0 where
  pub state_keeps : (c d : Text) (w : W) → present d (runsc.state c w).0 ≡ present d w
  pub delete_done :
      (c : Text) (w : W) → (runsc.delete c w).1 ≡ ok tt → present c (runsc.delete c w).0 ≡ false
  pub delete_keeps :
      (c d : Text) (w : W) → present d w ≡ false → present d (runsc.delete c w).0 ≡ false

module _ {W E : Type 0} (program : Program W E) (self : Runsc) (present : Text → W → Bool)
    (laws : IsProgram program self present) where
  -- The world after a run is the one that `output` leaves.
  check_output_world :
      (args : List Text) (r : W × Result E Output) → (check_output program args r).0 ≡ r.0
  check_output_world args (w, err e) = refl
  check_output_world args (w, ok output) = refl

  stdout_of_world : (r : W × Result E Output) → (stdout_of program r).0 ≡ r.0
  stdout_of_world (w, err e) = refl
  stdout_of_world (w, ok output) = refl

  done_of_world : (r : W × Result E Output) → (done_of program r).0 ≡ r.0
  done_of_world (w, err e) = refl
  done_of_world (w, ok output) = refl

  run_with_world :
      (args : Text → List Text) (P : W → Type 0) (logged : W × Result E Text)
      → P logged.0
      → ((log : Text) → P (program.output (args log) logged.0).0)
      → P (run_with program args logged).0
  unfolding run_with run_program
  run_with_world args P (w, err e) h k = h
  run_with_world args P (w, ok log) h k =
      subst P (sym (check_output_world (args log) (program.output (args log) w))) (k log)

  run_with_done :
      (c : Text) (logged : W × Result E Text)
      → (done_of program (run_with program (λ log. delete_args self c (some log)) logged)).1 ≡ ok tt
      → present c (run_with program (λ log. delete_args self c (some log)) logged).0 ≡ false
  unfolding run_with run_program
  run_with_done c (w, err e) h = absurd (cc (h))
  run_with_done c (w, ok log) h = ended (program.output (delete_args self c (some log)) w) refl h
    where
      ended :
          (r : W × Result E Output)
          → program.output (delete_args self c (some log)) w ≡ r
          → (done_of program (check_output program (delete_args self c (some log)) r)).1 ≡ ok tt
          → present c (check_output program (delete_args self c (some log)) r).0 ≡ false
      ended (w', err e) same h = absurd (cc (h))
      ended (w', ok output) same h = elim (Bool-cases output.success) [
        | inl good ↦
            subst (λ v. present c v ≡ false) (ap (λ r. r.0) same)
              (laws.delete_done c log w {output = output} (ap (λ r. r.1) same) good)
        | inr bad ↦ let clash = rw (bad) at h in absurd (cc (clash))
      ]

  pub calls_of-IsRunsc : IsRunsc (calls_of program self) present
  unfolding calls_of runsc_state runsc_delete
  calls_of-IsRunsc = record {
    state_keeps = λ c d w.
        subst (λ v. present d v ≡ present d w)
          (sym (
            stdout_of_world
              (run_with program (λ log. state_args self c (some log)) (program.temp_log w))))
          (run_with_world (λ log. state_args self c (some log)) (λ v. present d v ≡ present d w)
            (program.temp_log w) (laws.log_keeps d w)
            (λ log. laws.state_keeps c d log (program.temp_log w).0 ∙ laws.log_keeps d w));
    delete_done = λ c w done.
        subst (λ v. present c v ≡ false)
          (sym (
            done_of_world
              (run_with program (λ log. delete_args self c (some log)) (program.temp_log w))))
          (run_with_done c (program.temp_log w) done);
    delete_keeps = λ c d w gone.
        let gone' = laws.log_keeps d w ∙ gone in
        subst (λ v. present d v ≡ false)
          (sym (
            done_of_world
              (run_with program (λ log. delete_args self c (some log)) (program.temp_log w))))
          (run_with_world (λ log. delete_args self c (some log)) (λ v. present d v ≡ false)
            (program.temp_log w) gone'
            (λ log. laws.delete_keeps c d log (program.temp_log w).0 gone'));
  }
