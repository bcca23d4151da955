-- ===== src/Tests/RuntimeTests.antt =====
-- crates/oad-runtime/src/lib.rs: command lines, and a world with two containers.
use omniagent.Prelude.{
  ◌≡◌, refl, Bool, true, false, not, ◌&&◌, Bool-cases, none, some, List, ◌⊎◌, [], ◌∷◌, ◌++◌, Text,
  codes, Result, ok, err, inl, inr, if◌then◌else◌, length, drop, text_eq, text_eq_iff,
}
use omniagent.Runtime.{
  Runsc, sandbox, state_args, delete_args, base_args, exec_args, create_args, host,
}
use omniagent.Runtime.Exec.{read_exec, read_exec-exec_args}
use omniagent.Runtime.Calls.{Output, Program, IsProgram, calls_of}
use omniagent.Runtime.Sequence.{
  delete_visible_containers, delete_visible_containers_lem, Reported, Missed, reverse,
}

abbrev runsc : Runsc
runsc = record { state_dir = codes "/s"; network_mode = sandbox }

-- A container and a command that look like flags.
read_exec-exec_args_example :
    read_exec none [] (
      drop (length (base_args runsc (some (codes "/log")) ++ codes "exec" ∷ [])) (
        exec_args runsc
          (codes "-env")
          (codes "--" ∷ codes "-cwd" ∷ [])
          (codes "-cwd" ∷ [])
          (some (codes "--"))
          (some (codes "/log"))))
    ≡ some (record {
      container = codes "-env";
      command = codes "--" ∷ codes "-cwd" ∷ [];
      env = codes "-cwd" ∷ [];
      cwd = some (codes "--");
    })
read_exec-exec_args_example =
    read_exec-exec_args runsc (codes "-env") (codes "--" ∷ codes "-cwd" ∷ []) (codes "-cwd" ∷ [])
      (some (codes "--")) (some (codes "/log"))

exec_line :
    exec_args runsc
      (codes "web")
      (codes "ls" ∷ codes "-l" ∷ [])
      (codes "A=1" ∷ [])
      (some (codes "/"))
      none
    ≡ codes "-log-format"
      ∷ codes "json"
      ∷ codes "-root"
      ∷ codes "/s"
      ∷ codes "exec"
      ∷ codes "-cwd"
      ∷ codes "/"
      ∷ codes "-env"
      ∷ codes "A=1"
      ∷ codes "--"
      ∷ codes "web"
      ∷ codes "ls"
      ∷ codes "-l"
      ∷ []
unfolding exec_args
exec_line = refl

create_line :
    create_args
      (record { state_dir = codes "/s"; network_mode = host })
      (codes "/b")
      (codes "/p")
      (codes "web")
      (codes "/o")
    ≡ codes "-log-format"
      ∷ codes "json"
      ∷ codes "-root"
      ∷ codes "/s"
      ∷ codes "-network"
      ∷ codes "host"
      ∷ codes "--overlay2=root:dir=/o"
      ∷ codes "create"
      ∷ codes "-bundle"
      ∷ codes "/b"
      ∷ codes "-pid-file"
      ∷ codes "/p"
      ∷ codes "web"
      ∷ []
unfolding create_args
create_line = refl

-- The containers that are there, and one that cannot be deleted.
abbrev World : Type 0
World = Text → Bool

abbrev stuck : Text
stuck = codes "stuck"

abbrev deleted : Text → World → World × Result Text Output
deleted c w =
    if text_eq c stuck
    then (w, ok (record { success = false; stdout = codes "busy" }))
    else ((λ d. not (text_eq c d) && w d), ok (record { success = true; stdout = [] }))

-- The six global arguments, and then `state` with a container or `delete` with a flag and one.
abbrev output_of : List Text → World → World × Result Text Output
output_of (a ∷ b ∷ l ∷ m ∷ r ∷ d ∷ verb ∷ c ∷ []) w =
    (w, ok (record { success = w c; stdout = codes "{}" }))
output_of (a ∷ b ∷ l ∷ m ∷ r ∷ d ∷ verb ∷ force ∷ c ∷ []) w = deleted c w
output_of args w = (w, err (codes "usage"))

abbrev program : Program World Text
program = record {
  temp_log = λ w. (w, ok (codes "/tmp/log"));
  output = output_of;
  exit_error = λ args output. output.stdout;
  error_text = λ e. e;
}

abbrev present : Text → World → Bool
present c w = w c

program-IsProgram : IsProgram program runsc present
unfolding state_args delete_args base_args
program-IsProgram = record {
  log_keeps = λ d w. refl;
  state_keeps = λ c d log w. refl;
  delete_done = λ c log w done good. delete_done c w done good;
  delete_keeps = λ c d log w gone. delete_keeps c d w gone;
}
  where
    delete_done :
        (c : Text) (w : World) {output : Output}
        → (deleted c w).1 ≡ ok output
        → output.success ≡ true
        → present c (deleted c w).0 ≡ false
    delete_done c w done good = elim (Bool-cases (text_eq c stuck)) [
      | inl is_stuck ↦ let bad = rw (is_stuck) at done in absurd (cc (bad, good))
      | inr free ↦ rw (free, (text_eq_iff c c).1 refl) refl
    ]

    delete_keeps :
        (c d : Text) (w : World) → present d w ≡ false → present d (deleted c w).0 ≡ false
    delete_keeps c d w gone = elim (Bool-cases (text_eq c stuck)) [
      | inl is_stuck ↦ rw (is_stuck) gone
      | inr free ↦ elim (Bool-cases (text_eq c d)) [
        | inl same ↦ rw (free, same) refl
        | inr differ ↦ rw (free, differ, gone) refl
      ]
    ]

abbrev sandboxed : List Text
sandboxed = codes "web" ∷ stuck ∷ []

delete_visible_containers_lem_example :
    (present stuck (delete_visible_containers (calls_of program runsc) sandboxed (λ c. true)).0
      ≡ false)
    ⊎ (Reported stuck (delete_visible_containers (calls_of program runsc) sandboxed (λ c. true)).1
        ⊎ Missed (calls_of program runsc) present stuck (reverse sandboxed) (λ c. true))
delete_visible_containers_lem_example =
    delete_visible_containers_lem program runsc present program-IsProgram sandboxed stuck
      (λ c. true) (inr (inl refl))
