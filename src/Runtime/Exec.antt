-- ===== src/Runtime/Exec.antt =====
-- The command line of `runsc exec`, read back the way runsc reads flags: `Runsc::exec_args` of
-- crates/oad-runtime/src/lib.rs.
use omniagent.Prelude.{
  ◌≡◌, refl, sym, ap, ◌∙◌, true, false, Option, none, some, List, [], ◌∷◌, ◌++◌, append_assoc,
  append-nil, Text, codes, text_eq, length, drop,
}
use omniagent.Core.Paths.Join.{PathBuf}
use omniagent.Runtime.{Runsc, base_args, cwd_args, env_args, exec_args}

pub record ExecRequest : Type 0 where
  pub container : Text
  pub command : List Text
  pub env : List Text
  pub cwd : Option Text

-- What stands behind `exec`: flags with a value up to `--`, then the container and its command. A
-- later -cwd replaces an earlier one, and each -env adds a variable.
unfoldable pub read_exec : Option Text → List Text → List Text → Option ExecRequest
read_exec cwd env [] = none
read_exec cwd env (flag ∷ []) = none
read_exec cwd env (flag ∷ value ∷ args) = elim (text_eq flag (codes "--")) [
  | true ↦ some (record { container = value; command = args; env = env; cwd = cwd })
  | false ↦ elim (text_eq flag (codes "-cwd")) [
    | true ↦ read_exec (some value) env args
    | false ↦ elim (text_eq flag (codes "-env")) [
      | true ↦ read_exec cwd (env ++ value ∷ []) args
      | false ↦ none
    ]
  ]
]

read_exec-env_args :
    (cwd : Option Text) (before env : List Text) (container : Text) (command : List Text)
    → read_exec cwd before (env_args env ++ codes "--" ∷ container ∷ command)
      ≡ some (record { container = container; command = command; env = before ++ env; cwd = cwd })
unfolding read_exec env_args text_eq
read_exec-env_args cwd before [] container command =
    ap (λ e. some (record { container = container; command = command; env = e; cwd = cwd }))
      (sym (append-nil before))
read_exec-env_args cwd before (var ∷ env) container command =
    read_exec-env_args cwd (before ++ var ∷ []) env container command
    ∙ ap (λ e. some (record { container = container; command = command; env = e; cwd = cwd }))
        (append_assoc before (var ∷ []) env)

read_exec-cwd_args :
    (cwd : Option Text) (args : List Text)
    → read_exec none [] (cwd_args cwd ++ args) ≡ read_exec cwd [] args
unfolding read_exec cwd_args text_eq
read_exec-cwd_args none args = refl
read_exec-cwd_args (some cwd) args = refl

drop-length-append : (xs ys : List Text) → drop (length xs) (xs ++ ys) ≡ ys
drop-length-append [] ys = refl
drop-length-append (x ∷ xs) ys = drop-length-append xs ys

-- Behind the global flags and `exec`, runsc reads back the container, the command, the variables
-- and the directory that exec_args was given, whatever characters they begin with.
pub read_exec-exec_args :
    (self : Runsc) (container : Text) (command env : List Text) (cwd : Option Text)
    (log_path : Option PathBuf)
    → read_exec none [] (
        drop
          (length (base_args self log_path ++ codes "exec" ∷ []))
          (exec_args self container command env cwd log_path))
      ≡ some (record { container = container; command = command; env = env; cwd = cwd })
unfolding exec_args
read_exec-exec_args self container command env cwd log_path =
    let front = base_args self log_path ++ codes "exec" ∷ [] in
    let args = codes "--" ∷ container ∷ command in
    ap (λ a. read_exec none [] (drop (length front) a))
      (append_assoc (front ++ cwd_args cwd) (env_args env) args
        ∙ append_assoc front (cwd_args cwd) (env_args env ++ args))
    ∙ ap (read_exec none []) (drop-length-append front (cwd_args cwd ++ (env_args env ++ args)))
    ∙ read_exec-cwd_args cwd (env_args env ++ args)
    ∙ read_exec-env_args cwd [] env container command
