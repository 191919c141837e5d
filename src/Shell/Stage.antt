-- ===== src/Shell/Stage.antt =====
-- A child of a pipeline in `main` of Project 1/main.c: what it parses, the calls of the system it makes,
-- and the command it gets to.
use ec440_projects.Prelude.{
  ℕ, zero, suc, ◌+◌, ◌-◌, ◌*◌, Option, none, some, List, [], ◌∷◌, ltb, ◌==◌, if◌then◌else◌,
}
use ec440_projects.Run.{Run, done, fault, access, ◌>>=◌}
use ec440_projects.Shell.Text.{Line, newline, space, find_char, strlen, cut}
use ec440_projects.Shell.Parse.{parse_input}
use ec440_projects.Shell.Line.{file_name, less_than, greater_than}
use ec440_projects.Shell.Pipes.{
  File, std_in, std_out, Action, dup_pipe, close_pipe, exec, exit, reads, writes, ◌then_do◌,
}

-- `malloc(256 * sizeof(char))`.
abbrev pub file_name_size : ℕ
file_name_size = 256

-- `strcpy` into a buffer of that size. What lies behind the end of the copy is not read.
abbrev pub copy_name : ℕ → Line → Run Line
copy_name p line = do k ← strlen line p; access (ltb k file_name_size) (λ j. line (p + j))

abbrev pub trimmed : Line → Run File
trimmed buffer = do (p, buffer') ← file_name 0 buffer; done (record { buffer = buffer'; start = p })

abbrev pub input_name : ℕ → Line → Run File
input_name p line = do buffer ← copy_name p line; trimmed buffer

abbrev pub output_name : ℕ → Line → Run File
output_name p line = do
  buffer ← copy_name p line
  nl ← find_char buffer newline 0
  trimmed (cut nl buffer)

-- `free` of the pointer, which is the buffer only where no space stood before the name.
abbrev pub free_name {ℓ} : {A : Type ℓ} → File → A → Run A
free_name f a = access (f.start == 0) a

-- The calls for the pipes, with the arguments and the text they point into.
pub record Stage : Type 0 where
  pub calls : List Action
  pub args : List ℕ
  pub text : Line

abbrev pub first_calls : ℕ → Option File → List Action
first_calls i file = reads file then_do (close_pipe 0 ∷ dup_pipe (i * 2 + 1) std_out ∷ [])

abbrev pub middle_calls : ℕ → List Action
middle_calls i = dup_pipe ((i - 1) * 2) std_in ∷ dup_pipe (i * 2 + 1) std_out ∷ []

abbrev pub last_calls : ℕ → ℕ → Option File → List Action
last_calls n i file =
    writes file then_do (dup_pipe ((i - 1) * 2) std_in ∷ close_pipe (2 * (n - 1) - 1) ∷ [])

-- The first command, by the parts around `<`: none where there are too many, and the child goes on
-- with the loop of its parent.
abbrev pub first_stage : ℕ → ℕ → List ℕ → Line → Run (Option Stage)
first_stage i p [] line = fault
first_stage i p (w ∷ []) line = do
  (args, line') ← parse_input space p line
  done (some (record { calls = first_calls i none; args = args; text = line' }))
first_stage i p (w ∷ f ∷ []) line = do
  (args, line') ← parse_input space w line
  file ← input_name f line'
  free_name file (some (record { calls = first_calls i (some file); args = args; text = line' }))
first_stage i p (w ∷ f ∷ g ∷ ws) line = done none

abbrev pub middle_stage : ℕ → ℕ → Line → Run (Option Stage)
middle_stage i p line = do
  (args, line') ← parse_input space p line
  done (some (record { calls = middle_calls i; args = args; text = line' }))

-- The last command, by the parts around `>`, likewise.
abbrev pub last_stage : ℕ → ℕ → ℕ → List ℕ → Line → Run (Option Stage)
last_stage n i p [] line = fault
last_stage n i p (w ∷ []) line = do
  (args, line') ← parse_input space p line
  done (some (record { calls = last_calls n i none; args = args; text = line' }))
last_stage n i p (w ∷ f ∷ []) line = do
  (args, line') ← parse_input space w line
  file ← output_name f line'
  free_name file (some (record { calls = last_calls n i (some file); args = args; text = line' }))
last_stage n i p (w ∷ f ∷ g ∷ ws) line = done none

-- Command `i` of `n`, whose section is the string at `p`.
abbrev pub stage : ℕ → ℕ → ℕ → Line → Run (Option Stage)
stage n i p line =
    if i == 0
    then (do (ins, line') ← parse_input less_than p line; first_stage i p ins line')
    else if ltb i (n - 1)
    then middle_stage i p line
    else (do (outs, line') ← parse_input greater_than p line; last_stage n i p outs line')

-- `while (j < 2 * (num_cmd - 1)) close(pipefds[j])`, for `k` elements from `j` on.
unfoldable pub close_all : ℕ → ℕ → List Action
close_all zero j = []
close_all (suc k) j = close_pipe j ∷ close_all k (j + 1)

-- The calls of the child: a file and the pipes, all ends closed, and the command.
abbrev pub stage_calls : ℕ → Stage → List Action
stage_calls n t =
    t.calls then_do (close_all (2 * (n - 1)) 0 then_do (exec t.args t.text ∷ exit 11 ∷ []))

abbrev pub child_of : ℕ → Option Stage → Option (List Action)
child_of n none = none
child_of n (some t) = some (stage_calls n t)

unfoldable pub pipe_child : ℕ → ℕ → ℕ → Line → Run (Option (List Action))
pipe_child n i p line = do t ← stage n i p line; done (child_of n t)
