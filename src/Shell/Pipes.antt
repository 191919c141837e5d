-- ===== src/Shell/Pipes.antt =====
-- The processes that `main` of Project 1/main.c starts: what a child does before and with `execvp`,
-- and the array of the pipes of a pipeline. A failed call prints a line and the child goes on.
use ec440_projects.Prelude.{
  ℕ, zero, suc, ◌+◌, ◌-◌, ◌*◌, Bool, true, false, Option, none, some, List, [], ◌∷◌, ltb,
}
use ec440_projects.Run.{Run, done, out_of_fuel, access, ◌>>=◌}
use ec440_projects.Shell.Text.{Line}
use ec440_projects.Shell.Line.{Command}

pub data Std : Type 0 where
  std_in : Std
  std_out : Std

-- The name of a file: a pointer into a buffer.
pub record File : Type 0 where
  pub buffer : Line
  pub start : ℕ

-- Calls of the system. An end of a pipe is an index into `pipefds`; the arguments are pointers into
-- the line.
pub data Action : Type 0 where
  open_read open_write : File → Action
  dup_opened : Std → Action
  close_opened : Action
  dup_pipe : ℕ → Std → Action
  close_pipe : ℕ → Action
  exec : List ℕ → Line → Action
  exit : ℕ → Action

-- One list of calls behind another.
infixr 5 ◌then_do◌
abbrev pub ◌then_do◌ : List Action → List Action → List Action
[] then_do bs = bs
(a ∷ as') then_do bs = a ∷ (as' then_do bs)

abbrev pub reads : Option File → List Action
reads none = []
reads (some f) = open_read f ∷ dup_opened std_in ∷ close_opened ∷ []

abbrev pub writes : Option File → List Action
writes none = []
writes (some f) = open_write f ∷ dup_opened std_out ∷ close_opened ∷ []

abbrev pub named : Line → Option ℕ → Option File
named line none = none
named line (some p) = some (record { buffer = line; start = p })

-- The child of a line without a pipe.
abbrev pub child : Command → List Action
child c =
    reads (named c.text c.file_in)
    then_do (writes (named c.text c.file_out) then_do (exec c.args c.text ∷ exit 11 ∷ []))

-- The loop that opens the pipes of `n` commands: `pipe(pipefds + i * 2)` writes two elements of the
-- array. `fails` says which attempts the system refuses; such an attempt is made once more.
unfoldable pub open_pipes : ℕ → (ℕ → Bool) → ℕ → ℕ → ℕ → Run ℕ
open_pipes zero fails n attempt i = out_of_fuel
open_pipes (suc fuel) fails n attempt i = elim (ltb i (2 * (n - 1))) [
  | false ↦ done i
  | true ↦ elim (fails attempt) [
    | true ↦ open_pipes fuel fails n (attempt + 1) i
    | false ↦ do
      j ← access (ltb (i * 2 + 1) (2 * (n - 1))) i
      open_pipes fuel fails n (attempt + 1) (j + 1)
  ]
]
