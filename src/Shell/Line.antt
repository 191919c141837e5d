-- ===== src/Shell/Line.antt =====
-- What `main` of Project 1/main.c does with a line, up to the forks: the file names and arguments
-- are pointers into the line.
use ec440_projects.Prelude.{
  ℕ, zero, suc, ◌+◌, ◌-◌, Bool, true, false, ◌||◌, ◌&&◌, Option, none, some, List, [], ◌∷◌, ltb,
  leb, ◌==◌, if◌then◌else◌,
}
use ec440_projects.Run.{Run, done, fault, on, ◌>>=◌}
use ec440_projects.Shell.Text.{Line, line_size, newline, space, find_char, cut}
use ec440_projects.Shell.Parse.{parse_input, killspaces}

abbrev pub pipe_sign : ℕ
pipe_sign = b'|'

abbrev pub less_than : ℕ
less_than = b'<'

abbrev pub greater_than : ℕ
greater_than = b'>'

abbrev pub ampersand : ℕ
ampersand = b'&'

-- `isspace`.
abbrev pub is_space : ℕ → Bool
is_space c = c == space || (leb 9 c && ltb c 14)

-- The test for an empty line, which looks for the newline from `i` on.
unfoldable pub only_spaces : ℕ → Line → ℕ → Run Bool
only_spaces zero line i = fault
only_spaces (suc n) line i =
    let rest = only_spaces n line (i + 1) in
    if line i == newline then done true else if is_space (line i) then rest else done false

-- `while (*file == ' ') file = file + 1;`
unfoldable pub skip_spaces : ℕ → Line → ℕ → Run ℕ
skip_spaces zero line p = fault
skip_spaces (suc n) line p =
    let rest = skip_spaces n line (p + 1) in if line p == space then rest else done p

abbrev pub file_name : ℕ → Line → Run (ℕ × Line)
file_name p line = do
  f ← skip_spaces (line_size - p) line p
  line' ← killspaces f line
  done (f, line')

-- The arguments and the file of the input, by the parts around `<`: none where there are too many.
abbrev pub input_of : ℕ → List ℕ → Line → Run (Option (List ℕ × Option ℕ × Line))
input_of p [] line = fault
input_of p (w ∷ []) line = do
  (args, line') ← parse_input space p line
  done (some (args, none, line'))
input_of p (w ∷ f ∷ []) line = do
  (args, line') ← parse_input space w line
  (name, line'') ← file_name f line'
  done (some (args, some name, line''))
input_of p (w ∷ f ∷ g ∷ ws) line = done none

-- The file of the output, by the parts around `>`.
abbrev pub output_of : List ℕ → Line → Run (Option (Option ℕ × Line))
output_of [] line = fault
output_of (w ∷ []) line = done (some (none, line))
output_of (w ∷ f ∷ []) line = do
  nl ← find_char line newline f
  (name, line') ← file_name f (cut nl line)
  done (some (some name, line'))
output_of (w ∷ f ∷ g ∷ ws) line = done none

pub record Command : Type 0 where
  pub args : List ℕ
  pub file_in : Option ℕ
  pub file_out : Option ℕ
  pub text : Line

abbrev pub with_output : List ℕ → Option (List ℕ × Option ℕ × Line) → Run (Option Command)
with_output outs none = done none
with_output outs (some (args, file_in, line)) = do
  o ← output_of outs line
  elim o [
    | none ↦ done none
    | some r ↦ done (some (record { args = args; file_in = file_in; file_out = r.0; text = r.1 }))
  ]

-- A line without a pipe: none where an error is printed.
unfoldable pub single : ℕ → Line → Run (Option Command)
single p line = do
  (outs, line₁) ← parse_input greater_than p line
  (ins, line₂) ← parse_input less_than p line₁
  i ← input_of p ins line₂
  with_output outs i

pub data Reaction : Type 0 where
  again : Reaction
  refused : Reaction
  runs : Command → Reaction
  pipeline : List ℕ → Line → Reaction

abbrev pub reaction_of : Option Command → Reaction
reaction_of none = refused
reaction_of (some c) = runs c

-- What is done with the parts around `|`.
abbrev pub dispatch : List ℕ → Line → Run Reaction
dispatch [] line = done again
dispatch (p ∷ []) line = do c ← single p line; done (reaction_of c)
dispatch (p ∷ q ∷ ps) line = done (pipeline (p ∷ q ∷ ps) line)

abbrev pub is_some : Option ℕ → Bool
is_some none = false
is_some (some p) = true

-- One round of the loop of `main`: whether a background process handles the line, and how. At the
-- end of the input `fgets` returns a null pointer, which is read.
unfoldable pub handle : Option Line → Run (Bool × Reaction)
handle none = fault
handle (some line) = do
  empty ← only_spaces line_size line 0
  on empty (done (false, again)) (do
    amp ← find_char line ampersand 0
    (sections, line') ← parse_input pipe_sign 0 (cut amp line)
    r ← dispatch sections line'
    done (is_some amp, r))
