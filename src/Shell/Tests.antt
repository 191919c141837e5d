-- ===== src/Shell/Tests.antt =====
-- The theorems about Project 1 at short lines and pipelines, and runs of its functions.
use ec440_projects.Prelude.{
  ℕ, ◌<◌, ◌≡◌, ◌≢◌, refl, true, false, none, some, List, [], ◌∷◌, update, arith,
}
use ec440_projects.Run.{Ends, Keeps, done, fault}
use ec440_projects.Shell.Text.{Line, space, scan, count}
use ec440_projects.Shell.Parse.{parse_input, killspaces, parse_loop, kill_loop}
use ec440_projects.Shell.Parsed.{Parsed, start_of, parse_input-Parsed}
use ec440_projects.Shell.Line.{single, skip_spaces}
use ec440_projects.Shell.Redirect.{input_file, single-no_input}
use ec440_projects.Shell.Ends.{killspaces-Ends}
use ec440_projects.Shell.Names.{killspaces-two_spaces}
use ec440_projects.Shell.Plain.{IsPlain}
use ec440_projects.Shell.Pipes.{Action, open_pipes}
use ec440_projects.Shell.Stage.{pipe_child, close_all}
use ec440_projects.Shell.Streams.{Gets}
use ec440_projects.Shell.Wired.{Executes, Writes, Reads, wire-connected}
use ec440_projects.Shell.Overflow.{open_pipes-overflow}

-- "a b\n"
abbrev two_words : Line
two_words = update (update (update (update (λ r. 0) 0 b'a') 1 space) 2 b'b') 3 10

parse_input-Parsed_example :
    (words : List ℕ) × (line' : Line) × (parse_input space 0 two_words ≡ done (words, line'))
    × Parsed space (start_of two_words 0) 4 two_words words line'
parse_input-Parsed_example =
    parse_input-Parsed space two_words 0 4 (omega arith) (omega arith) (omega arith) refl
      (λ r a b. ground arith)

-- "a>b<c\n"
abbrev both_files : Line
both_files =
    update (update (update (update (update (update (λ r. 0) 0 b'a') 1 b'>') 2 b'b') 3 b'<') 4 b'c')
      5 10

single-no_input_example : Keeps (λ o. input_file o ≡ none) (single 0 both_files)
single-no_input_example =
    single-no_input 0 1 6 both_files (omega arith) (omega arith) (omega arith) refl
      (λ r a b. ground arith) refl (λ r a b. ground arith)

-- "a  "
abbrev spaced : Line
spaced = update (update (update (λ r. 0) 0 b'a') 1 space) 2 space

killspaces-two_spaces_example :
    (line' : Line) × (killspaces 0 spaced ≡ done line')
    × (line' 2 ≡ 0)
    × (line' 1 ≡ space)
    × ((r : ℕ) → r ≢ 2 → line' r ≡ spaced r)
killspaces-two_spaces_example =
    killspaces-two_spaces 0 3 spaced (omega arith) (omega arith) refl (λ r a b. ground arith) refl
      refl (omega arith)

-- "a b\n" again, and "c\n".
abbrev one_word : Line
one_word = update (update (λ r. 0) 0 b'c') 1 10

two_words-IsPlain : IsPlain two_words 0 4
two_words-IsPlain = record {
  below = omega arith;
  inside = omega arith;
  ended = refl;
  rest = λ r a b. ground arith;
  no_input = λ r a b. ground arith;
  no_output = λ r a b. ground arith;
}

one_word-IsPlain : IsPlain one_word 0 2
one_word-IsPlain = record {
  below = omega arith;
  inside = omega arith;
  ended = refl;
  rest = λ r a b. ground arith;
  no_input = λ r a b. ground arith;
  no_output = λ r a b. ground arith;
}

wire-connected_example :
    Executes (λ f. true) (Writes 3 0) (pipe_child 3 0 0 two_words)
    × Executes (λ f. true) (Reads 3 0) (pipe_child 3 1 0 one_word)
    × ((r : ℕ) (text : Line)
        → Keeps (Gets (λ f. true) (Writes 3 0)) (pipe_child 3 0 r text)
          × Keeps (Gets (λ f. true) (Reads 3 0)) (pipe_child 3 1 r text))
    × (1 < 4)
wire-connected_example =
    wire-connected (λ f. true) 3 0 0 4 0 2 two_words one_word (omega arith) two_words-IsPlain
      one_word-IsPlain

-- "a<b\n": a command with an input file gets to its command.
abbrev from_file : Line
from_file = update (update (update (update (λ r. 0) 0 b'a') 1 b'<') 2 b'b') 3 10

from_file-returns : (calls : List Action) × (pipe_child 2 0 0 from_file ≡ done (some calls))
unfolding pipe_child parse_input scan parse_loop killspaces kill_loop count skip_spaces close_all
from_file-returns = (_, refl)

open_pipes-overflow_example : open_pipes 2 (λ a. false) 2 0 0 ≡ fault
open_pipes-overflow_example =
    open_pipes-overflow (λ a. false) 2 2 (λ a. refl) (omega arith) (omega arith)

-- "a b\n" has the words at 0 and 2.
two_words-words : (line' : Line) × (parse_input space 0 two_words ≡ done (0 ∷ 2 ∷ [], line'))
unfolding parse_input scan parse_loop
two_words-words = (_, refl)

killspaces-Ends_example : Ends (killspaces 0 spaced)
killspaces-Ends_example = killspaces-Ends 0 spaced
