-- ===== src/Shell/Parse.antt =====
-- `parse_input` and `killspaces` of Project 1/myshell.c, with a delimiter of one character.
use ec440_projects.Prelude.{
  ℕ, zero, suc, ◌+◌, ◌-◌, Bool, true, false, not, ◌||◌, ◌&&◌, Option, none, some, List, [], ◌∷◌,
  ltb, ◌==◌, update, if◌then◌else◌, length,
}
use ec440_projects.Run.{Run, done, fault, out_of_fuel, access, on, ◌>>=◌}
use ec440_projects.Shell.Text.{Line, line_size, newline, space, get, find_char, strlen, cut}

-- `strcmp(s, "\n") && strcmp(s, " ") && strlen(s) != 0`, turned round.
abbrev pub is_blank : Line → ℕ → Run Bool
is_blank line p = do
  c ← get line p
  on (c == 0) (done true)
      (on (c == newline || c == space) (do d ← get line (suc p); done (d == 0)) (done false))

-- The pointers found so far, the last one first.
abbrev pub add_word : ℕ → List ℕ → Bool → Run (List ℕ)
add_word p words true = done words
add_word p words false = access (ltb (length words) line_size) (p ∷ words)

-- The loop of `parse_input`, at the delimiter `lim`.
unfoldable pub parse_loop : ℕ → ℕ → Option ℕ → List ℕ → Line → Run (List ℕ × Line)
parse_loop zero delim lim words line = out_of_fuel
parse_loop (suc n) delim none words line = done (words, line)
parse_loop (suc n) delim (some p) words line = do
  blank ← is_blank line (suc p)
  words' ← add_word (suc p) words blank
  next ← find_char line delim (suc p)
  parse_loop n delim next words' (update line p 0)

-- The delimiter behind a space at the start of the line.
abbrev pub second : Line → ℕ → Option ℕ → Run (Option ℕ)
second line delim none = fault
second line delim (some p) = find_char line delim (suc p)

abbrev pub reverse_onto : List ℕ → List ℕ → List ℕ
reverse_onto ys [] = ys
reverse_onto ys (x ∷ xs) = reverse_onto (x ∷ ys) xs

-- The newline of the last word becomes its end. `words` has the last word first.
abbrev pub finish : List ℕ → Line → Run (List ℕ × Line)
finish [] line = fault
finish (w ∷ words) line = do
  nl ← find_char line newline w
  ws ← access (ltb (length (w ∷ words)) line_size) (reverse_onto [] (w ∷ words))
  done (ws, cut nl line)

-- The pointers to the words, whose number is `*numfound`, and the line with the words cut apart.
unfoldable pub parse_input : ℕ → ℕ → Line → Run (List ℕ × Line)
parse_input delim p line = do
  lim ← find_char line delim p
  first ← get line p
  lim' ← on (first == space && delim == space) (second line delim lim) (done lim)
  (words, line') ←
      parse_loop (suc line_size) delim lim' ((if first == space then suc p else p) ∷ []) line
  finish words line'

-- The loop of `killspaces`, from `i` on.
unfoldable pub kill_loop : ℕ → ℕ → ℕ → Line → Run Line
kill_loop zero p i line = out_of_fuel
kill_loop (suc n) p i line = do
  k ← strlen line p
  q ← access (not (ltb (p + k) i)) (p + k - i)
  c ← get line q
  on (c == space) (kill_loop n p (suc i) (update line q 0)) (done line)

unfoldable pub killspaces : ℕ → Line → Run Line
unfolding kill_loop
killspaces p line = kill_loop line_size p 1 line
