-- ===== src/Shell/Redirect.antt =====
-- The redirections of a line without a pipe, in Project 1/main.c.
use ec440_projects.Prelude.{
  ℕ, ◌≤◌, ◌<◌, ◌≡◌, inl, inr, refl, sym, ◌∙◌, Bool, true, false, ◌&&◌, Option, none, some, List, [],
  ◌∷◌, ltb, ◌==◌, Bool-cases, arith,
}
use ec440_projects.Run.{Run, done, Keeps, kept, Keeps-bind, Keeps-any, Keeps-then}
use ec440_projects.Shell.Text.{Line, newline, space, find_char, cut}
use ec440_projects.Shell.Parse.{parse_input, parse_loop}
use ec440_projects.Shell.Line.{
  Command, single, input_of, output_of, with_output, less_than, greater_than,
}
use ec440_projects.Shell.Search.{NoEnd, Free, Next, find_char-Next}
use ec440_projects.Shell.Parsed.{Parsed, start_of, parse_input-Parsed}

-- Without the delimiter the string is one word.
pub parse_input-one :
    (c p q : ℕ) (line : Line)
    → (c == space) ≡ false
    → start_of line p ≤ q
    → p < q
    → q < 512
    → line q ≡ 0
    → find_char line c p ≡ done none
    → (line' : Line) × (parse_input c p line ≡ done (start_of line p ∷ [], line'))
unfolding parse_input parse_loop
parse_input-one c p q line other lo l lt z f =
    let (o, find, _) = find_char-Next line newline (start_of line p) q lo lt z in
    let inside : ltb p 512 ≡ true = ground arith in
    let no_skip : (line p == space) && (c == space) ≡ false = and_false (line p == space) other in
    (cut o line, rw f (rw inside (rw no_skip (rw find refl))))
  where
    and_false : (a : Bool) {b : Bool} → b ≡ false → a && b ≡ false
    and_false true e = e
    and_false false e = refl

abbrev file_of : Option (List ℕ × Option ℕ × Line) → Option ℕ
file_of none = none
file_of (some (args, file, line)) = file

abbrev pub input_file : Option Command → Option ℕ
input_file none = none
input_file (some c) = c.file_in

with_output-input :
    (outs : List ℕ) (i : Option (List ℕ × Option ℕ × Line))
    → file_of i ≡ none
    → Keeps (λ o. input_file o ≡ none) (with_output outs i)
with_output-input outs none e = kept refl
with_output-input outs (some (args, file, line)) e =
    Keeps-any (output_of outs line) _ λ o. redirected o
  where
    redirected :
        (o : Option (Option ℕ × Line))
        → Keeps
            (λ o. input_file o ≡ none)
            (elim o as (λ x. Run (Option Command)) [
              | none ↦ done none
              | some r ↦
                  done (some (record { args = args; file_in = file; file_out = r.0; text = r.1 }))
            ])
    redirected none = kept refl
    redirected (some r) = kept e

-- In a section with `>` before any `<`, an input file that stands behind is lost: wherever the handling
-- of the line returns a command, it has no input file.
pub single-no_input :
    (p q e : ℕ) (line : Line)
    → p < q
    → q < e
    → e < 512
    → line e ≡ 0
    → NoEnd line p e
    → line q ≡ greater_than
    → Free less_than line p q
    → Keeps (λ o. input_file o ≡ none) (single p line)
unfolding single
single-no_input p q e line pq qe lt z rest hit free =
    let (outs, line₁, run₁, parsed) =
      parse_input-Parsed greater_than line p e (omega arith) (omega arith) lt z rest in
    let ends : line₁ q ≡ 0 = cut_at outs line₁ parsed in
    let (line₂, run₂) =
      parse_input-one less_than p q line₁ refl (start-le line₁) pq (omega arith) ends
        (none_left line₁ parsed ends) in
    Keeps-bind (parse_input greater_than p line) (outs, line₁) _ run₁
      (Keeps-bind (parse_input less_than p line₁) (start_of line₁ p ∷ [], line₂) _ run₂
        (Keeps-then (input_of p (start_of line₁ p ∷ []) line₂) _ (one_part (start_of line₁ p) line₂)
          (with_output-input outs)))
  where
    start-le : (l : Line) → start_of l p ≤ q
    start-le l = elim (Bool-cases (l p == space)) [ inl h ↦ rw h pq | inr h ↦ rw h (omega arith) ]

    one_part : (w : ℕ) (line₂ : Line) → Keeps (λ i. file_of i ≡ none) (input_of p (w ∷ []) line₂)
    one_part w line₂ = Keeps-any (parse_input space p line₂) _ λ r. kept refl

    cut_at :
        (outs : List ℕ) (l : Line) → Parsed greater_than (start_of line p) e line outs l → l q ≡ 0
    cut_at outs l parsed = elim (parsed.kept q) [
      | inr h ↦ h.0
      | inl h ↦ absurd (parsed.clean q (start-le line) qe (h ∙ hit))
    ]

    none_left :
        {outs : List ℕ} (l : Line)
        → Parsed greater_than (start_of line p) e line outs l
        → l q ≡ 0
        → find_char l less_than p ≡ done none
    none_left l parsed ends =
        found (find_char-Next l less_than p q (omega arith) (omega arith) ends)
      where
        found :
            (o : Option ℕ) × (find_char l less_than p ≡ done o) × Next less_than l p q o
            → find_char l less_than p ≡ done none
        found (none, run, next) = run
        found (some r, run, (a, b, at_r, _)) = elim (parsed.kept r) [
          | inl h ↦ absurd (free r a b (sym h ∙ at_r))
          | inr h ↦ absurd (ground (arith, h.0, at_r))
        ]
