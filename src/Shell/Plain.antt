-- ===== src/Shell/Plain.antt =====
-- A child of a pipeline of Project 1/main.c whose section has no redirection.
use ec440_projects.Prelude.{
  ℕ, zero, suc, ◌+◌, ◌-◌, ◌≤◌, ◌<◌, ◌≡◌, ◌≢◌, inl, inr, refl, sym, ap, ◌∙◌, false, Option, none,
  some, List, [], ◌∷◌, ltb, ◌==◌, arith, Bool-cases,
}
use ec440_projects.Run.{done, done_injective}
use ec440_projects.Shell.Text.{Line, space, find_char}
use ec440_projects.Shell.Parse.{parse_input}
use ec440_projects.Shell.Line.{less_than, greater_than}
use ec440_projects.Shell.Search.{NoEnd, Free, Next, find_char-Next}
use ec440_projects.Shell.Parsed.{start_of, parse_input-Parsed}
use ec440_projects.Shell.Redirect.{parse_input-one}
use ec440_projects.Shell.Stage.{
  Stage, first_calls, middle_calls, last_calls, stage, pipe_child, stage_calls,
}

-- The string at `p` is not empty, ends at `e` inside the buffer and has no redirection.
pub record IsPlain (line : Line) (p e : ℕ) : Type 0 where
  pub below : p < e
  pub inside : e < 512
  pub ended : line e ≡ 0
  pub rest : NoEnd line p e
  pub no_input : Free less_than line p e
  pub no_output : Free greater_than line p e

-- The first terminator from `p` on.
first_end :
    (k p : ℕ) (line : Line)
    → line (p + k) ≡ 0
    → (e : ℕ) × (p ≤ e) × (e ≤ p + k) × (line e ≡ 0) × NoEnd line p e
first_end zero p line z =
    let same : p + 0 ≡ p = omega arith in
    (p, omega arith, omega arith, sym (ap line same) ∙ z, λ r a b. absurd (omega (arith, a, b)))
first_end (suc k) p line z = elim (Bool-cases (line p == 0)) [
  | inl h ↦ (p, omega arith, omega arith, ground arith, λ r a b. absurd (omega (arith, a, b)))
  | inr h ↦
      let same : p + suc k ≡ p + 1 + k = omega arith in
      let (e, lo, hi, end, rest) = first_end k (p + 1) line (sym (ap line same) ∙ z) in
      (
        e,
        omega (arith, lo),
        omega (arith, hi),
        end,
        λ r a b. elim (Bool-cases (p == r)) [
          | inl q ↦ let s : p ≡ r = ground arith in λ x. ground (arith, ap line s, x, h)
          | inr q ↦ rest r (ground arith) b
        ],
      )
]

-- The section is one part, and its end is kept.
parse_input-whole :
    (c p e : ℕ) (line : Line)
    → (c == space) ≡ false
    → c ≢ 0
    → p < e
    → e < 512
    → line e ≡ 0
    → NoEnd line p e
    → Free c line p e
    → (w : ℕ) × (line' : Line) × (parse_input c p line ≡ done (w ∷ [], line')) × (line' e ≡ 0)
parse_input-whole c p e line other ne lo lt z rest free =
    let (ws, line₁, run, parsed) = parse_input-Parsed c line p e ne (omega arith) lt z rest in
    let (line₂, one) = parse_input-one c p e line other start-le lo lt z none_left in
    (
      start_of line p,
      line₂,
      one,
      ap (λ r. r.1 e) (done_injective (start_of line p ∷ [], line₂) (ws, line₁) (sym one ∙ run))
          ∙ parsed.ended,
    )
  where
    start-le : start_of line p ≤ e
    start-le = elim (Bool-cases (line p == space)) [ inl h ↦ rw h lo | inr h ↦ rw h (omega arith) ]

    none_left : find_char line c p ≡ done none
    none_left = found (find_char-Next line c p e (omega arith) lt z)
      where
        found :
            (o : Option ℕ) × (find_char line c p ≡ done o) × Next c line p e o
            → find_char line c p ≡ done none
        found (none, run, next) = run
        found (some q, run, (a, b, hit, _)) = absurd (free q a b hit)

-- The arguments are found in any string of the buffer.
parse_input-args :
    (p e : ℕ) (line : Line)
    → p ≤ e
    → e < 512
    → line e ≡ 0
    → (args : List ℕ) × (line' : Line) × (parse_input space p line ≡ done (args, line'))
parse_input-args p e line lo lt z =
    let same : p + (e - p) ≡ e = omega arith in
    let (d, above, hi, end, rest) = first_end (e - p) p line (ap line same ∙ z) in
    let (args, line', run, _) =
      parse_input-Parsed space line p d (λ s. ground arith) above (omega (arith, hi)) end rest in
    (args, line', run)

-- A section without redirection: the child gets through its parses.
stage-plain :
    (n i p e : ℕ) (line : Line)
    → IsPlain line p e
    → (g : Stage) × (stage n i p line ≡ done (some g))
stage-plain n i p e line s = elim (Bool-cases (i == 0)) [
  | inl first ↦
      let (w, line', one, end) =
        parse_input-whole less_than p e line refl (λ x. ground arith) s.below s.inside s.ended
          s.rest s.no_input in
      let (args, text, run) = parse_input-args p e line' (omega (arith, s.below)) s.inside end in
      (
        record { calls = first_calls i none; args = args; text = text },
        rw first (rw one (rw run refl)),
      )
  | inr later ↦ elim (Bool-cases (ltb i (n - 1))) [
    | inl inner ↦
        let (args, text, run) =
          parse_input-args p e line (omega (arith, s.below)) s.inside s.ended in
        (
          record { calls = middle_calls i; args = args; text = text },
          rw later (rw inner (rw run refl)),
        )
    | inr final ↦
        let (w, line', one, end) =
          parse_input-whole greater_than p e line refl (λ x. ground arith) s.below s.inside s.ended
            s.rest s.no_output in
        let (args, text, run) = parse_input-args p e line' (omega (arith, s.below)) s.inside end in
        (
          record { calls = last_calls n i none; args = args; text = text },
          rw later (rw final (rw one (rw run refl))),
        )
  ]
]

pub pipe_child-plain :
    (n i p e : ℕ) (line : Line)
    → IsPlain line p e
    → (g : Stage) × (pipe_child n i p line ≡ done (some (stage_calls n g)))
unfolding pipe_child
pipe_child-plain n i p e line s = let (g, run) = stage-plain n i p e line s in (g, rw run refl)
