-- ===== src/Shell/Wired.antt =====
-- The streams of a child in a pipeline of Project 1/main.c where it gets to its command.
use ec440_projects.Prelude.{
  ℕ, zero, suc, ◌+◌, ◌-◌, ◌*◌, ◌<◌, ◌≡◌, ◌⊎◌, inl, inr, ap, ◌∙◌, Bool, true, false, Option, none,
  some, List, [], ◌∷◌, ltb, ◌==◌, arith, Bool-cases,
}
use ec440_projects.Run.{Run, done, Keeps-done, access, Keeps, kept, faulted, Keeps-any, Keeps-then}
use ec440_projects.Shell.Text.{Line, space}
use ec440_projects.Shell.Parse.{parse_input}
use ec440_projects.Shell.Streams.{
  Streams, Gets, executes, at_exec, forked, retries, pipe_end, first_calls-Leads,
  middle_calls-Leads, last_calls-Leads, child_of-Gets,
}
use ec440_projects.Shell.Plain.{IsPlain, pipe_child-plain}
use ec440_projects.Shell.Pipes.{File, Action}
use ec440_projects.Shell.Stage.{
  input_name, output_name, Stage, first_calls, middle_calls, last_calls, first_stage, last_stage,
  child_of, pipe_child,
}

-- A command that writes to the second end of pipe `i`, or reads from its first, and holds no end of a
-- pipe of its `n` commands open otherwise.
pub record Writes (n i : ℕ) (s : Streams) : Type 0 where
  pub stream : s.output ≡ pipe_end (2 * i + 1)
  pub closed : (j : ℕ) → j < 2 * (n - 1) → s.closed j ≡ true

pub record Reads (n i : ℕ) (s : Streams) : Type 0 where
  pub stream : s.input ≡ pipe_end (2 * i)
  pub closed : (j : ℕ) → j < 2 * (n - 1) → s.closed j ≡ true

Keeps-access_self {ℓ κ} :
    {A : Type ℓ} {P : A → Type κ} (b : Bool) (a : A) → P a → Keeps P (access b a)
Keeps-access_self true a p = kept p
Keeps-access_self false a p = faulted

module _ (Q : Option Stage → Type 0) (stops : Q none) where
  first_stage-Keeps :
      (i p : ℕ) (ins : List ℕ) (line : Line)
      → ((file : Option File) (args : List ℕ) (text : Line)
          → Q (some (record { calls = first_calls i file; args = args; text = text })))
      → Keeps Q (first_stage i p ins line)
  first_stage-Keeps i p [] line q = faulted
  first_stage-Keeps i p (w ∷ []) line q = Keeps-any _ _ λ (r : List ℕ × Line). kept (q none r.0 r.1)
  first_stage-Keeps i p (w ∷ f ∷ []) line q = Keeps-any (parse_input space w line) _ λ r.
      Keeps-any (input_name f r.1) _
        λ file. Keeps-access_self (file.start == 0) _ (q (some file) r.0 r.1)
  first_stage-Keeps i p (w ∷ f ∷ g ∷ ws) line q = kept stops

  last_stage-Keeps :
      (n i p : ℕ) (outs : List ℕ) (line : Line)
      → ((file : Option File) (args : List ℕ) (text : Line)
          → Q (some (record { calls = last_calls n i file; args = args; text = text })))
      → Keeps Q (last_stage n i p outs line)
  last_stage-Keeps n i p [] line q = faulted
  last_stage-Keeps n i p (w ∷ []) line q =
      Keeps-any _ _ λ (r : List ℕ × Line). kept (q none r.0 r.1)
  last_stage-Keeps n i p (w ∷ f ∷ []) line q = Keeps-any (parse_input space w line) _ λ r.
      Keeps-any (output_name f r.1) _
        λ file. Keeps-access_self (file.start == 0) _ (q (some file) r.0 r.1)
  last_stage-Keeps n i p (w ∷ f ∷ g ∷ ws) line q = kept stops

module _ (opens : File → Bool) where
  Writes-child :
      (n i p : ℕ) (line : Line)
      → suc i < n
      → Keeps (Gets opens (Writes n i)) (pipe_child n i p line)
  unfolding pipe_child
  Writes-child n zero p line h =
      Keeps-then {Q = λ o. Gets opens (Writes n 0) (child_of n o)} _ _
        (Keeps-any _ _ λ (r : List ℕ × Line).
          first_stage-Keeps _ retries 0 p r.0 r.1 λ file args text.
            let (t, leads, out) = first_calls-Leads opens file in
            child_of-Gets opens _ n _ t leads
              λ s ins outs all. record { stream = outs ∙ out; closed = all })
        λ o q. kept q
  Writes-child n (suc i) p line h =
      let inner : ltb (suc i) (n - 1) ≡ true = ground arith in
      let e : (suc i == 0) ≡ false = ground arith in
      let twice : suc i * 2 + 1 ≡ 2 * suc i + 1 = omega arith in
      let (t, leads, inp, out) = middle_calls-Leads opens (suc i) in
      rw e (
        rw inner (
          Keeps-then {Q = λ o. Gets opens (Writes n (suc i)) (child_of n o)} _ _
            (Keeps-any _ _ λ (r : List ℕ × Line). kept (
              child_of-Gets opens _ n
                (record { calls = middle_calls (suc i); args = r.0; text = r.1 }) t leads
                λ s ins outs all. record { stream = outs ∙ out ∙ ap pipe_end twice; closed = all }))
            λ o q. kept q))

  Reads-child :
      (n i p : ℕ) (line : Line)
      → suc i < n
      → Keeps (Gets opens (Reads n i)) (pipe_child n (suc i) p line)
  unfolding pipe_child
  Reads-child n i p line h = by_place (Bool-cases (ltb (suc i) (n - 1)))
    where
      e : (suc i == 0) ≡ false
      e = ground arith

      twice : (suc i - 1) * 2 ≡ 2 * i
      twice = omega arith

      by_place :
          (ltb (suc i) (n - 1) ≡ true) ⊎ (ltb (suc i) (n - 1) ≡ false)
          → Keeps (Gets opens (Reads n i)) (pipe_child n (suc i) p line)
      by_place (inl inner) =
          let (t, leads, inp, out) = middle_calls-Leads opens (suc i) in
          rw e (
            rw inner (
              Keeps-then {Q = λ o. Gets opens (Reads n i) (child_of n o)} _ _
                (Keeps-any _ _ λ (r : List ℕ × Line). kept (
                  child_of-Gets opens _ n
                    (record { calls = middle_calls (suc i); args = r.0; text = r.1 }) t leads
                    λ s ins outs all. record {
                      stream = ins ∙ inp ∙ ap pipe_end twice;
                      closed = all;
                    }))
                λ o q. kept q))
      by_place (inr final) = rw e (
          rw final (
            Keeps-then {Q = λ o. Gets opens (Reads n i) (child_of n o)} _ _
              (Keeps-any _ _ λ (r : List ℕ × Line).
                last_stage-Keeps _ retries n (suc i) p r.0 r.1 λ file args text.
                  let (t, leads, inp) = last_calls-Leads opens n (suc i) file in
                  child_of-Gets opens _ n
                    (record { calls = last_calls n (suc i) file; args = args; text = text }) t leads
                    λ s ins outs all. record {
                      stream = ins ∙ inp ∙ ap pipe_end twice;
                      closed = all;
                    })
              λ o q. kept q))

-- A child that gets to its command, with `P` of its streams then.
abbrev pub Executes : (File → Bool) → (Streams → Type 0) → Run (Option (List Action)) → Type 0
Executes opens P m =
    (calls : List Action) × (s : Streams) × (m ≡ done (some calls))
    × (at_exec opens calls forked ≡ some s)
    × P s

Executes-plain :
    (opens : File → Bool) {P : Streams → Type 0} (n i p e : ℕ) (line : Line)
    → IsPlain line p e
    → Keeps (Gets opens P) (pipe_child n i p line)
    → Executes opens P (pipe_child n i p line)
Executes-plain opens {P} n i p e line plain keeps =
    let (g, run) = pipe_child-plain n i p e line plain in got _ run (Keeps-done keeps run)
  where
    got :
        (calls : List Action)
        → pipe_child n i p line ≡ done (some calls)
        → Gets opens P (some calls)
        → Executes opens P (pipe_child n i p line)
    got calls run (executes {s} e q) = (calls, s, run, e, q)

-- Command `i` of a pipeline of `n` commands, where it is not the last, and the next command: where
-- their sections have no redirection, are not empty and end inside their buffers, both children get
-- to `execvp`. The output of the first is the second end of pipe `i` then, the input of the other is
-- the first end of the same pipe, and both have closed every end in the array. With any sections, those
-- with a redirection included, and whichever files can be opened, a child that neither faults nor goes
-- back to the loop of its parent gets to `execvp` with the same streams. Both ends are elements of the
-- array.
pub wire-connected :
    (opens : File → Bool) (n i p e q d : ℕ) (line line' : Line)
    → suc i < n
    → IsPlain line p e
    → IsPlain line' q d
    → Executes opens (Writes n i) (pipe_child n i p line)
      × Executes opens (Reads n i) (pipe_child n (suc i) q line')
      × ((r : ℕ) (text : Line)
          → Keeps (Gets opens (Writes n i)) (pipe_child n i r text)
            × Keeps (Gets opens (Reads n i)) (pipe_child n (suc i) r text))
      × (2 * i + 1 < 2 * (n - 1))
wire-connected opens n i p e q d line line' h s t = (
  Executes-plain opens n i p e line s (Writes-child opens n i p line h),
  Executes-plain opens n (suc i) q d line' t (Reads-child opens n i q line' h),
  λ r text. (Writes-child opens n i r text h, Reads-child opens n i r text h),
  omega arith,
)
