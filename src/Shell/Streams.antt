-- ===== src/Shell/Streams.antt =====
-- The streams of a child in a pipeline of Project 1/main.c, from the fork to its command.
use ec440_projects.Prelude.{
  ℕ, zero, suc, ◌+◌, ◌-◌, ◌*◌, ◌≤◌, ◌<◌, ◌≡◌, ◌⊎◌, inl, inr, refl, ◌∙◌, Bool, true, false, Option,
  none, some, List, [], ◌∷◌, ◌==◌, arith, Bool-cases, update,
}
use ec440_projects.Shell.Pipes.{
  File, Std, std_in, std_out, Action, open_read, open_write, dup_opened, close_opened, dup_pipe,
  close_pipe, exec, exit, ◌then_do◌,
}
use ec440_projects.Shell.Stage.{Stage, first_calls, middle_calls, last_calls, close_all, child_of}

-- What a stream of the child stands for: what the shell has, a file, or an end of a pipe.
pub data Target : Type 0 where
  inherited : Target
  opened_file : File → Target
  pipe_end : ℕ → Target

-- The descriptors of the child: its two streams, the file it has open besides, and the ends of pipes
-- that it has closed.
pub record Streams : Type 0 where
  pub input : Target
  pub output : Target
  pub opened : Option File
  pub closed : ℕ → Bool

-- The streams behind the fork: `pipefds` has the ends of `n - 1` pipes, as the first rounds of
-- `open_pipes` fill it.
abbrev pub forked : Streams
forked = record { input = inherited; output = inherited; opened = none; closed = λ j. false }

abbrev set : Std → Target → Streams → Streams
set std_in t s = record s { input = t }
set std_out t s = record s { output = t }

abbrev open_file : Bool → File → Streams → Streams
open_file true f s = record s { opened = some f }
open_file false f s = s

-- `dup2` of the open file, which fails where there is none.
abbrev dup_file : Option File → Std → Streams → Streams
dup_file none t s = s
dup_file (some f) t s = set t (opened_file f) s

-- `dup2` of an end of a pipe, which fails where the child has closed it.
abbrev dup_end : Bool → ℕ → Std → Streams → Streams
dup_end true j t s = s
dup_end false j t s = set t (pipe_end j) s

-- The descriptors with which a command is executed, where `opens` says which files can be opened.
unfoldable pub at_exec : (File → Bool) → List Action → Streams → Option Streams
at_exec opens [] s = none
at_exec opens (open_read f ∷ as') s = at_exec opens as' (open_file (opens f) f s)
at_exec opens (open_write f ∷ as') s = at_exec opens as' (open_file (opens f) f s)
at_exec opens (dup_opened t ∷ as') s = at_exec opens as' (dup_file s.opened t s)
at_exec opens (close_opened ∷ as') s = at_exec opens as' (record s { opened = none })
at_exec opens (dup_pipe j t ∷ as') s = at_exec opens as' (dup_end (s.closed j) j t s)
at_exec opens (close_pipe j ∷ as') s =
    at_exec opens as' (record s { closed = update s.closed j true })
at_exec opens (exec args text ∷ as') s = some s
at_exec opens (exit c ∷ as') s = none

-- What a child of a pipeline does: it goes on with the loop of its parent, or it gets to its command
-- with `P` of its descriptors.
pub data Gets (opens : File → Bool) (P : Streams → Type 0) : Option (List Action) → Type 0 where
  retries : Gets opens P none
  executes :
      {calls : List Action} {s : Streams}
      → at_exec opens calls forked ≡ some s
      → P s
      → Gets opens P (some calls)

-- A list of calls before others leads to `t`.
abbrev pub Leads : (File → Bool) → List Action → Streams → Streams → Type 0
Leads opens as' s t = (bs : List Action) → at_exec opens (as' then_do bs) s ≡ at_exec opens bs t

module _ (opens : File → Bool) where
  pub first_calls-Leads :
      (file : Option File)
      → (t : Streams) × Leads opens (first_calls 0 file) forked t × (t.output ≡ pipe_end 1)
  unfolding at_exec
  first_calls-Leads none = (_, λ bs. refl, refl)
  first_calls-Leads (some f) = elim (Bool-cases (opens f)) [
    | inl e ↦ (
      record {
        input = opened_file f;
        output = pipe_end 1;
        opened = none;
        closed = update (λ j. false) 0 true;
      },
      λ bs. rw e refl,
      refl,
    )
    | inr e ↦ (
      record {
        input = inherited;
        output = pipe_end 1;
        opened = none;
        closed = update (λ j. false) 0 true;
      },
      λ bs. rw e refl,
      refl,
    )
  ]

  pub middle_calls-Leads :
      (i : ℕ)
      → (t : Streams) × Leads opens (middle_calls i) forked t
        × (t.input ≡ pipe_end ((i - 1) * 2))
        × (t.output ≡ pipe_end (i * 2 + 1))
  unfolding at_exec
  middle_calls-Leads i = (_, λ bs. refl, refl, refl)

  pub last_calls-Leads :
      (n i : ℕ) (file : Option File)
      → (t : Streams) × Leads opens (last_calls n i file) forked t
        × (t.input ≡ pipe_end ((i - 1) * 2))
  unfolding at_exec
  last_calls-Leads n i none = (_, λ bs. refl, refl)
  last_calls-Leads n i (some f) = elim (Bool-cases (opens f)) [
    | inl e ↦ (
      record {
        input = pipe_end ((i - 1) * 2);
        output = opened_file f;
        opened = none;
        closed = update (λ j. false) (2 * (n - 1) - 1) true;
      },
      λ bs. rw e refl,
      refl,
    )
    | inr e ↦ (
      record {
        input = pipe_end ((i - 1) * 2);
        output = inherited;
        opened = none;
        closed = update (λ j. false) (2 * (n - 1) - 1) true;
      },
      λ bs. rw e refl,
      refl,
    )
  ]

  close_all-Leads :
      (k j : ℕ) (s : Streams)
      → (t : Streams) × Leads opens (close_all k j) s t
        × (t.input ≡ s.input)
        × (t.output ≡ s.output)
        × ((x : ℕ) → (s.closed x ≡ true) ⊎ ((j ≤ x) × (x < j + k)) → t.closed x ≡ true)
  unfolding at_exec close_all
  close_all-Leads zero j s = (
    s,
    λ bs. refl,
    refl,
    refl,
    λ x h. elim h [ inl e ↦ e | inr b ↦ absurd (omega (arith, b.0, b.1)) ],
  )
  close_all-Leads (suc k) j s =
      let (t, leads, ins, outs, all) =
        close_all-Leads k (j + 1) (record s { closed = update s.closed j true }) in
      (t, leads, ins, outs, λ x h. all x (at x h (Bool-cases (j == x))))
    where
      at :
          (x : ℕ)
          → (s.closed x ≡ true) ⊎ ((j ≤ x) × (x < j + suc k))
          → ((j == x) ≡ true) ⊎ ((j == x) ≡ false)
          → (update s.closed j true x ≡ true) ⊎ ((j + 1 ≤ x) × (x < j + 1 + k))
      at x h (inl e) = inl (rw e refl)
      at x (inl h) (inr e) = inl (rw (e, h) refl)
      at x (inr h) (inr e) =
          let ne : (j ≡ x) → ⊥ = ground arith in
          inr (omega (arith, h.0, h.1, ne), omega (arith, h.1))

  -- A stage whose calls lead to `t` gets to its command with the streams of `t` and all ends closed.
  pub child_of-Gets :
      (P : Streams → Type 0) (n : ℕ) (g : Stage) (t : Streams)
      → Leads opens g.calls forked t
      → ((s : Streams)
          → s.input ≡ t.input
          → s.output ≡ t.output
          → ((j : ℕ) → j < 2 * (n - 1) → s.closed j ≡ true)
          → P s)
      → Gets opens P (child_of n (some g))
  unfolding at_exec
  child_of-Gets P n g t leads p =
      let (s, closes, ins, outs, all) = close_all-Leads (2 * (n - 1)) 0 t in
      executes {s = s} (leads _ ∙ closes _)
        (p s ins outs λ j h. all j (inr (omega arith, omega (arith, h))))
