-- ===== src/Shell/Cut.antt =====
-- `parse_input` of Project 1/myshell.c stays in its buffers and cuts at every delimiter.
use ec440_projects.Prelude.{
  ℕ, zero, suc, ◌+◌, ◌≤◌, ◌<◌, ◌≡◌, ◌≢◌, ◌⊎◌, inl, inr, refl, sym, ap, ◌∙◌, Bool, true, false,
  Option, none, some, List, [], ◌∷◌, ltb, ◌==◌, update, length, Bool-cases, arith,
}
use ec440_projects.Run.{done}
use ec440_projects.Shell.Text.{Line}
use ec440_projects.Shell.Parse.{add_word, parse_loop}
use ec440_projects.Shell.Search.{NoEnd, Free, Next, find_char-Next, is_blank-Ends}

-- Pointers into the string, as many as the array has place for.
pub data Inside (lo hi : ℕ) : List ℕ → Type 0 where
  nothing : Inside lo hi []
  pointer : {w : ℕ} {ws : List ℕ} → lo ≤ w → w ≤ hi → Inside lo hi ws → Inside lo hi (w ∷ ws)

-- A byte is as before, or a `c` or a newline of the string was replaced by a terminator.
abbrev pub Kept : ℕ → ℕ → ℕ → Line → Line → Type 0
Kept c start e before line =
    (r : ℕ) → (line r ≡ before r) ⊎ ((line r ≡ 0) × (before r ≡ c) × (start ≤ r) × (r < e))

-- The loop has cut the string up to `from`.
pub record Cutting (c start e : ℕ) (before line : Line) (from : ℕ) (words : List ℕ) : Type 0 where
  pub ended : line e ≡ 0
  pub rest : NoEnd line from e
  pub clean : Free c line start from
  pub inside : Inside start e words
  pub few : length words + start ≤ from + 1
  pub room : length words < 512
  pub filled : 0 < length words
  pub kept : Kept c start e before line

module _ (c start e : ℕ) (before : Line) (not_end : c ≢ 0) (e_lt : e < 512) where
  Next-update :
      (line : Line) (q : ℕ) (o : Option ℕ)
      → Next c line (suc q) e o
      → Next c (update line q 0) (suc q) e o
  Next-update line q none n = λ rest r a b.
      let ne : (q == r) ≡ false = ground arith in
      rw ne (
        n (λ r' a' b'. let ne' : (q == r') ≡ false = ground arith in λ z. rest r' a' b' (rw ne' z))
          r a b)
  Next-update line q (some p) n =
      let ne : (q == p) ≡ false = ground (arith, n.0) in
      (
        n.0,
        n.1,
        rw ne n.2,
        λ r a b. let ne' : (q == r) ≡ false = ground arith in rw ne' (n.3 r a b),
      )

  cut-Cutting :
      (line : Line) (from q : ℕ) (words words' : List ℕ)
      → start ≤ from
      → Cutting c start e before line from words
      → from ≤ q
      → q < e
      → line q ≡ c
      → Free c line from q
      → Inside start e words'
      → length words' + start ≤ suc q + 1
      → length words' < 512
      → 0 < length words'
      → Cutting c start e before (update line q 0) (suc q) words'
  cut-Cutting line from q words words' s k a b hit free ins few room filled = record {
    ended = let ne : (q == e) ≡ false = ground arith in rw ne k.ended;
    rest = λ r x y. let ne : (q == r) ≡ false = ground arith in rw ne (k.rest r (omega arith) y);
    clean = λ r x y. clean r x y (Bool-cases (q == r)) (Bool-cases (ltb r from));
    inside = ins;
    few = few;
    room = room;
    filled = filled;
    kept = λ r. kept r (Bool-cases (q == r)) (k.kept r);
  }
    where
      clean :
          (r : ℕ)
          → start ≤ r
          → r < suc q
          → ((q == r) ≡ true) ⊎ ((q == r) ≡ false)
          → (ltb r from ≡ true) ⊎ (ltb r from ≡ false)
          → update line q 0 r ≢ c
      clean r x y (inl e') l = rw e' (λ z. not_end (sym z))
      clean r x y (inr e') (inl l) = rw e' (k.clean r x (ground arith))
      clean r x y (inr e') (inr l) = rw e' (free r (ground arith) (ground arith))

      kept :
          (r : ℕ)
          → ((q == r) ≡ true) ⊎ ((q == r) ≡ false)
          → (line r ≡ before r) ⊎ ((line r ≡ 0) × (before r ≡ c) × (start ≤ r) × (r < e))
          → (update line q 0 r ≡ before r)
            ⊎ ((update line q 0 r ≡ 0) × (before r ≡ c) × (start ≤ r) × (r < e))
      kept r (inr e') h = rw e' h
      kept r (inl e') (inl h) =
          let same : q ≡ r = ground arith in
          inr (rw e' refl, sym h ∙ ap line (sym same) ∙ hit, omega arith, omega arith)
      kept r (inl e') (inr h) =
          let same : q ≡ r = ground arith in absurd (not_end (sym hit ∙ ap line same ∙ h.0))

  parse_loop-Cutting :
      (n : ℕ) (o : Option ℕ) (line : Line) (from : ℕ) (words : List ℕ)
      → e < from + n
      → start ≤ from
      → from ≤ e
      → Cutting c start e before line from words
      → Next c line from e o
      → (words' : List ℕ) × (line' : Line) × (parse_loop n c o words line ≡ done (words', line'))
        × Cutting c start e before line' e words'
  unfolding parse_loop
  parse_loop-Cutting zero o line from words fuel s b k next = absurd (omega arith)
  parse_loop-Cutting (suc n) none line from words fuel s b k next = (
    words,
    line,
    refl,
    record {
      ended = k.ended;
      rest = λ r x y. absurd (omega arith);
      clean = λ r x y. elim (Bool-cases (ltb r from)) [
        | inl l ↦ k.clean r x (ground arith)
        | inr l ↦ next k.rest r (ground arith) y
      ];
      inside = k.inside;
      few = omega (arith, k.few);
      room = k.room;
      filled = k.filled;
      kept = k.kept;
    },
  )
  parse_loop-Cutting (suc n) (some q) line from words fuel s b k (lo, hi, hit, free) =
      let (blank, test, goes) = is_blank-Ends line (suc q) e (omega arith) e_lt k.ended in
      let (o', find, next) = find_char-Next line c (suc q) e (omega arith) e_lt k.ended in
      let (words', add, ins, few, room, filled) = added blank goes in
      let (ws, line', run, done') =
        parse_loop-Cutting n o' (update line q 0) (suc q) words' (omega arith) (omega arith)
          (omega arith)
          (cut-Cutting line from q words words' s k lo hi hit free ins few room filled)
          (Next-update line q o' next) in
      (ws, line', rw (test, add, find) run, done')
    where
      added :
          (blank : Bool)
          → (blank ≡ false → suc q < e)
          → (words' : List ℕ) × (add_word (suc q) words blank ≡ done words')
            × Inside start e words'
            × (length words' + start ≤ suc q + 1)
            × (length words' < 512)
            × (0 < length words')
      added true goes = (words, refl, k.inside, omega (arith, k.few), k.room, k.filled)
      added false goes =
          let l = goes refl in
          let room : ltb (length words) 512 ≡ true = ground (arith, k.room) in
          (
            suc q ∷ words,
            rw room refl,
            pointer (omega arith) (omega arith) k.inside,
            omega (arith, k.few),
            omega (arith, k.few),
            omega arith,
          )

  pub parse_loop-from :
      (o : Option ℕ)
      → start ≤ e
      → before e ≡ 0
      → NoEnd before start e
      → Next c before start e o
      → (words' : List ℕ) × (line' : Line) × (parse_loop (suc 512) c o (start ∷ []) before
          ≡ done (words', line'))
        × Cutting c start e before line' e words'
  parse_loop-from o s z rest next =
      parse_loop-Cutting (suc 512) o before start (start ∷ []) (omega arith) (omega arith) s
        (record {
          ended = z;
          rest = rest;
          clean = λ r x y. absurd (omega arith);
          inside = pointer (omega arith) s nothing;
          few = omega arith;
          room = omega arith;
          filled = omega arith;
          kept = λ r. inl refl;
        })
        next
