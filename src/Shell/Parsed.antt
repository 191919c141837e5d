-- ===== src/Shell/Parsed.antt =====
-- What `parse_input` of Project 1/myshell.c returns.
use ec440_projects.Prelude.{
  ℕ, suc, ◌+◌, ◌≤◌, ◌<◌, ◌≡◌, ◌≢◌, ◌⊎◌, inl, inr, refl, sym, ap, subst, ◌∙◌, true, false, ◌&&◌,
  Option, none, some, List, [], ◌∷◌, ltb, ◌==◌, update, if◌then◌else◌, length, Bool-cases, arith,
}
use ec440_projects.Run.{Run, done, on, ◌>>=◌}
use ec440_projects.Shell.Text.{Line, newline, space, find_char, cut}
use ec440_projects.Shell.Parse.{parse_input, second, reverse_onto, finish}
use ec440_projects.Shell.Search.{NoEnd, Free, Next, find_char-Next}
use ec440_projects.Shell.Cut.{Inside, nothing, pointer, Cutting, parse_loop-from}

reverse_onto-Inside :
    {lo hi : ℕ} (ys xs : List ℕ)
    → Inside lo hi ys
    → Inside lo hi xs
    → Inside lo hi (reverse_onto ys xs)
reverse_onto-Inside ys [] a nothing = a
reverse_onto-Inside ys (x ∷ xs) a (pointer l h b) =
    reverse_onto-Inside (x ∷ ys) xs (pointer l h a) b

length-reverse_onto : (ys xs : List ℕ) → length (reverse_onto ys xs) ≡ length ys + length xs
length-reverse_onto ys [] = omega arith
length-reverse_onto ys (x ∷ xs) = length-reverse_onto (x ∷ ys) xs ∙ omega arith

-- What `parse_input` returns for the string from `start` to `e`.
pub record Parsed (c start e : ℕ) (before : Line) (words : List ℕ) (line : Line) : Type 0 where
  -- Each pointer is into the string, and there is one at least.
  pub inside : Inside start e words
  pub filled : 0 < length words
  pub few : length words + start ≤ e + 1
  -- No delimiter is left, so none is in a word.
  pub clean : Free c line start e
  pub ended : line e ≡ 0
  -- Only delimiters and one newline of the string were changed, into terminators.
  pub kept :
      (r : ℕ)
      → (line r ≡ before r)
        ⊎ ((line r ≡ 0) × ((before r ≡ c) ⊎ (before r ≡ newline)) × (start ≤ r) × (r < e))

finish-Parsed :
    (c start e : ℕ) (before line : Line) (words : List ℕ)
    → c ≢ 0
    → e < 512
    → Cutting c start e before line e words
    → (words' : List ℕ) × (line' : Line) × (finish words line ≡ done (words', line'))
      × Parsed c start e before words' line'
finish-Parsed c start e before line [] ne lt k = absurd (omega (arith, k.filled))
finish-Parsed c start e before line (w ∷ ws) ne lt k = word k.inside
  where
    words' : List ℕ
    words' = reverse_onto [] (w ∷ ws)

    newline_kept :
        (q : ℕ) → line q ≡ newline → start ≤ q → q < e → ((before q ≡ c) ⊎ (before q ≡ newline))
    newline_kept q hit a b = elim (k.kept q) [ inl h ↦ inr (sym h ∙ hit) | inr h ↦ inl h.1 ]

    parsed :
        (o : Option ℕ)
        → start ≤ w
        → Next newline line w e o
        → Parsed c start e before words' (cut o line)
    parsed none lo next = record {
      inside = reverse_onto-Inside [] (w ∷ ws) nothing k.inside;
      filled = omega (arith, length-reverse_onto [] (w ∷ ws));
      few = omega (arith, length-reverse_onto [] (w ∷ ws), k.few);
      clean = k.clean;
      ended = k.ended;
      kept = λ r. elim (k.kept r) [ inl h ↦ inl h | inr h ↦ inr (h.0, inl h.1, h.2, h.3) ];
    }
    parsed (some q) lo (a, b, hit, free) = record {
      inside = reverse_onto-Inside [] (w ∷ ws) nothing k.inside;
      filled = omega (arith, length-reverse_onto [] (w ∷ ws));
      few = omega (arith, length-reverse_onto [] (w ∷ ws), k.few);
      clean = λ r x y. clean_at r x y (Bool-cases (q == r));
      ended = let other : (q == e) ≡ false = ground (arith, b) in rw other k.ended;
      kept = λ r. kept_at r (Bool-cases (q == r)) (k.kept r);
    }
      where
        clean_at :
            (r : ℕ)
            → start ≤ r
            → r < e
            → ((q == r) ≡ true) ⊎ ((q == r) ≡ false)
            → update line q 0 r ≢ c
        clean_at r x y (inl e') = rw e' (λ z. ne (sym z))
        clean_at r x y (inr e') = rw e' (k.clean r x y)

        kept_at :
            (r : ℕ)
            → ((q == r) ≡ true) ⊎ ((q == r) ≡ false)
            → (line r ≡ before r) ⊎ ((line r ≡ 0) × (before r ≡ c) × (start ≤ r) × (r < e))
            → (update line q 0 r ≡ before r)
              ⊎ ((update line q 0 r ≡ 0)
                  × ((before r ≡ c) ⊎ (before r ≡ newline))
                  × (start ≤ r)
                  × (r < e))
        kept_at r (inl e') h =
            let same : q ≡ r = ground arith in
            inr (
              rw e' refl,
              newline_kept r (ap line (sym same) ∙ hit) (omega arith) (omega arith),
              omega arith,
              omega arith,
            )
        kept_at r (inr e') (inl h) = inl (rw e' h)
        kept_at r (inr e') (inr h) = inr (rw e' h.0, inl h.1, h.2, h.3)

    word :
        Inside start e (w ∷ ws)
        → (words' : List ℕ) × (line' : Line) × (finish (w ∷ ws) line ≡ done (words', line'))
          × Parsed c start e before words' line'
    word (pointer lo hi rest) =
        let (o, find, next) = find_char-Next line newline w e hi lt k.ended in
        let room : ltb (length (w ∷ ws)) 512 ≡ true = ground (arith, k.room) in
        (words', cut o line, rw (find, room) refl, parsed o lo next)

-- The first word starts behind a space.
abbrev pub start_of : Line → ℕ → ℕ
start_of line p = if line p == space then suc p else p

-- The search for the first delimiter behind the start of the first word.
abbrev limit : ℕ → Line → ℕ → Run (Option ℕ)
limit c line p = do
  lim ← find_char line c p
  on (line p == space && c == space) (second line c lim) (done lim)

module _ (c : ℕ) (line : Line) (p e : ℕ) (ne : c ≢ 0) (lo : p ≤ e) (lt : e < 512) (z : line e ≡ 0)
    (rest : NoEnd line p e) where
  below : (line p == space) ≡ true → p < e
  below h = elim (Bool-cases (p == e)) [
    | inr n ↦ ground arith
    | inl same ↦ let s : p ≡ e = ground arith in ground (arith, ap line s)
  ]

  abbrev Found : ℕ → Type 0
  Found start = (start ≤ e) × ((o : Option ℕ) × (limit c line p ≡ done o) × Next c line start e o)

  -- A line that starts with a space, which is the delimiter.
  limit-space : (line p == space) ≡ true → (c == space) ≡ true → Found (suc p)
  limit-space h k =
      let (o, find, next) = find_char-Next line c p e lo lt z in
      let (o', find', next') = find_char-Next line c (suc p) e (below h) lt z in
      (below h, (o', rw (find, h, k) (at o next find'), next'))
    where
      here : line p ≡ c
      here = ground (arith, h, k)

      at :
          {o' : Option ℕ} (o : Option ℕ)
          → Next c line p e o
          → find_char line c (suc p) ≡ done o'
          → second line c o ≡ done o'
      at none next f = absurd (next rest p (omega arith) (below h) here)
      at (some q) (a, b, hit, free) f = elim (Bool-cases (p == q)) [
        | inl same ↦ let s : p ≡ q = ground arith in ap (λ x. find_char line c (suc x)) (sym s) ∙ f
        | inr n ↦ absurd (free p (omega arith) (ground arith) here)
      ]

  limit-other_space : (line p == space) ≡ true → (c == space) ≡ false → Found (suc p)
  limit-other_space h k =
      let (o, find, next) = find_char-Next line c p e lo lt z in
      (below h, (o, rw (find, h, k) refl, later o next))
    where
      later : (o : Option ℕ) → Next c line p e o → Next c line (suc p) e o
      later none next = λ r x a b. next rest x (omega arith) b
      later (some q) (a, b, hit, free) =
          (behind (Bool-cases (p == q)), b, hit, λ r x y. free r (omega arith) y)
        where
          behind : ((p == q) ≡ true) ⊎ ((p == q) ≡ false) → suc p ≤ q
          behind (inr n) = ground arith
          behind (inl same) =
              let s : p ≡ q = ground arith in absurd (ground (arith, ap line s, hit, h, k))

  limit-word : (line p == space) ≡ false → Found p
  limit-word h =
      let (o, find, next) = find_char-Next line c p e lo lt z in (lo, (o, rw (find, h) refl, next))

  limit-Found : Found (start_of line p)
  limit-Found = elim (Bool-cases (line p == space)) [
    | inr h ↦ let s : p ≡ start_of line p = rw h refl in subst Found s (limit-word h)
    | inl h ↦
        let s : suc p ≡ start_of line p = rw h refl in
        subst Found s (elim (Bool-cases (c == space)) [
          | inl k ↦ limit-space h k
          | inr k ↦ limit-other_space h k
        ])
  ]

  start-ge : p ≤ start_of line p
  start-ge = elim (Bool-cases (line p == space)) [
    | inl h ↦ rw h (omega arith)
    | inr h ↦ rw h (omega arith)
  ]

-- `parse_input` on a string that ends inside the buffer returns: it stays inside the line and
-- inside its array of pointers. The pointers lead into the string, no delimiter is left in it behind
-- a space at its start, and nothing but delimiters and a newline was overwritten.
pub parse_input-Parsed :
    (c : ℕ) (line : Line) (p e : ℕ)
    → c ≢ 0
    → p ≤ e
    → e < 512
    → line e ≡ 0
    → NoEnd line p e
    → (words : List ℕ) × (line' : Line) × (parse_input c p line ≡ done (words, line'))
      × Parsed c (start_of line p) e line words line'
unfolding parse_input
parse_input-Parsed c line p e ne lo lt z rest =
    let (s, (o, find, next)) = limit-Found c line p e ne lo lt z rest in
    let above = start-ge c line p e ne lo lt z rest in
    let (ws, line', run, k) =
      parse_loop-from c (start_of line p) e line ne lt o s z (λ r a b. rest r (omega arith) b)
        next in
    let (words, line'', end, parsed) = finish-Parsed c (start_of line p) e line line' ws ne lt k in
    let (first, seen, _) = find_char-Next line c p e lo lt z in
    let inside : ltb p 512 ≡ true = ground arith in
    (words, line'', rw seen (rw inside (rw (rw seen at find) (rw run end))), parsed)
