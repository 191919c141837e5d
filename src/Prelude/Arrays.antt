-- ===== src/Prelude/Arrays.antt =====
-- C arrays: a function from the index, with a bound that each access checks, and the loops that
-- look for an index.
use Prim.Native.Nat.{ℕ, zero, suc, ◌+◌, ◌-◌, ◌≤◌, ◌<◌}
use mathlib.Core.Path.{◌≡◌, fun_ext, ap, ◌∙◌}
use mathlib.Core.Logic.{◌≢◌, ◌⊎◌, inl, inr}
use mathlib.Core.Bool.{Bool, true, false, ◌&&◌}
use native.Mathlib.Omega.{arith}
use ec440_projects.Prelude.Tests.{◌==◌, leb, ltb, if◌then◌else◌, Bool-cases}

-- `a[i] = v`.
abbrev pub update {ℓ} : {A : Type ℓ} → (ℕ → A) → ℕ → A → ℕ → A
update a i v j = if i == j then v else a j

-- `while (i < i + n && !p(i)) i++`: the first index from `i` on that has `p`, or the end.
unfoldable pub first : (ℕ → Bool) → ℕ → ℕ → ℕ
first p zero i = i
first p (suc n) i = elim (p i) [ true ↦ i | false ↦ first p n (i + 1) ]

-- What such a loop finds: no index before the result has `p`, and the result has it unless it is
-- the end.
pub record First (p : ℕ → Bool) (start end r : ℕ) : Type 0 where
  pub from : start ≤ r
  pub to : r ≤ end
  pub before : (j : ℕ) → start ≤ j → j < r → p j ≡ false
  pub at : r ≢ end → p r ≡ true

First-here : (p : ℕ → Bool) (i end : ℕ) → i < end → p i ≡ true → First p i end i
First-here p i end h e = record {
  from = omega arith;
  to = omega arith;
  before = λ j a b. absurd (omega arith);
  at = λ _. e;
}

First-later : (p : ℕ → Bool) (i end r : ℕ) → p i ≡ false → First p (i + 1) end r → First p i end r
First-later p i end r e f = record {
  from = omega (arith, f.from);
  to = f.to;
  before = λ j a b. skip j a b (Bool-cases (i == j));
  at = f.at;
}
  where
    skip : (j : ℕ) → i ≤ j → j < r → ((i == j) ≡ true) ⊎ ((i == j) ≡ false) → p j ≡ false
    skip j a b (inl same) = let s : i ≡ j = ground arith in rw (← s) e
    skip j a b (inr other) = f.before j (ground arith) b

pub first-First : (p : ℕ → Bool) (n i end : ℕ) → i + n ≡ end → First p i end (first p n i)
unfolding first
first-First p zero i end e = record {
  from = omega arith;
  to = omega arith;
  before = λ j a b. absurd (omega arith);
  at = λ h. absurd (h (omega arith));
}
first-First p (suc n) i end e = elim (Bool-cases (p i)) [
  | inl hit ↦ rw (hit, first) (First-here p i end (omega arith) hit)
  | inr miss ↦
      rw (miss, first) (First-later p i end _ miss (first-First p n (i + 1) end (omega arith)))
]

-- The loop stops at the first index that has `p`, wherever the array ends.
pub First-unique :
    (p : ℕ → Bool) (start end r k : ℕ)
    → First p start end r
    → start ≤ k
    → k < end
    → p k ≡ true
    → ((j : ℕ) → start ≤ j → j < k → p j ≡ false)
    → r ≡ k
First-unique p start end r k f a b hit miss = decide (tri r k)
  where
    tri : (x y : ℕ) → (x < y) ⊎ ((y < x) ⊎ (x ≡ y))
    tri x y = ground arith

    decide : (r < k) ⊎ ((k < r) ⊎ (r ≡ k)) → r ≡ k
    decide (inl lo) = cc (f.at (omega arith), miss r f.from lo)
    decide (inr (inl hi)) = cc (hit, f.before k a hi)
    decide (inr (inr e)) = e

-- `i` is the first index below `n` that has `p`.
pub record IsFirst (p : ℕ → Bool) (n i : ℕ) : Type 0 where
  pub inside : i < n
  pub hit : p i ≡ true
  pub misses : (j : ℕ) → j < i → p j ≡ false

pub first_found : (p : ℕ → Bool) (n i : ℕ) → IsFirst p n i → first p n 0 ≡ i
first_found p n i f =
    First-unique p 0 n (first p n 0) i (first-First p n 0 n (omega arith)) (omega arith) f.inside
      f.hit (λ j _ h. f.misses j h)

-- A loop that ends inside the array has found the first index.
pub IsFirst-of_lt : (p : ℕ → Bool) (n : ℕ) → first p n 0 < n → IsFirst p n (first p n 0)
IsFirst-of_lt p n h = record {
  inside = h;
  hit = f.at (omega arith);
  misses = λ j l. f.before j (omega arith) l;
}
  where
    f : First p 0 n (first p n 0)
    f = first-First p n 0 n (omega arith)

pub first-le : (p : ℕ → Bool) (n : ℕ) → first p n 0 ≤ n
first-le p n = First.to (first-First p n 0 n (omega arith))

pub first_absent : (p : ℕ → Bool) (n : ℕ) → ((j : ℕ) → j < n → p j ≡ false) → first p n 0 ≡ n
first_absent p n none = elim (Bool-cases (first p n 0 == n)) [
  | inl e ↦ ground arith
  | inr e ↦
      let h : first p n 0 < n = ground (arith, first-le p n) in
      cc ((IsFirst-of_lt p n h).hit, none (first p n 0) h)
]

-- A write that leaves a part of the element as it was leaves that part of every element.
pub update-field {ℓ κ} :
    {A : Type ℓ} {B : Type κ} (g : A → B) (a : ℕ → A) (i : ℕ) (v : A) (j : ℕ)
    → g v ≡ g (a i)
    → g (update a i v j) ≡ g (a j)
update-field g a i v j e = elim (Bool-cases (i == j)) [
  | inl same ↦ let s : i ≡ j = ground arith in rw same (rw (← s) e)
  | inr other ↦ rw other
]

pub update-at {ℓ} : {A : Type ℓ} (a : ℕ → A) (i : ℕ) (v : A) → update a i v i ≡ v
update-at a i v = let e : (i == i) ≡ true = ground arith in rw e

pub update-update {ℓ} :
    {A : Type ℓ} (a : ℕ → A) (i : ℕ) (v w : A) → update (update a i v) i w ≡ update a i w
update-update a i v w = fun_ext (λ j. elim (Bool-cases (i == j)) [ inl e ↦ rw e | inr e ↦ rw e ])

pub update_self {ℓ} : {A : Type ℓ} (a : ℕ → A) (i : ℕ) (v : A) → v ≡ a i → update a i v ≡ a
update_self a i v h = fun_ext (λ j. elim (Bool-cases (i == j)) [
  | inl e ↦ let s : i ≡ j = ground arith in rw e (h ∙ ap a s)
  | inr e ↦ rw e
])

-- `memcpy(dst + at, src + from, n)`.
abbrev pub memcpy : (ℕ → ℕ) → ℕ → (ℕ → ℕ) → ℕ → ℕ → ℕ → ℕ
memcpy dst at src from n p = if leb at p && ltb p (at + n) then src (from + (p - at)) else dst p
