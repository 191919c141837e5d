-- ===== src/Tls/View.antt =====
-- What a thread sees of its storage in Project4/tls.c, and how a write of one byte changes it.
use ec440_projects.Prelude.{
  ℕ, zero, suc, ◌+◌, ◌≤◌, ◌<◌, ◌≡◌, ◌≢◌, inl, inr, refl, sym, ap, subst, true, false, Option, none,
  some, List, [], ◌∷◌, pos, ltb, ltb_ℤ, ◌==◌, arith, Bool-cases, update, get_elem?, set,
  if◌then◌else◌,
}
use ec440_projects.Tls.{State, Page, Tls}

abbrev pub pages_of : Option Tls → List ℕ
pages_of none = []
pages_of (some t) = t.pages

-- The byte at `i` of the page in slot `w` of a storage, as the memory has it.
abbrev pub byte_of : State → Option ℕ → ℕ → Option ℕ
byte_of s none i = none
byte_of s (some p) i = some (s.memory p i)

abbrev pub view : State → ℕ → ℕ → ℕ → Option ℕ
view s k w i = byte_of s (get_elem? (pages_of (s.tls k)) w) i

-- How often page `p` is in a list, and in the first `n` storages.
unfoldable pub count : ℕ → List ℕ → ℕ
count p [] = 0
count p (q ∷ qs) = (if p == q then 1 else 0) + count p qs

unfoldable pub owners : ℕ → (ℕ → Option Tls) → ℕ → ℕ
owners p tls zero = 0
owners p tls (suc n) = count p (pages_of (tls n)) + owners p tls n

-- Pages and storages are below the next pointer; a page lies at its own number, and its reference
-- count is the number of slots that point to it.
pub record IsCounted (s : State) : Type 0 where
  pub sized : 0 < s.page_size
  pub fresh_tls : (k : ℕ) → s.next ≤ k → s.tls k ≡ none
  pub fresh_page : (p : ℕ) → s.next ≤ p → s.page p ≡ none
  pub backed :
      (k w p : ℕ)
      → get_elem? (pages_of (s.tls k)) w ≡ some p
      → (page : Page) × (s.page p ≡ some page)
  pub distinct :
      (k v w p : ℕ)
      → get_elem? (pages_of (s.tls k)) v ≡ some p
      → get_elem? (pages_of (s.tls k)) w ≡ some p
      → v ≡ w
  pub counts :
      (p : ℕ) (page : Page)
      → s.page p ≡ some page
      → (page.address ≡ p) × (page.ref_count ≡ pos (owners p s.tls s.next))

pub count-set :
    (p : ℕ) (qs : List ℕ) (w q v : ℕ)
    → get_elem? qs w ≡ some q
    → count p (set qs w v) + (if p == q then 1 else 0) ≡ count p qs + (if p == v then 1 else 0)
unfolding count
count-set p [] w q v h = cc
count-set p (x ∷ qs) zero q v h = let e : x ≡ q = cc in rw e (omega arith)
count-set p (x ∷ qs) (suc w) q v h = omega (arith, count-set p qs w q v h)

pub owners-update_ge :
    (p : ℕ) (tls : ℕ → Option Tls) (k n : ℕ) (t : Option Tls)
    → n ≤ k
    → owners p (update tls k t) n ≡ owners p tls n
unfolding owners
owners-update_ge p tls k zero t le = refl
owners-update_ge p tls k (suc n) t le =
    let e : (k == n) ≡ false = ground arith in rw (e, owners-update_ge p tls k n t (omega arith))

pub owners-update :
    (p : ℕ) (tls : ℕ → Option Tls) (k n : ℕ) (t : Option Tls)
    → k < n
    → owners p (update tls k t) n + count p (pages_of (tls k))
      ≡ owners p tls n + count p (pages_of t)
unfolding owners
owners-update p tls k zero t lt = elim lt [ ]
owners-update p tls k (suc n) t lt = elim (Bool-cases (k == n)) [
  | inl e ↦
      let same : k ≡ n = ground arith in
      rw e (
        omega (
          arith,
          owners-update_ge p tls k n t (omega arith),
          ap (λ j. count p (pages_of (tls j))) same,
        ))
  | inr e ↦ rw e (omega (arith, owners-update p tls k n t (ground arith)))
]

count-get : (p : ℕ) (qs : List ℕ) (w : ℕ) → get_elem? qs w ≡ some p → 0 < count p qs
unfolding count
count-get p [] w h = cc
count-get p (x ∷ qs) zero h = let e : (p == x) ≡ true = ground arith in rw e (omega arith)
count-get p (x ∷ qs) (suc w) h = omega (arith, count-get p qs w h)

owners-get :
    (p : ℕ) (tls : ℕ → Option Tls) (k n : ℕ) → k < n → count p (pages_of (tls k)) ≤ owners p tls n
unfolding owners
owners-get p tls k zero lt = elim lt [ ]
owners-get p tls k (suc n) lt = elim (Bool-cases (k == n)) [
  | inl e ↦
      let same : k ≡ n = ground arith in omega (arith, ap (λ j. count p (pages_of (tls j))) same)
  | inr e ↦ omega (arith, owners-get p tls k n (ground arith))
]

owners-two :
    (p : ℕ) (tls : ℕ → Option Tls) (j k n : ℕ)
    → j < k
    → k < n
    → count p (pages_of (tls j)) + count p (pages_of (tls k)) ≤ owners p tls n
unfolding owners
owners-two p tls j k zero l lt = elim lt [ ]
owners-two p tls j k (suc n) l lt = elim (Bool-cases (k == n)) [
  | inl e ↦
      let same : k ≡ n = ground arith in
      omega (arith, ap (λ i. count p (pages_of (tls i))) same, owners-get p tls j n (omega arith))
  | inr e ↦ omega (arith, owners-two p tls j k n l (ground arith))
]

pub owners-none :
    (p : ℕ) (tls : ℕ → Option Tls) (n : ℕ)
    → ((k w : ℕ) → get_elem? (pages_of (tls k)) w ≢ some p)
    → owners p tls n ≡ 0
unfolding owners count
owners-none p tls zero f = refl
owners-none p tls (suc n) f =
    omega (arith, count_none (pages_of (tls n)) (f n), owners-none p tls n f)
  where
    count_none : (qs : List ℕ) → ((w : ℕ) → get_elem? qs w ≢ some p) → count p qs ≡ 0
    count_none [] g = refl
    count_none (q ∷ qs) g =
        let o : p ≢ q = λ e. g 0 (ap some (sym e)) in
        let b : (p == q) ≡ false = ground (arith, o) in rw (b, count_none qs (λ w. g (suc w)))

module _ (s : State) (c : IsCounted s) where
  pub tls_below : (k w p : ℕ) → get_elem? (pages_of (s.tls k)) w ≡ some p → k < s.next
  tls_below k w p h = elim (Bool-cases (ltb k s.next)) [
    | inl l ↦ ground arith
    | inr l ↦
        let e : s.tls k ≡ none = c.fresh_tls k (ground arith) in
        let no : get_elem? (pages_of none) w ≡ some p =
          subst (λ t. get_elem? (pages_of t) w ≡ some p) e h in
        cc
  ]

  pub page_below : (k w p : ℕ) → get_elem? (pages_of (s.tls k)) w ≡ some p → p < s.next
  page_below k w p h = elim (Bool-cases (ltb p s.next)) [
    | inl l ↦ ground arith
    | inr l ↦
        let e : s.page p ≡ none = c.fresh_page p (ground arith) in let b = c.backed k w p h in cc
  ]

  -- A page that is counted once stands in one slot of one storage.
  pub alone :
      (p j v k w : ℕ) (page : Page)
      → s.page p ≡ some page
      → ltb_ℤ (pos 1) page.ref_count ≡ false
      → get_elem? (pages_of (s.tls j)) v ≡ some p
      → get_elem? (pages_of (s.tls k)) w ≡ some p
      → j ≡ k
  alone p j v k w page e r a b =
      let few : owners p s.tls s.next ≤ 1 = ground (arith, (c.counts p page e).1) in
      let cj = count-get p (pages_of (s.tls j)) v a in
      let ck = count-get p (pages_of (s.tls k)) w b in
      elim (Bool-cases (ltb j k)) [
        | inl l ↦
            absurd (omega (arith, owners-two p s.tls j k s.next (ground arith) (tls_below k w p b)))
        | inr l ↦ elim (Bool-cases (ltb k j)) [
          | inl m ↦
              absurd
                (omega (arith, owners-two p s.tls k j s.next (ground arith) (tls_below j v p a)))
          | inr m ↦ ground arith
        ]
      ]
