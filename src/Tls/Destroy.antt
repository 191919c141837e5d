-- ===== src/Tls/Destroy.antt =====
-- `tls_destroy` of Project4/tls.c for the first thread of a bucket.
use ec440_projects.Prelude.{
  ℕ, suc, ◌%◌, ◌≡◌, ◌≢◌, refl, sym, ap, subst, ◌∙◌, true, false, none, some, List, [], ◌∷◌, pos,
  pred_ℤ, ltb_ℤ, eqb_ℤ, ◌==◌, arith, update, Bool-cases, inl, inr, get_elem?, if◌then◌else◌,
}
use ec440_projects.Run.{done, fault}
use ec440_projects.Tls.{State, Page, Tls, HashElement, hash_search, search_bucket}
use ec440_projects.Tls.Ops.{release_pages, tls_destroy}
use ec440_projects.Tls.View.{pages_of, IsCounted}

-- The state after one round of the loop.
abbrev released : ℕ → Page → State → State
released p page s =
    if eqb_ℤ page.ref_count (pos 1)
    then record s { page = update s.page p none; readable = update s.readable page.address false }
    else if ltb_ℤ (pos 1) page.ref_count
    then record s {
      page = update s.page p (some (record page { ref_count = pred_ℤ page.ref_count }));
    }
    else s

released-other :
    (p : ℕ) (page : Page) (s : State) (q : ℕ) → q ≢ p → (released p page s).page q ≡ s.page q
released-other p page s q n =
    let e : (p == q) ≡ false = ground arith in
    elim (Bool-cases (eqb_ℤ page.ref_count (pos 1))) [
      | inl a ↦ rw (a, e)
      | inr a ↦ elim (Bool-cases (ltb_ℤ (pos 1) page.ref_count)) [
        | inl b ↦ rw (a, b, e)
        | inr b ↦ rw (a, b)
      ]
    ]

released-table : (p : ℕ) (page : Page) (s : State) → (released p page s).hash_table ≡ s.hash_table
released-table p page s = elim (Bool-cases (eqb_ℤ page.ref_count (pos 1))) [
  | inl a ↦ rw a
  | inr a ↦ elim (Bool-cases (ltb_ℤ (pos 1) page.ref_count)) [
    | inl b ↦ rw (a, b)
    | inr b ↦ rw (a, b)
  ]
]

release_pages-done :
    (ps : List ℕ) (s : State)
    → ((w p : ℕ) → get_elem? ps w ≡ some p → (page : Page) × (s.page p ≡ some page))
    → ((v w p : ℕ) → get_elem? ps v ≡ some p → get_elem? ps w ≡ some p → v ≡ w)
    → (s' : State) × (release_pages ps s ≡ done s') × (s'.hash_table ≡ s.hash_table)
unfolding release_pages
release_pages-done [] s back apart = (s, refl, refl)
release_pages-done (p ∷ ps) s back apart =
    let (page, at) = back 0 p refl in
    let (s', e, same) =
      release_pages-done ps (released p page s)
        (λ w q h.
          let other : q ≢ p = λ x.
            let z : 0 ≡ suc w = apart 0 (suc w) q (ap some (sym x)) h in absurd (omega arith) in
          let b = back (suc w) q h in (b.0, released-other p page s q other ∙ b.1))
        (λ v w q a b. let z : suc v ≡ suc w = apart (suc v) (suc w) q a b in omega arith) in
    (s', rw at e, same ∙ released-table p page s)

-- On consistent storages, `tls_destroy` of the thread whose element is the first of its bucket
-- returns 0; the freed element stays in the bucket, and every later search of that bucket, for this
-- thread or another one, reads freed memory.
pub tls_destroy-dangling :
    (tid other : ℕ) (e : HashElement) (es : List HashElement) (t : Tls) (s : State)
    → IsCounted s
    → s.hash_table (tid % 31) ≡ e ∷ es
    → e.tid ≡ tid
    → e.freed ≡ false
    → s.tls e.tls ≡ some t
    → other % 31 ≡ tid % 31
    → (s' : State) × (tls_destroy tid s ≡ done (pos 0, s')) × (hash_search other s' ≡ fault)
unfolding tls_destroy hash_search search_bucket
tls_destroy-dangling tid other e es t s c bucket is_tid alive holds same = finish (
    release_pages-done t.pages s
      (λ w p h. c.backed e.tls w p (subst (λ o. get_elem? (pages_of o) w ≡ some p) (sym holds) h))
      (λ v w p a b.
        c.distinct e.tls v w p (subst (λ o. get_elem? (pages_of o) v ≡ some p) (sym holds) a)
          (subst (λ o. get_elem? (pages_of o) w ≡ some p) (sym holds) b)))
  where
    finish :
        ((s₁ : State) × (release_pages t.pages s ≡ done s₁) × (s₁.hash_table ≡ s.hash_table))
        → (s' : State) × (tls_destroy tid s ≡ done (pos 0, s')) × (hash_search other s' ≡ fault)
    finish (s₁, run, table) =
        let self : (e.tid == tid) ≡ true = ground arith in
        let place : ((tid % 31) == (other % 31)) ≡ true = ground arith in
        let chain : s₁.hash_table (tid % 31) ≡ e ∷ es = ap (λ f. f (tid % 31)) table ∙ bucket in
        (
          record s₁ {
            tls = update s₁.tls e.tls none;
            hash_table = update s₁.hash_table (tid % 31) (record e { freed = true } ∷ es);
          },
          rw (bucket, alive, self, holds, run, chain, self),
          rw place,
        )
