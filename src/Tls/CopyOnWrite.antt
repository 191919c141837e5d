-- ===== src/Tls/CopyOnWrite.antt =====
-- The private copy that `tls_write` of Project4/tls.c makes of a shared page.
use ec440_projects.Prelude.{
  ℕ, zero, suc, ◌+◌, ◌<◌, ◌≡◌, ◌≢◌, ◌⊎◌, inl, inr, refl, sym, ap, subst, ◌∙◌, true, false, Option,
  none, some, List, [], ◌∷◌, pos, pred_ℤ, ltb_ℤ, ◌==◌, arith, Bool-cases, get_elem?, set,
  get_elem?-set_self, get_elem?-set_ne, length, if◌then◌else◌,
}
use ec440_projects.Tls.{State, Page, Tls}
use ec440_projects.Tls.Ops.{copied}
use ec440_projects.Tls.View.{
  pages_of, count, owners, IsCounted, count-set, owners-update, owners-none, tls_below, page_below,
}

get_elem?-lt : {A : Type 0} (xs : List A) (i : ℕ) (a : A) → get_elem? xs i ≡ some a → i < length xs
get_elem?-lt [] i a h = cc
get_elem?-lt (x ∷ xs) zero a h = omega arith
get_elem?-lt (x ∷ xs) (suc i) a h = omega (arith, get_elem?-lt xs i a h)

module _ (k : ℕ) (t : Tls) (w p : ℕ) (page : Page) (s : State) (c : IsCounted s)
    (holds : s.tls k ≡ some t) (at : get_elem? t.pages w ≡ some p) (there : s.page p ≡ some page)
    (shared : ltb_ℤ (pos 1) page.ref_count ≡ true) where
  slot_at : get_elem? (pages_of (s.tls k)) w ≡ some p
  slot_at = rw holds at

  k_below : k < s.next
  k_below = tls_below s c k w p slot_at

  p_below : p < s.next
  p_below = page_below s c k w p slot_at

  -- The slots after the copy: the one that was written holds the new page.
  pub copied-slot :
      (v : ℕ)
      → get_elem? (pages_of ((copied k t w p page s).tls k)) v
        ≡ (if w == v then some s.next else get_elem? (pages_of (s.tls k)) v)
  copied-slot v = let kk : (k == k) ≡ true = ground arith in rw kk (split (Bool-cases (w == v)))
    where
      split :
          (((w == v) ≡ true) ⊎ ((w == v) ≡ false))
          → get_elem? (set t.pages w s.next) v
            ≡ (if w == v then some s.next else get_elem? (pages_of (s.tls k)) v)
      split (inl e) =
          let same : w ≡ v = ground arith in
          rw e (
            subst (λ u. get_elem? (set t.pages w s.next) u ≡ some s.next) same
              (get_elem?-set_self t.pages w s.next (get_elem?-lt t.pages w p at)))
      split (inr e) =
          let other : w ≢ v = ground arith in rw (e, holds) (get_elem?-set_ne t.pages s.next other)

  pub copied-other : (j : ℕ) → j ≢ k → (copied k t w p page s).tls j ≡ s.tls j
  copied-other j n = let e : (k == j) ≡ false = ground arith in rw e

  owners-copied :
      (q : ℕ)
      → owners q (copied k t w p page s).tls (suc s.next) + (if q == p then 1 else 0)
        ≡ owners q s.tls s.next + (if q == s.next then 1 else 0)
  unfolding owners count
  owners-copied q =
      let e : (k == s.next) ≡ false = ground (arith, k_below) in
      let no : s.tls s.next ≡ none = c.fresh_tls s.next (omega arith) in
      rw (e, no)
        (omega (
          arith,
          owners-update q s.tls k s.next (some (record t { pages = set t.pages w s.next })) k_below,
          count-set q t.pages w p s.next at,
          ap (λ u. count q (pages_of u)) holds,
        ))

  page_next :
      (copied k t w p page s).page s.next ≡ some (record { address = s.next; ref_count = pos 1 })
  page_next = let e : (s.next == s.next) ≡ true = ground arith in rw e

  page_shared :
      (copied k t w p page s).page p ≡ some (record page { ref_count = pred_ℤ page.ref_count })
  page_shared =
      let e : (s.next == p) ≡ false = ground (arith, p_below) in
      let f : (p == p) ≡ true = ground arith in rw (e, f)

  page_other : (q : ℕ) → q ≢ p → q ≢ s.next → (copied k t w p page s).page q ≡ s.page q
  page_other q n m =
      let e : (s.next == q) ≡ false = ground arith in
      let f : (p == q) ≡ false = ground arith in rw (e, f)

  still_there :
      (q : ℕ) (page' : Page)
      → s.page q ≡ some page'
      → (page'' : Page) × ((copied k t w p page s).page q ≡ some page'')
  still_there q page' e = elim (Bool-cases (q == p)) [
    | inl a ↦
        let same : p ≡ q = ground arith in
        (
          record page { ref_count = pred_ℤ page.ref_count },
          subst
              (λ r.
                (copied k t w p page s).page r
                ≡ some (record page { ref_count = pred_ℤ page.ref_count }))
              same page_shared,
        )
    | inr a ↦
        let next : q ≢ s.next =
          λ x. let gone : s.page q ≡ none = c.fresh_page q (omega arith) in cc in
        (page', page_other q (ground arith) next ∙ e)
  ]

  -- A slot after the copy: the one that was written, or one as before.
  slot_cases :
      (j v q : ℕ)
      → get_elem? (pages_of ((copied k t w p page s).tls j)) v ≡ some q
      → ((j ≡ k) × (v ≡ w) × (q ≡ s.next))
        ⊎ (((j ≡ k → v ≢ w)) × (get_elem? (pages_of (s.tls j)) v ≡ some q))
  slot_cases j v q h = elim (Bool-cases (j == k)) [
    | inr n ↦
        let other : j ≢ k = ground arith in
        inr (
          (λ e. absurd (other e)),
          subst (λ u. get_elem? (pages_of u) v ≡ some q) (copied-other j other) h,
        )
    | inl e ↦
        let same : j ≡ k = ground arith in
        let at_k : get_elem? (pages_of ((copied k t w p page s).tls k)) v ≡ some q =
          subst (λ i. get_elem? (pages_of ((copied k t w p page s).tls i)) v ≡ some q) same h in
        slot_of same (sym (copied-slot v) ∙ at_k) (Bool-cases (w == v))
  ]
    where
      slot_of :
          j ≡ k
          → (if w == v then some s.next else get_elem? (pages_of (s.tls k)) v) ≡ some q
          → (((w == v) ≡ true) ⊎ ((w == v) ≡ false))
          → ((j ≡ k) × (v ≡ w) × (q ≡ s.next))
            ⊎ (((j ≡ k → v ≢ w)) × (get_elem? (pages_of (s.tls j)) v ≡ some q))
      slot_of same x (inl e) =
          let y : some s.next ≡ some q =
            subst (λ b. (if b then some s.next else get_elem? (pages_of (s.tls k)) v) ≡ some q) e
              x in
          inl (same, ground arith, cc)
      slot_of same x (inr e) =
          let y : get_elem? (pages_of (s.tls k)) v ≡ some q =
            subst (λ b. (if b then some s.next else get_elem? (pages_of (s.tls k)) v) ≡ some q) e
              x in
          inr
            (λ _. ground arith, subst (λ i. get_elem? (pages_of (s.tls i)) v ≡ some q) (sym same) y)

  next_unused : (j v : ℕ) → get_elem? (pages_of (s.tls j)) v ≢ some s.next
  next_unused j v h = absurd (omega (arith, page_below s c j v s.next h))

  abbrev tls_after : ℕ → Option Tls
  tls_after = (copied k t w p page s).tls

  next_counted : owners s.next tls_after (suc s.next) ≡ 1
  next_counted =
      let e : (s.next == p) ≡ false = ground (arith, p_below) in
      let f : (s.next == s.next) ≡ true = ground arith in
      ground (arith, owners-copied s.next, owners-none s.next s.tls s.next next_unused)

  shared_counted : pred_ℤ page.ref_count ≡ pos (owners p tls_after (suc s.next))
  shared_counted =
      let e : (p == s.next) ≡ false = ground (arith, p_below) in
      let f : (p == p) ≡ true = ground arith in
      ground (arith, owners-copied p, (c.counts p page there).1)

  other_counted :
      (q : ℕ)
      → (q == s.next) ≡ false
      → (q == p) ≡ false
      → owners q tls_after (suc s.next) ≡ owners q s.tls s.next
  other_counted q e f = ground (arith, owners-copied q)

  abbrev Counted : ℕ → Page → Type 0
  Counted q page' = (page'.address ≡ q) × (page'.ref_count ≡ pos (owners q tls_after (suc s.next)))

  counts_copied :
      (q : ℕ) (page' : Page) → (copied k t w p page s).page q ≡ some page' → Counted q page'
  counts_copied q page' h = elim (Bool-cases (q == s.next)) [
    | inl e ↦
        let same : q ≡ s.next = ground arith in
        let e₁ : some (record { address = s.next; ref_count = pos 1 }) ≡ some page' =
          sym page_next ∙ ap (copied k t w p page s).page (sym same) ∙ h in
        let pg : record { address = s.next; ref_count = pos 1 } ≡ page' = cc in
        subst (λ x. Counted q x) pg
          (subst (λ r. Counted r (record { address = s.next; ref_count = pos 1 })) (sym same)
            (refl, ap pos (sym next_counted)))
    | inr e ↦ elim (Bool-cases (q == p)) [
      | inl f ↦
          let same : q ≡ p = ground arith in
          let e₁ : some (record page { ref_count = pred_ℤ page.ref_count }) ≡ some page' =
            sym page_shared ∙ ap (copied k t w p page s).page (sym same) ∙ h in
          let pg : record page { ref_count = pred_ℤ page.ref_count } ≡ page' = cc in
          subst (λ x. Counted q x) pg
            (subst (λ r. Counted r (record page { ref_count = pred_ℤ page.ref_count })) (sym same)
              ((c.counts p page there).0, shared_counted))
      | inr f ↦
          let before : s.page q ≡ some page' =
            sym (page_other q (ground arith) (ground arith)) ∙ h in
          (
            (c.counts q page' before).0,
            (c.counts q page' before).1 ∙ ap pos (sym (other_counted q e f)),
          )
    ]
  ]

  pub copied-IsCounted : IsCounted (copied k t w p page s)
  copied-IsCounted = record {
    sized = c.sized;
    fresh_tls = λ j l.
        let n : j ≢ k = λ e. absurd (omega (arith, k_below)) in
        copied-other j n ∙ c.fresh_tls j (omega arith);
    fresh_page = λ q l.
        page_other q (λ e. absurd (omega (arith, p_below))) (λ e. absurd (omega arith))
        ∙ c.fresh_page q (omega arith);
    backed = λ j v q h. elim (slot_cases j v q h) [
      | inl x ↦ (_, ap (copied k t w p page s).page x.2 ∙ page_next)
      | inr x ↦ still_there q (c.backed j v q x.1).0 (c.backed j v q x.1).1
    ];
    distinct = λ j u v q a b. elim (slot_cases j u q a) [
      | inl x ↦ elim (slot_cases j v q b) [
        | inl y ↦ x.1 ∙ sym y.1
        | inr y ↦
            absurd
              (next_unused j v (subst (λ r. get_elem? (pages_of (s.tls j)) v ≡ some r) x.2 y.1))
      ]
      | inr x ↦ elim (slot_cases j v q b) [
        | inl y ↦
            absurd
              (next_unused j u (subst (λ r. get_elem? (pages_of (s.tls j)) u ≡ some r) y.2 x.1))
        | inr y ↦ c.distinct j u v q x.1 y.1
      ]
    ];
    counts = counts_copied;
  }
