-- ===== src/Tls/Clone.antt =====
-- `tls_clone` of Project4/tls.c: a storage that shares all its pages.
use ec440_projects.Prelude.{
  ℕ, suc, ◌+◌, ◌%◌, ◌≡◌, ◌≢◌, ◌⊎◌, refl, sym, ap, subst, ◌∙◌, true, false, Option, none, some, List,
  [], ◌∷◌, pos, suc_ℤ, ◌==◌, arith, update, Bool-cases, Option-cases, inl, inr, get_elem?,
  if◌then◌else◌,
}
use ec440_projects.Run.{done}
use ec440_projects.Tls.{State, Page, Tls, hash_search, search_bucket}
use ec440_projects.Tls.Ops.{share_pages, insert_tls, tls_clone}
use ec440_projects.Tls.View.{pages_of, view, count, owners, IsCounted, owners-update_ge}

-- The pages after one more reference to each of the list: nothing else has changed.
pub record Shared (ps : List ℕ) (s s' : State) : Type 0 where
  pub same : s' ≡ record s { page = s'.page }
  pub there :
      (p : ℕ) (page : Page) → s.page p ≡ some page → (page' : Page) × (s'.page p ≡ some page')
  pub before :
      (p : ℕ) (page' : Page)
      → s'.page p ≡ some page'
      → (page : Page) × (s.page p ≡ some page)
        × (page'.address ≡ page.address)
        × ((m : ℕ) → page.ref_count ≡ pos m → page'.ref_count ≡ pos (m + count p ps))

-- The state with one more reference to page `p`.
abbrev one_more : ℕ → Page → State → State
one_more p page s = record s {
  page = update s.page p (some (record page { ref_count = suc_ℤ page.ref_count }));
}

one_more-there :
    (p : ℕ) (page : Page) (s : State) (q : ℕ) (page₀ : Page)
    → s.page q ≡ some page₀
    → (page' : Page) × ((one_more p page s).page q ≡ some page')
one_more-there p page s q page₀ h = elim (Bool-cases (p == q)) [
  | inl e ↦ (record page { ref_count = suc_ℤ page.ref_count }, rw e refl)
  | inr e ↦ (page₀, rw e h)
]

share_pages-Shared :
    (ps : List ℕ) (s : State)
    → ((w p : ℕ) → get_elem? ps w ≡ some p → (page : Page) × (s.page p ≡ some page))
    → (s' : State) × (share_pages ps s ≡ done s') × Shared ps s s'
unfolding share_pages count
share_pages-Shared [] s back = (
  s,
  refl,
  record {
    same = refl;
    there = λ p page h. (page, h);
    before = λ p page h. (page, h, refl, λ m e. e ∙ ap pos (omega arith));
  },
)
share_pages-Shared (p ∷ ps) s back =
    let (page, at) = back 0 p refl in
    let (s', e, sh) =
      share_pages-Shared ps (one_more p page s)
        (λ w q h. let b = back (suc w) q h in one_more-there p page s q b.0 b.1) in
    (
      s',
      rw at e,
      record {
        same = sh.same;
        there = λ q page₀ h. let b = one_more-there p page s q page₀ h in sh.there q b.0 b.1;
        before = λ q page' h.
            let (page₁, h₁, a₁, c₁) = sh.before q page' h in
            before_of page at q page' page₁ h₁ a₁ c₁ (Bool-cases (p == q));
      },
    )
  where
    before_of :
        (page : Page)
        → s.page p ≡ some page
        → (q : ℕ) (page' page₁ : Page) → (one_more p page s).page q ≡ some page₁
        → page'.address ≡ page₁.address
        → ((m : ℕ) → page₁.ref_count ≡ pos m → page'.ref_count ≡ pos (m + count q ps))
        → (((p == q) ≡ true) ⊎ ((p == q) ≡ false))
        → (page₀ : Page) × (s.page q ≡ some page₀)
          × (page'.address ≡ page₀.address)
          × ((m : ℕ) → page₀.ref_count ≡ pos m → page'.ref_count ≡ pos (m + count q (p ∷ ps)))
    before_of page at q page' page₁ h₁ a₁ c₁ (inr e) =
        let back : (q == p) ≡ false = ground arith in
        (
          page₁,
          subst
              (λ b.
                (if b then some (record page { ref_count = suc_ℤ page.ref_count }) else s.page q)
                ≡ some page₁)
              e h₁,
          a₁,
          λ m r. rw back (c₁ m r ∙ ap pos (omega arith)),
        )
    before_of page at q page' page₁ h₁ a₁ c₁ (inl e) =
        let same : p ≡ q = ground arith in
        let back : (q == p) ≡ true = ground arith in
        let more : some (record page { ref_count = suc_ℤ page.ref_count }) ≡ some page₁ =
          subst
            (λ b.
              (if b then some (record page { ref_count = suc_ℤ page.ref_count }) else s.page q)
              ≡ some page₁)
            e h₁ in
        let is : record page { ref_count = suc_ℤ page.ref_count } ≡ page₁ = cc in
        (
          page,
          subst (λ r. s.page r ≡ some page) same at,
          a₁ ∙ ap (λ x. x.address) (sym is),
          λ m r.
              let up : page₁.ref_count ≡ pos (suc m) =
                ap (λ x. x.ref_count) (sym is) ∙ ap suc_ℤ r in
              rw back (c₁ (suc m) up ∙ ap pos (omega arith)),
        )

module _ (dst k : ℕ) (t : Tls) (s : State) (page : ℕ → Option Page) (c : IsCounted s)
    (holds : s.tls k ≡ some t) (sh : Shared t.pages s (record s { page = page })) where
  abbrev clone : State
  clone = insert_tls dst t (record s { page = page })

  clone_tls : clone.tls s.next ≡ some t
  clone_tls = let e : (s.next == s.next) ≡ true = ground arith in rw e

  clone_other : (j : ℕ) → j ≢ s.next → clone.tls j ≡ s.tls j
  clone_other j n = let e : (s.next == j) ≡ false = ground arith in rw e

  -- Every storage after the clone has the pages of one before it.
  owner_before : (j : ℕ) → (i : ℕ) × (pages_of (clone.tls j) ≡ pages_of (s.tls i))
  owner_before j = elim (Bool-cases (s.next == j)) [
    | inl e ↦ (k, rw (e, holds) refl)
    | inr e ↦ (j, rw e refl)
  ]

  slot_before :
      (j w p : ℕ)
      → get_elem? (pages_of (clone.tls j)) w ≡ some p
      → get_elem? (pages_of (s.tls (owner_before j).0)) w ≡ some p
  slot_before j w p h = subst (λ ps. get_elem? ps w ≡ some p) (owner_before j).1 h

  clone_counts :
      (q : ℕ) (page' : Page)
      → page q ≡ some page'
      → (page'.address ≡ q) × (page'.ref_count ≡ pos (owners q clone.tls (suc s.next)))
  unfolding owners
  clone_counts q page' h =
      let (page₀, at, address, counted) = sh.before q page' h in
      let old = c.counts q page₀ at in
      let e : (s.next == s.next) ≡ true = ground arith in
      let total : owners q clone.tls (suc s.next) ≡ owners q s.tls s.next + count q t.pages =
        rw e (omega (arith, owners-update_ge q s.tls s.next s.next (some t) (omega arith))) in
      (address ∙ old.0, counted (owners q s.tls s.next) old.1 ∙ ap pos (sym total))

  clone-IsCounted : IsCounted clone
  clone-IsCounted = record {
    sized = c.sized;
    fresh_tls = λ j l. clone_other j (λ e. absurd (omega arith)) ∙ c.fresh_tls j (omega arith);
    fresh_page = λ q l. elim (Option-cases (page q)) [
      | inl e ↦ e
      | inr x ↦
          let b = sh.before q x.0 x.1 in
          let gone : s.page q ≡ none = c.fresh_page q (omega arith) in
          let at : s.page q ≡ some b.0 = b.1 in cc
    ];
    backed = λ j w p h.
        let b = c.backed (owner_before j).0 w p (slot_before j w p h) in sh.there p b.0 b.1;
    distinct = λ j v w p a b.
        c.distinct (owner_before j).0 v w p (slot_before j v p a) (slot_before j w p b);
    counts = clone_counts;
  }

-- What `tls_clone` of storage `k` for thread `dst` leaves behind.
pub record Cloned (s : State) (dst k : ℕ) (t : Tls) (s' : State) : Type 0 where
  pub counted : IsCounted s'
  pub found : hash_search dst s' ≡ done (some s.next)
  pub holds : s'.tls s.next ≡ some t
  pub equal : (w i : ℕ) → view s' s.next w i ≡ view s k w i
  pub others : (j w i : ℕ) → j ≢ s.next → view s' j w i ≡ view s j w i
  pub protections : s'.readable ≡ s.readable

-- On consistent storages, a thread without a storage that clones a thread with one gets 0 and a
-- storage of its own, which its search finds, of the same size and with the same bytes. The bytes of
-- all other threads and the protections stay, and the reference counts still count.
pub tls_clone-Cloned :
    (dst tid k : ℕ) (t : Tls) (s : State)
    → IsCounted s
    → hash_search dst s ≡ done none
    → hash_search tid s ≡ done (some k)
    → s.tls k ≡ some t
    → (s' : State) × (tls_clone dst tid s ≡ done (pos 0, s')) × Cloned s dst k t s'
unfolding tls_clone hash_search search_bucket
tls_clone-Cloned dst tid k t s c free found holds =
    let (s₁, e, sh₁) =
      share_pages-Shared t.pages s
        (λ w p h. c.backed k w p (subst (λ o. get_elem? (pages_of o) w ≡ some p) (sym holds) h)) in
    let sh : Shared t.pages s (record s { page = s₁.page }) = record {
      same = refl;
      there = sh₁.there;
      before = sh₁.before;
    } in
    let bucket : ((dst % 31) == (dst % 31)) ≡ true = ground arith in
    let self : (dst == dst) ≡ true = ground arith in
    (
      clone dst k t s s₁.page c holds sh,
      rw (free, found, holds, e ∙ ap done sh₁.same),
      record {
        counted = clone-IsCounted dst k t s s₁.page c holds sh;
        found = rw (bucket, self);
        holds = clone_tls dst k t s s₁.page c holds sh;
        equal = λ w i. rw (clone_tls dst k t s s₁.page c holds sh, holds) refl;
        others = λ j w i n. let o : (s.next == j) ≡ false = ground (arith, n) in rw o;
        protections = refl;
      },
    )
