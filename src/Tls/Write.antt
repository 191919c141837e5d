-- ===== src/Tls/Write.antt =====
-- `tls_write` of Project4/tls.c: the protection of the pages, and the whole call.
use ec440_projects.Prelude.{
  ℕ, zero, suc, ◌+◌, ◌-◌, ◌^◌, ◌≤◌, ◌≡◌, ◌≢◌, ◌⊎◌, refl, sym, ap, subst, ◌∙◌, Bool, true, false,
  some, List, [], ◌∷◌, pos, ltb, ◌==◌, arith, update, update-at, Bool-cases, inl, inr, get_elem?,
  length, if◌then◌else◌,
}
use ec440_projects.Run.{done}
use ec440_projects.Tls.{State, Page, Tls, protect_all, hash_search}
use ec440_projects.Tls.Ops.{tls_write, end_of}
use ec440_projects.Tls.View.{pages_of, view, IsCounted}
use ec440_projects.Tls.Isolation.{IsOpen}
use ec440_projects.Tls.Loop.{byte_at, in_range, Covers, write_loop-Wrote}

pub IsCounted-readable :
    (s : State) (r : ℕ → Bool) → IsCounted s → IsCounted (record s { readable = r })
IsCounted-readable s r c = record {
  sized = c.sized;
  fresh_tls = c.fresh_tls;
  fresh_page = c.fresh_page;
  backed = c.backed;
  distinct = c.distinct;
  counts = c.counts;
}

-- Only the protection has changed, and the pages of the list have the one that was asked for.
pub record Protected (b : Bool) (ps : List ℕ) (s s' : State) : Type 0 where
  pub same : s' ≡ record s { readable = s'.readable }
  pub each : (w p : ℕ) → get_elem? ps w ≡ some p → s'.readable p ≡ b
  pub stays : (q : ℕ) → s.readable q ≡ b → s'.readable q ≡ b

abbrev pub Backed : List ℕ → State → Type 0
Backed ps s =
    (w p : ℕ)
    → get_elem? ps w ≡ some p
    → (page : Page) × (s.page p ≡ some page) × (page.address ≡ p)

pub protect_all-Protected :
    (b : Bool) (ps : List ℕ) (s : State)
    → Backed ps s
    → (s' : State) × (protect_all b ps s ≡ done s') × Protected b ps s s'
unfolding protect_all
protect_all-Protected b [] s back =
    (s, refl, record { same = refl; each = λ w p h. cc; stays = λ q h. h })
protect_all-Protected b (p ∷ ps) s back =
    let (page, at, place) = back 0 p refl in
    let (s', e, pr) =
      protect_all-Protected b ps (record s { readable = update s.readable page.address b })
        (λ w q h. back (suc w) q h) in
    (
      s',
      rw at e,
      record {
        same = pr.same;
        each = each_of page.address place s' pr.each pr.stays;
        stays = λ q h. pr.stays q (stay page.address q h (Bool-cases (page.address == q)));
      },
    )
  where
    stay :
        (a q : ℕ)
        → s.readable q ≡ b
        → (((a == q) ≡ true) ⊎ ((a == q) ≡ false))
        → update s.readable a b q ≡ b
    stay a q h (inl e) = rw e
    stay a q h (inr e) = rw e h

    each_of :
        (a : ℕ)
        → a ≡ p
        → (s' : State) → ((w q : ℕ) → get_elem? ps w ≡ some q → s'.readable q ≡ b)
        → ((q : ℕ) → update s.readable a b q ≡ b → s'.readable q ≡ b)
        → (w q : ℕ) → get_elem? (p ∷ ps) w ≡ some q
        → s'.readable q ≡ b
    each_of a place s' f g zero q h =
        let same : a ≡ q = cc in
        g q (subst (λ r. update s.readable a b r ≡ b) same (update-at s.readable a b))
    each_of a place s' f g (suc w) q h = f w q h

pub pages-Backed : (s : State) (k : ℕ) (t : Tls) → IsCounted s → s.tls k ≡ some t → Backed t.pages s
pages-Backed s k t c holds w p h =
    let b = c.backed k w p (subst (λ o. get_elem? (pages_of o) w ≡ some p) (sym holds) h) in
    (b.0, b.1, (c.counts p b.0 b.1).0)

-- The state after a thread wrote `len` bytes of `buffer` at `offset` of its storage `k`.
pub record Written (s : State) (k offset len : ℕ) (buffer : ℕ → ℕ) (s' : State) : Type 0 where
  pub counted : IsCounted s'
  pub own :
      (a : ℕ)
      → byte_at s.page_size s' k a
        ≡ (if in_range offset len a then some (buffer (a - offset)) else byte_at s.page_size s k a)
  pub isolated : (j w x : ℕ) → j ≢ k → view s' j w x ≡ view s j w x
  pub closed : (w p : ℕ) → get_elem? (pages_of (s'.tls k)) w ≡ some p → s'.readable p ≡ false
  pub same_size : s'.page_size ≡ s.page_size
  pub same_table : s'.hash_table ≡ s.hash_table
  pub kept : (t : Tls) → s.tls k ≡ some t → (t' : Tls) × (s'.tls k ≡ some t') × (t'.size ≡ t.size)
  pub same_length : length (pages_of (s'.tls k)) ≡ length (pages_of (s.tls k))

pub end_small : (offset len : ℕ) → offset + len ≤ 2 ^ 31 → end_of offset len ≡ offset + len
end_small offset len h = omega arith

-- On consistent storages, where no `mmap` fails: a write of the calling thread within its storage,
-- of at most 2 ^ 31 bytes, returns 0. The thread's bytes in the range are those of the buffer, its
-- other bytes and those of all other threads are as before; its pages are protected again, and the
-- reference counts still count.
pub tls_write-Written :
    (tid k offset len : ℕ) (buffer : ℕ → ℕ) (t : Tls) (s : State)
    → IsCounted s
    → hash_search tid s ≡ done (some k)
    → s.tls k ≡ some t
    → Covers s.page_size s k t.size
    → t.size ≤ 2 ^ 31
    → offset + len ≤ t.size
    → ((m : ℕ) → s.os.mmap_fails m ≡ false)
    → (s' : State) × (tls_write tid offset len buffer s ≡ done (pos 0, s'))
      × Written s k offset len buffer s'
unfolding tls_write
tls_write-Written tid k offset len buffer t s c found holds covers small fits maps =
    let (s₁, e₁, pr) = protect_all-Protected true t.pages s (pages-Backed s k t c holds) in
    let opened : State = record s { readable = s₁.readable } in
    let open_k : IsOpen opened k =
      λ w p h. pr.each w p (subst (λ o. get_elem? (pages_of o) w ≡ some p) holds h) in
    let (s₂, e₂, wr) =
      write_loop-Wrote k buffer s.page_size len offset 0 t opened refl
        (IsCounted-readable s s₁.readable c) holds open_k (λ a l. covers a (omega arith))
        (omega arith) maps in
    let (t', holds', same) = wr.kept t holds in
    let (s₃, e₃, pr₃) =
      protect_all-Protected false t'.pages s₂ (pages-Backed s₂ k t' wr.counted holds') in
    let closed : State = record s₂ { readable = s₃.readable } in
    let fine : ltb t.size (end_of offset len) ≡ false =
      subst (λ m. ltb t.size m ≡ false) (sym (end_small offset len (omega arith))) (ground arith) in
    let count : end_of offset len - offset ≡ len =
      ap (λ m. m - offset) (end_small offset len (omega arith)) ∙ omega arith in
    (
      closed,
      rw (found, holds, fine, e₁ ∙ ap done pr.same, count, e₂, holds', e₃ ∙ ap done pr₃.same),
      record {
        counted = IsCounted-readable s₂ s₃.readable wr.counted;
        own = λ a.
            wr.own a
            ∙ ap (λ m. if in_range offset len a then some (buffer m) else byte_at s.page_size s k a)
                (omega arith);
        isolated = wr.isolated;
        closed = λ w p h. pr₃.each w p (subst (λ o. get_elem? (pages_of o) w ≡ some p) holds' h);
        same_size = wr.same_size;
        same_table = wr.same_table;
        kept = wr.kept;
        same_length = wr.same_length;
      },
    )
