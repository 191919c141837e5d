-- ===== src/Tls/Isolation.antt =====
-- A write of one byte in Project4/tls.c: what the thread and the other threads see after it.
use ec440_projects.Prelude.{
  ℕ, ◌/◌, ◌%◌, ◌^◌, ◌<◌, ◌≡◌, ◌≢◌, ◌⊎◌, inl, inr, refl, sym, ap, subst, ◌∙◌, true, false, ◌&&◌,
  Option, none, some, ℤ, pos, ltb, ltb_ℤ, ◌==◌, arith, Bool-cases, Option-cases, update, update-at,
  get_elem?, set, length, length-set, if◌then◌else◌,
}
use ec440_projects.Run.{done}
use ec440_projects.Tls.{State, Tls}
use ec440_projects.Tls.Ops.{write_byte, copied}
use ec440_projects.Tls.View.{pages_of, byte_of, view, IsCounted, page_below, alone}
use ec440_projects.Tls.CopyOnWrite.{copied-IsCounted, copied-slot, copied-other}

-- Every page of the storage is readable.
abbrev pub IsOpen : State → ℕ → Type 0
IsOpen s k = (w p : ℕ) → get_elem? (pages_of (s.tls k)) w ≡ some p → s.readable p ≡ true

abbrev pub stored : ℕ → ℕ → ℕ → State → State
stored a i byte s = record s { memory = update s.memory a (update (s.memory a) i byte) }

stored-IsCounted : (a i byte : ℕ) (s : State) → IsCounted s → IsCounted (stored a i byte s)
stored-IsCounted a i byte s c = record {
  sized = c.sized;
  fresh_tls = c.fresh_tls;
  fresh_page = c.fresh_page;
  backed = c.backed;
  distinct = c.distinct;
  counts = c.counts;
}

-- The state after the thread with storage `k` has written a byte.
pub record Stored (s : State) (k index byte : ℕ) (s' : State) : Type 0 where
  pub counted : IsCounted s'
  pub own :
      (w i : ℕ)
      → view s' k w i ≡ (
          if ((index / s.page_size) == w) && ((index % s.page_size) == i)
          then some byte
          else view s k w i)
  pub isolated : (j w i : ℕ) → j ≢ k → view s' j w i ≡ view s j w i
  pub opened : IsOpen s' k
  pub same_size : s'.page_size ≡ s.page_size
  pub same_os : s'.os ≡ s.os
  pub same_table : s'.hash_table ≡ s.hash_table
  pub kept : (t : Tls) → s.tls k ≡ some t → (t' : Tls) × (s'.tls k ≡ some t') × (t'.size ≡ t.size)
  pub same_length : length (pages_of (s'.tls k)) ≡ length (pages_of (s.tls k))

module _ (k index byte : ℕ) (t : Tls) (p : ℕ) (r : ℤ) (s : State) (c : IsCounted s)
    (holds : s.tls k ≡ some t) (at : get_elem? t.pages (index / s.page_size) ≡ some p)
    (there : s.page p ≡ some (record { address = p; ref_count = r })) (open_k : IsOpen s k)
    (fits : index < 2 ^ 31) where
  slot_at : get_elem? (pages_of (s.tls k)) (index / s.page_size) ≡ some p
  slot_at = rw holds at

  -- The byte at the slot of a page other than `p` stays.
  byte-other :
      (j w i : ℕ)
      → get_elem? (pages_of (s.tls j)) w ≢ some p
      → view (stored p (index % s.page_size) byte s) j w i ≡ view s j w i
  byte-other j w i n = split (Option-cases (get_elem? (pages_of (s.tls j)) w))
    where
      split :
          ((get_elem? (pages_of (s.tls j)) w ≡ none)
            ⊎ ((q : ℕ) × (get_elem? (pages_of (s.tls j)) w ≡ some q)))
          → view (stored p (index % s.page_size) byte s) j w i ≡ view s j w i
      split (inl e) = rw e
      split (inr (q, e)) =
          let o : p ≢ q = λ x. n (e ∙ ap some (sym x)) in
          let b : (p == q) ≡ false = ground (arith, o) in rw (e, b)

  stored-Stored :
      ltb_ℤ (pos 1) r ≡ false → Stored s k index byte (stored p (index % s.page_size) byte s)
  stored-Stored single = record {
    counted = stored-IsCounted p (index % s.page_size) byte s c;
    own = λ w i. own_byte w i (Bool-cases ((index / s.page_size) == w));
    isolated = λ j w i n.
        byte-other j w i
          (λ e. n (alone s c p j w k (index / s.page_size) _ there single e slot_at));
    opened = open_k;
    same_size = refl;
    same_os = refl;
    same_table = refl;
    kept = λ t' h. (t', h, refl);
    same_length = refl;
  }
    where
      own_byte :
          (w i : ℕ)
          → ((((index / s.page_size) == w) ≡ true) ⊎ (((index / s.page_size) == w) ≡ false))
          → view (stored p (index % s.page_size) byte s) k w i ≡ (
              if ((index / s.page_size) == w) && ((index % s.page_size) == i)
              then some byte
              else view s k w i)
      own_byte w i (inl e) =
          let same : index / s.page_size ≡ w = ground arith in
          let pp : (p == p) ≡ true = ground arith in
          let sl : get_elem? (pages_of (s.tls k)) w ≡ some p =
            subst (λ v. get_elem? (pages_of (s.tls k)) v ≡ some p) same slot_at in
          elim (Bool-cases ((index % s.page_size) == i)) [
            | inl f ↦ rw (e, f, sl, pp, f)
            | inr f ↦ rw (e, f, sl, pp, f)
          ]
      own_byte w i (inr e) = rw e (
          byte-other k w i
            (λ x. absurd (differ (c.distinct k w (index / s.page_size) p x slot_at))))
        where
          differ : w ≢ index / s.page_size
          differ = ground arith

  abbrev copy : State
  copy = copied k t (index / s.page_size) p (record { address = p; ref_count = r }) s

  module _ (shared : ltb_ℤ (pos 1) r ≡ true) where
    copy-IsCounted : IsCounted copy
    copy-IsCounted =
        copied-IsCounted k t (index / s.page_size) p (record { address = p; ref_count = r }) s c
          holds at there shared

    copy-slot :
        (v : ℕ)
        → get_elem? (pages_of (copy.tls k)) v
          ≡ (if (index / s.page_size) == v then some s.next else get_elem? (pages_of (s.tls k)) v)
    copy-slot =
        copied-slot k t (index / s.page_size) p (record { address = p; ref_count = r }) s c holds at
          there shared

    -- The byte at the slot of an older page stays.
    byte_before :
        (slot : Option ℕ) (i : ℕ)
        → ((q : ℕ) → slot ≡ some q → q < s.next)
        → byte_of (stored s.next (index % s.page_size) byte copy) slot i ≡ byte_of s slot i
    byte_before none i f = refl
    byte_before (some q) i f = let b : (s.next == q) ≡ false = ground (arith, f q refl) in rw b

    copy-Stored : Stored s k index byte (stored s.next (index % s.page_size) byte copy)
    copy-Stored = record {
      counted = stored-IsCounted s.next (index % s.page_size) byte copy copy-IsCounted;
      own = λ v i. own_byte v i (Bool-cases ((index / s.page_size) == v));
      isolated = λ j v i n.
          subst
            (λ o.
              byte_of (stored s.next (index % s.page_size) byte copy) (get_elem? (pages_of o) v) i
              ≡ view s j v i)
            (sym (
              copied-other k t (index / s.page_size) p (record { address = p; ref_count = r }) s c
                holds at there shared j n))
            (byte_before _ i (λ q e. page_below s c j v q e));
      opened = λ v q e. opened_slot v q e (Bool-cases ((index / s.page_size) == v));
      same_size = refl;
      same_os = refl;
      same_table = refl;
      kept = λ t' h.
          let kk : (k == k) ≡ true = ground arith in
          let e : some t ≡ some t' = sym holds ∙ h in
          let same : t ≡ t' = cc in
          (
            record t { pages = set t.pages (index / s.page_size) s.next },
            rw kk,
            ap (λ u. u.size) same,
          );
      same_length =
          let kk : (k == k) ≡ true = ground arith in
          rw (kk, holds) (length-set t.pages (index / s.page_size) s.next);
    }
      where
        own_byte :
            (v i : ℕ)
            → ((((index / s.page_size) == v) ≡ true) ⊎ (((index / s.page_size) == v) ≡ false))
            → view (stored s.next (index % s.page_size) byte copy) k v i ≡ (
                if ((index / s.page_size) == v) && ((index % s.page_size) == i)
                then some byte
                else view s k v i)
        own_byte v i (inl e) =
            let same : index / s.page_size ≡ v = ground arith in
            let nn : (s.next == s.next) ≡ true = ground arith in
            let sl : get_elem? (pages_of (s.tls k)) v ≡ some p =
              subst (λ u. get_elem? (pages_of (s.tls k)) u ≡ some p) same slot_at in
            let cs : get_elem? (pages_of (copy.tls k)) v ≡ some s.next = copy-slot v ∙ rw e in
            elim (Bool-cases ((index % s.page_size) == i)) [
              | inl f ↦ rw (e, f, cs, nn, f)
              | inr f ↦ rw (e, f, sl, cs, nn, f)
            ]
        own_byte v i (inr e) =
            let cs : get_elem? (pages_of (copy.tls k)) v ≡ get_elem? (pages_of (s.tls k)) v =
              copy-slot v ∙ rw e in
            rw (e, cs) (byte_before _ i (λ q x. page_below s c k v q x))

        opened_slot :
            (v q : ℕ)
            → get_elem? (pages_of (copy.tls k)) v ≡ some q
            → ((((index / s.page_size) == v) ≡ true) ⊎ (((index / s.page_size) == v) ≡ false))
            → copy.readable q ≡ true
        opened_slot v q h (inl e) =
            let cs : get_elem? (pages_of (copy.tls k)) v ≡ some s.next = copy-slot v ∙ rw e in
            let new : some s.next ≡ some q = sym cs ∙ h in
            let same : s.next ≡ q = cc in let b : (s.next == q) ≡ true = ground arith in rw b
        opened_slot v q h (inr e) =
            let old : get_elem? (pages_of (s.tls k)) v ≡ some q = sym (copy-slot v ∙ rw e) ∙ h in
            let a : (s.next == q) ≡ false = ground (arith, page_below s c k v q old) in
            let apart : p ≢ q = λ x.
              let same : index / s.page_size ≡ v =
                c.distinct k (index / s.page_size) v q (slot_at ∙ ap some x) old in
              absurd (ground arith) in
            let b : (p == q) ≡ false = ground (arith, apart) in rw (a, b) (open_k v q old)

  -- What a byte of `tls_write` does.
  pub write_byte-Stored :
      s.os.mmap_fails s.next ≡ false
      → (s' : State) × (write_byte k index byte s ≡ done s') × Stored s k index byte s'
  unfolding write_byte
  write_byte-Stored maps =
      let inside : ltb index 2147483648 ≡ true = ground arith in
      let op : s.readable p ≡ true = open_k (index / s.page_size) p slot_at in
      let nn : (s.next == s.next) ≡ true = ground arith in
      elim (Bool-cases (ltb_ℤ (pos 1) r)) [
        | inl many ↦ (
          stored s.next (index % s.page_size) byte copy,
          rw (holds, inside, at, there, many, op, maps, nn, update-at s.memory s.next (s.memory p)),
          copy-Stored many,
        )
        | inr one ↦ (
          stored p (index % s.page_size) byte s,
          rw (holds, inside, at, there, one, op),
          stored-Stored one,
        )
      ]
