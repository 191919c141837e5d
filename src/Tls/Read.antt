-- ===== src/Tls/Read.antt =====
-- `tls_read` of Project4/tls.c, alone and after a write.
use ec440_projects.Prelude.{
  ℕ, zero, suc, ◌+◌, ◌-◌, ◌/◌, ◌%◌, ◌^◌, ◌≤◌, ◌<◌, ◌≡◌, ◌⊎◌, refl, sym, ap, subst, ◌∙◌, Bool, true,
  false, some, pos, ltb, ◌==◌, arith, update, update-at, inl, inr, get_elem?, length,
}
use ec440_projects.Run.{done}
use ec440_projects.Tls.{State, Tls, hash_search}
use ec440_projects.Tls.Ops.{read_byte, read_loop, tls_read, tls_write, end_of}
use ec440_projects.Tls.View.{pages_of, IsCounted}
use ec440_projects.Tls.Isolation.{IsOpen}
use ec440_projects.Tls.Loop.{byte_at, in_range, Covers, get_elem?-some}
use ec440_projects.Tls.Write.{
  IsCounted-readable, protect_all-Protected, pages-Backed, end_small, tls_write-Written,
}

read_byte-at :
    (k index : ℕ) (t : Tls) (s : State)
    → IsCounted s
    → s.tls k ≡ some t
    → IsOpen s k
    → index / s.page_size < length (pages_of (s.tls k))
    → index < 2 ^ 31
    → (b : ℕ) × (read_byte t index s ≡ done b) × (some b ≡ byte_at s.page_size s k index)
unfolding read_byte
read_byte-at k index t s c holds open_k inside fits =
    go (get_elem?-some (pages_of (s.tls k)) (index / s.page_size) inside)
  where
    go :
        ((p : ℕ) × (get_elem? (pages_of (s.tls k)) (index / s.page_size) ≡ some p))
        → (b : ℕ) × (read_byte t index s ≡ done b) × (some b ≡ byte_at s.page_size s k index)
    go (p, at) =
        let (page, there) = c.backed k (index / s.page_size) p at in
        let place = (c.counts p page there).0 in
        let small : ltb index 2147483648 ≡ true = ground arith in
        let at_t : get_elem? t.pages (index / s.page_size) ≡ some p =
          subst (λ o. get_elem? (pages_of o) (index / s.page_size) ≡ some p) holds at in
        (
          s.memory p (index % s.page_size),
          rw (small, at_t, there, place, open_k (index / s.page_size) p at),
          rw at,
        )

-- What the loop of `tls_read` leaves in the buffer: the bytes of the range, and the rest as it was.
record Filled (s : State) (k x n i : ℕ) (before out : ℕ → ℕ) : Type 0 where
  pub bytes : (m : ℕ) → m < n → some (out (i + m)) ≡ byte_at s.page_size s k (x + m)
  pub rest : (m : ℕ) → (m < i) ⊎ (i + n ≤ m) → out m ≡ before m

read_loop-Filled :
    (n k x i : ℕ) (t : Tls) (buffer : ℕ → ℕ) (s : State)
    → IsCounted s
    → s.tls k ≡ some t
    → IsOpen s k
    → Covers s.page_size s k (x + n)
    → x + n ≤ 2 ^ 31
    → (out : ℕ → ℕ) × (read_loop n t x i buffer s ≡ done out) × Filled s k x n i buffer out
unfolding read_loop
read_loop-Filled zero k x i t buffer s c holds open_k covers fits =
    (buffer, refl, record { bytes = λ m l. absurd (omega arith); rest = λ m l. refl })
read_loop-Filled (suc n) k x i t buffer s c holds open_k covers fits =
    let (b, e, is_b) = read_byte-at k x t s c holds open_k (covers x (omega arith)) (omega arith) in
    let (out, f, fl) =
      read_loop-Filled n k (suc x) (suc i) t (update buffer i b) s c holds open_k
        (λ a l. covers a (omega arith)) (omega arith) in
    (
      out,
      rw e f,
      record {
        bytes = λ m l. byte_of_round b is_b out fl m l;
        rest =
            λ m l. let away : (i == m) ≡ false = ground arith in fl.rest m (ground arith) ∙ rw away;
      },
    )
  where
    byte_of_round :
        (b : ℕ)
        → some b ≡ byte_at s.page_size s k x
        → (out : ℕ → ℕ) → Filled s k (suc x) n (suc i) (update buffer i b) out
        → (m : ℕ) → m < suc n
        → some (out (i + m)) ≡ byte_at s.page_size s k (x + m)
    byte_of_round b is_b out fl zero l =
        let first : out i ≡ b = fl.rest i (inl (omega arith)) ∙ update-at buffer i b in
        let a : i ≡ i + 0 = omega arith in
        let z : x ≡ x + 0 = omega arith in
        subst (λ j. some (out j) ≡ byte_at s.page_size s k (x + 0)) a
          (subst (λ y. some (out i) ≡ byte_at s.page_size s k y) z (ap some first ∙ is_b))
    byte_of_round b is_b out fl (suc m) l =
        let a : suc i + m ≡ i + suc m = omega arith in
        let z : suc x + m ≡ x + suc m = omega arith in
        subst (λ j. some (out j) ≡ byte_at s.page_size s k (x + suc m)) a
          (subst (λ y. some (out (suc i + m)) ≡ byte_at s.page_size s k y) z
            (fl.bytes m (omega arith)))

-- On consistent storages, a read of the calling thread within its storage, of at most 2 ^ 31 bytes,
-- returns 0 and fills the first `len` bytes of the buffer from the storage and no others. It changes
-- the protection of pages only, and the thread's pages are protected after it.
pub tls_read-content :
    (tid k offset len : ℕ) (buffer : ℕ → ℕ) (t : Tls) (s : State)
    → IsCounted s
    → hash_search tid s ≡ done (some k)
    → s.tls k ≡ some t
    → Covers s.page_size s k t.size
    → t.size ≤ 2 ^ 31
    → offset + len ≤ t.size
    → (out : ℕ → ℕ) × (readable : ℕ → Bool) × (tls_read tid offset len buffer s
        ≡ done (pos 0, out, record s { readable = readable }))
      × ((m : ℕ) → m < len → some (out m) ≡ byte_at s.page_size s k (offset + m))
      × ((m : ℕ) → len ≤ m → out m ≡ buffer m)
      × ((w p : ℕ) → get_elem? (pages_of (s.tls k)) w ≡ some p → readable p ≡ false)
unfolding tls_read
tls_read-content tid k offset len buffer t s c found holds covers small fits =
    let (s₁, e₁, pr) = protect_all-Protected true t.pages s (pages-Backed s k t c holds) in
    let opened : State = record s { readable = s₁.readable } in
    let open_k : IsOpen opened k =
      λ w p h. pr.each w p (subst (λ o. get_elem? (pages_of o) w ≡ some p) holds h) in
    let (out, e₂, fl) =
      read_loop-Filled len k offset 0 t buffer opened (IsCounted-readable s s₁.readable c) holds
        open_k (λ a l. covers a (omega arith)) (omega arith) in
    let (s₃, e₃, pr₃) =
      protect_all-Protected false t.pages opened
        (pages-Backed opened k t (IsCounted-readable s s₁.readable c) holds) in
    let fine : ltb t.size (end_of offset len) ≡ false =
      subst (λ m. ltb t.size m ≡ false) (sym (end_small offset len (omega arith))) (ground arith) in
    let count : end_of offset len - offset ≡ len =
      ap (λ m. m - offset) (end_small offset len (omega arith)) ∙ omega arith in
    (
      out,
      s₃.readable,
      rw (found, holds, fine, e₁ ∙ ap done pr.same, count, e₂, e₃ ∙ ap done pr₃.same),
      (λ m l.
          let z : 0 + m ≡ m = omega arith in
          subst (λ j. some (out j) ≡ byte_at s.page_size s k (offset + m)) z (fl.bytes m l)),
      (λ m l. fl.rest m (inr (omega arith))),
      (λ w p h. pr₃.each w p (subst (λ o. get_elem? (pages_of o) w ≡ some p) holds h)),
    )

-- On consistent storages, where no `mmap` fails: after a write of the calling thread within its
-- storage, of at most 2 ^ 31 bytes, a read of the same range returns 0 and delivers the bytes that
-- were written.
pub tls_read-tls_write :
    (tid k offset len : ℕ) (buffer dst : ℕ → ℕ) (t : Tls) (s : State)
    → IsCounted s
    → hash_search tid s ≡ done (some k)
    → s.tls k ≡ some t
    → Covers s.page_size s k t.size
    → t.size ≤ 2 ^ 31
    → offset + len ≤ t.size
    → ((m : ℕ) → s.os.mmap_fails m ≡ false)
    → (s' s'' : State) × (out : ℕ → ℕ) × (tls_write tid offset len buffer s ≡ done (pos 0, s'))
      × (tls_read tid offset len dst s' ≡ done (pos 0, out, s''))
      × ((m : ℕ) → m < len → out m ≡ buffer m)
unfolding hash_search
tls_read-tls_write tid k offset len buffer dst t s c found holds covers small fits maps =
    let (s', e, wr) =
      tls_write-Written tid k offset len buffer t s c found holds covers small fits maps in
    let (t', holds', size) = wr.kept t holds in
    let covers' : Covers s'.page_size s' k t'.size = λ a l.
      subst (λ m. a / m < length (pages_of (s'.tls k))) (sym wr.same_size)
        (subst (λ m. a / s.page_size < m) (sym wr.same_length)
          (covers a (subst (λ m. a < m) size l))) in
    let (out, readable, f, bytes, rest, closed) =
      tls_read-content tid k offset len dst t' s' wr.counted (rw wr.same_table found) holds' covers'
        (omega (arith, size)) (omega (arith, size)) in
    (
      s',
      record s' { readable = readable },
      out,
      e,
      f,
      λ m l.
          let inside : in_range offset len (offset + m) ≡ true = ground arith in
          let index : offset + m - offset ≡ m = omega arith in
          let byte : byte_at s'.page_size s' k (offset + m) ≡ some (buffer m) =
            subst (λ n. byte_at n s' k (offset + m) ≡ some (buffer m)) (sym wr.same_size)
              (wr.own (offset + m) ∙ rw (inside, index)) in
          let both : some (out m) ≡ some (buffer m) = bytes m l ∙ byte in cc,
    )
