-- ===== src/Tls/Loop.antt =====
-- The loop of `tls_write` in Project4/tls.c over the bytes of a range.
use ec440_projects.Prelude.{
  ℕ, zero, suc, ◌+◌, ◌-◌, ◌*◌, ◌/◌, ◌%◌, ◌^◌, ◌≤◌, ◌<◌, ◌≡◌, ◌≢◌, ◌⊎◌, inl, inr, refl, sym, ap,
  subst, ◌∙◌, Bool, true, false, ◌&&◌, Option, some, List, [], ◌∷◌, ltb, leb, ◌==◌, arith,
  Bool-cases, get_elem?, length, if◌then◌else◌,
}
use native.Mathlib.Nat.{div-add-mod'}
use ec440_projects.Run.{done}
use ec440_projects.Tls.{State, Tls, Os}
use ec440_projects.Tls.Ops.{write_byte, write_loop}
use ec440_projects.Tls.View.{pages_of, view, IsCounted}
use ec440_projects.Tls.Isolation.{IsOpen, Stored, write_byte-Stored}

-- Byte `a` of the storage `k`, with pages of `size` bytes.
abbrev pub byte_at : ℕ → State → ℕ → ℕ → Option ℕ
byte_at size s k a = view s k (a / size) (a % size)

abbrev pub in_range : ℕ → ℕ → ℕ → Bool
in_range start n a = leb start a && ltb a (start + n)

-- The slots up to byte `end` exist.
abbrev pub Covers : ℕ → State → ℕ → ℕ → Type 0
Covers size s k end = (a : ℕ) → a < end → a / size < length (pages_of (s.tls k))

pub get_elem?-some :
    {A : Type 0} (xs : List A) (i : ℕ) → i < length xs → (a : A) × (get_elem? xs i ≡ some a)
get_elem?-some [] i h = elim h [ ]
get_elem?-some (x ∷ xs) zero h = (x, refl)
get_elem?-some (x ∷ xs) (suc i) h = get_elem?-some xs i (omega arith)

same_place : (a b size : ℕ) → ((a / size) == (b / size)) && ((a % size) == (b % size)) ≡ (a == b)
same_place a b size = elim (Bool-cases (a == b)) [
  | inl e ↦
      let same : a ≡ b = ground arith in
      let d : ((a / size) == (b / size)) ≡ true = ground (arith, ap (λ c. c / size) same) in
      let m : ((a % size) == (b % size)) ≡ true = ground (arith, ap (λ c. c % size) same) in
      rw (d, m, e)
  | inr e ↦ apart e (Bool-cases ((a / size) == (b / size)))
]
  where
    apart :
        (a == b) ≡ false
        → ((((a / size) == (b / size)) ≡ true) ⊎ (((a / size) == (b / size)) ≡ false))
        → ((a / size) == (b / size)) && ((a % size) == (b % size)) ≡ (a == b)
    apart e (inr d) = rw (d, e)
    apart e (inl d) =
        let q : a / size ≡ b / size = ground arith in
        let differ : a % size ≢ b % size = λ r.
          let same : a ≡ b =
            sym (div-add-mod' a size)
            ∙ ap (λ c. c * size + a % size) q
            ∙ ap (λ c. b / size * size + c) r
            ∙ div-add-mod' b size in
          absurd (ground arith) in
        let m : ((a % size) == (b % size)) ≡ false = ground (arith, differ) in rw (d, m, e)

-- The state after a range of the storage `k` was written from `buffer`, from index `i` on.
pub record Wrote (size : ℕ) (s : State) (k start n : ℕ) (buffer : ℕ → ℕ) (i : ℕ) (s' : State)
    : Type 0 where
  pub counted : IsCounted s'
  pub own :
      (a : ℕ)
      → byte_at size s' k a
        ≡ (if in_range start n a then some (buffer (i + (a - start))) else byte_at size s k a)
  pub isolated : (j w x : ℕ) → j ≢ k → view s' j w x ≡ view s j w x
  pub opened : IsOpen s' k
  pub same_size : s'.page_size ≡ s.page_size
  pub same_os : s'.os ≡ s.os
  pub same_table : s'.hash_table ≡ s.hash_table
  pub same_length : length (pages_of (s'.tls k)) ≡ length (pages_of (s.tls k))
  pub kept : (t : Tls) → s.tls k ≡ some t → (t' : Tls) × (s'.tls k ≡ some t') × (t'.size ≡ t.size)

-- One byte, with what the state must have.
byte_step :
    (k index byte : ℕ) (t : Tls) (s : State)
    → IsCounted s
    → s.tls k ≡ some t
    → IsOpen s k
    → index / s.page_size < length (pages_of (s.tls k))
    → index < 2 ^ 31
    → ((m : ℕ) → s.os.mmap_fails m ≡ false)
    → (s' : State) × (write_byte k index byte s ≡ done s') × Stored s k index byte s'
byte_step k index byte t s c holds open_k inside fits maps =
    go (get_elem?-some (pages_of (s.tls k)) (index / s.page_size) inside)
  where
    go :
        ((p : ℕ) × (get_elem? (pages_of (s.tls k)) (index / s.page_size) ≡ some p))
        → (s' : State) × (write_byte k index byte s ≡ done s') × Stored s k index byte s'
    go (p, at) =
        let b = c.backed k (index / s.page_size) p at in
        let here : b.0 ≡ record { address = p; ref_count = b.0.ref_count } =
          ap (λ x. record { address = x; ref_count = b.0.ref_count }) (c.counts p b.0 b.1).0 in
        let at_t : get_elem? t.pages (index / s.page_size) ≡ some p =
          subst (λ o. get_elem? (pages_of o) (index / s.page_size) ≡ some p) holds at in
        write_byte-Stored k index byte t p b.0.ref_count s c holds at_t (b.1 ∙ ap some here) open_k
          fits (maps s.next)

module _ (k : ℕ) (buffer : ℕ → ℕ) where
  Wrote-none : (size x i : ℕ) (s : State) → IsCounted s → IsOpen s k → Wrote size s k x 0 buffer i s
  Wrote-none size x i s c open_k = record {
    counted = c;
    own = λ a. let e : in_range x 0 a ≡ false = ground arith in rw e;
    isolated = λ j w y n. refl;
    opened = open_k;
    same_size = refl;
    same_os = refl;
    same_table = refl;
    same_length = refl;
    kept = λ t h. (t, h, refl);
  }

  Wrote-later :
      (size x n i : ℕ) (s s₁ s₂ : State)
      → s.page_size ≡ size
      → Stored s k x (buffer i) s₁
      → Wrote size s₁ k (suc x) n buffer (suc i) s₂
      → Wrote size s k x (suc n) buffer i s₂
  Wrote-later size x n i s s₁ s₂ z st wr = record {
    counted = wr.counted;
    own = λ a. wr.own a ∙ own_byte a (Bool-cases (x == a));
    isolated = λ j w y m. wr.isolated j w y m ∙ st.isolated j w y m;
    opened = wr.opened;
    same_size = wr.same_size ∙ st.same_size;
    same_os = wr.same_os ∙ st.same_os;
    same_table = wr.same_table ∙ st.same_table;
    same_length = wr.same_length ∙ st.same_length;
    kept = λ t h.
        let one = st.kept t h in let two = wr.kept one.0 one.1 in (two.0, two.1, two.2 ∙ one.2);
  }
    where
      byte_here :
          (a : ℕ) → byte_at size s₁ k a ≡ (if x == a then some (buffer i) else byte_at size s k a)
      byte_here a =
          subst
            (λ m.
              view s₁ k (a / m) (a % m)
              ≡ (if x == a then some (buffer i) else view s k (a / m) (a % m)))
            z
            (subst
              (λ b.
                view s₁ k (a / s.page_size) (a % s.page_size)
                ≡ (if b then some (buffer i) else view s k (a / s.page_size) (a % s.page_size)))
              (same_place x a s.page_size) (st.own (a / s.page_size) (a % s.page_size)))

      own_byte :
          (a : ℕ)
          → (((x == a) ≡ true) ⊎ ((x == a) ≡ false))
          → (if in_range (suc x) n a
              then some (buffer (suc i + (a - suc x)))
              else byte_at size s₁ k a)
            ≡ (if in_range x (suc n) a then some (buffer (i + (a - x))) else byte_at size s k a)
      own_byte a (inl e) =
          let later : in_range (suc x) n a ≡ false = ground arith in
          let now : in_range x (suc n) a ≡ true = ground arith in
          let first : i ≡ i + (a - x) = ground arith in
          let b : byte_at size s₁ k a ≡ some (buffer i) = byte_here a ∙ rw e in
          rw (later, now) (b ∙ ap (λ m. some (buffer m)) first)
      own_byte a (inr e) =
          let same : in_range (suc x) n a ≡ in_range x (suc n) a = ground arith in
          let b : byte_at size s₁ k a ≡ byte_at size s k a = byte_here a ∙ rw e in
          rw (same, b) (pick (Bool-cases (in_range x (suc n) a)))
        where
          pick :
              (((in_range x (suc n) a) ≡ true) ⊎ ((in_range x (suc n) a) ≡ false))
              → (if in_range x (suc n) a
                  then some (buffer (suc i + (a - suc x)))
                  else byte_at size s k a)
                ≡ (if in_range x (suc n) a then some (buffer (i + (a - x))) else byte_at size s k a)
          pick (inr f) = rw f
          pick (inl f) =
              let index : suc i + (a - suc x) ≡ i + (a - x) = ground arith in
              rw f (ap (λ m. some (buffer m)) index)

  pub write_loop-Wrote :
      (size n x i : ℕ) (t : Tls) (s : State)
      → s.page_size ≡ size
      → IsCounted s
      → s.tls k ≡ some t
      → IsOpen s k
      → Covers size s k (x + n)
      → x + n ≤ 2 ^ 31
      → ((m : ℕ) → s.os.mmap_fails m ≡ false)
      → (s' : State) × (write_loop n k x i buffer s ≡ done s') × Wrote size s k x n buffer i s'
  unfolding write_loop
  write_loop-Wrote size zero x i t s z c holds open_k covers fits maps =
      (s, refl, Wrote-none size x i s c open_k)
  write_loop-Wrote size (suc n) x i t s z c holds open_k covers fits maps =
      let here : x / s.page_size < length (pages_of (s.tls k)) =
        subst (λ m. x / m < length (pages_of (s.tls k))) (sym z) (covers x (omega arith)) in
      let (s₁, e, st) = byte_step k x (buffer i) t s c holds open_k here (omega arith) maps in
      let next = st.kept t holds in
      let (s₂, f, wr) =
        write_loop-Wrote size n (suc x) (suc i) next.0 s₁ (st.same_size ∙ z) st.counted next.1
          st.opened (λ a l. subst (λ m. a / size < m) (sym st.same_length) (covers a (omega arith)))
          (omega arith) (λ m. ap (λ (o : Os). o.mmap_fails m) st.same_os ∙ maps m) in
      (s₂, rw e f, Wrote-later size x n i s s₁ s₂ z st wr)
