-- ===== src/Tls/Ops.antt =====
-- The functions of Project4/tls.c. `tid` is what `pthread_self` returns.
use ec440_projects.Prelude.{
  ℕ, zero, suc, ◌+◌, ◌-◌, ◌/◌, ◌%◌, ◌^◌, Bool, true, false, not, Option, none, some, List, [], ◌∷◌,
  ℤ, pos, minus_one, suc_ℤ, pred_ℤ, ltb, ltb_ℤ, eqb_ℤ, ◌==◌, update, get_elem?, set, if◌then◌else◌,
}
use ec440_projects.Run.{Run, done, access, on, ◌>>=◌}
use ec440_projects.Tls.{State, Page, Tls, HashElement, hash_size, deref, hash_search, protect_all}

-- A page that `mmap` has mapped and nothing has written to.
abbrev pub zero_page : ℕ → ℕ
zero_page i = 0

abbrev pub tls_init : State → State
tls_init s =
    if s.initialized then s else record s { initialized = true; page_size = s.os.page_size }

-- The loop of `tls_create` over its pages: none where `mmap` fails.
unfoldable pub alloc_pages : ℕ → State → Option (List ℕ) × State
alloc_pages zero s = (some [], s)
alloc_pages (suc n) s =
    let s' = record s {
      next = suc s.next;
      page = update s.page s.next (some (record { address = s.next; ref_count = pos 1 }));
      memory = update s.memory s.next zero_page;
      readable = update s.readable s.next false;
    } in
    let rest = alloc_pages n s' in
    if s.os.mmap_fails s.next
    then (none, record s { next = suc s.next })
    else (elim rest.0 [ none ↦ none | some ps ↦ some (s.next ∷ ps) ], rest.1)

-- A new `TLS` for the thread, at the head of its bucket.
abbrev pub insert_tls : ℕ → Tls → State → State
insert_tls tid t s = record s {
  next = suc s.next;
  tls = update s.tls s.next (some t);
  hash_table =
      update s.hash_table (tid % hash_size)
        (record { tid = tid; tls = s.next; freed = false } ∷ s.hash_table (tid % hash_size));
}

abbrev pub pages_for : ℕ → ℕ → ℕ
pages_for size page_size = size / page_size + (if ltb 0 (size % page_size) then 1 else 0)

abbrev pub create_with : ℕ → ℕ → ℕ → Option (List ℕ) × State → ℤ × State
create_with tid size n (none, s) = (minus_one, s)
create_with tid size n (some ps, s) =
    (pos 0, insert_tls tid (record { size = size; page_num = n; pages = ps }) s)

abbrev pub is_some {ℓ} : {A : Type ℓ} → Option A → Bool
is_some none = false
is_some (some a) = true

unfoldable pub tls_create : ℕ → ℕ → State → Run (ℤ × State)
tls_create tid size s = do
  let s' = tls_init s
  on (size == 0) (done (minus_one, s')) (do
    found ← hash_search tid s'
    on (is_some found) (done (minus_one, s')) (
        done (
          create_with tid size (pages_for size s'.page_size)
            (alloc_pages (pages_for size s'.page_size) s'))))

-- One byte of a mapped page.
abbrev pub store_byte : ℕ → ℕ → ℕ → State → Run State
store_byte address i byte s = do
  a ← access (s.readable address) address
  done (record s { memory = update s.memory a (update (s.memory a) i byte) })

-- A private copy of page `p` for slot `w` of the thread's storage; the shared page is protected.
abbrev pub copied : ℕ → Tls → ℕ → ℕ → Page → State → State
copied k t w p page s = record s {
  next = suc s.next;
  page =
      update (update s.page p (some (record page { ref_count = pred_ℤ page.ref_count }))) s.next
        (some (record { address = s.next; ref_count = pos 1 }));
  memory = update s.memory s.next (s.memory page.address);
  readable = update (update s.readable page.address false) s.next true;
  tls = update s.tls k (some (record t { pages = set t.pages w s.next }));
}

-- The body of the loop of `tls_write`. An index past the largest `int` is a fault.
unfoldable pub write_byte : ℕ → ℕ → ℕ → State → Run State
write_byte k index byte s = do
  t ← deref (s.tls k)
  indx ← access (ltb index (2 ^ 31)) index
  p ← deref (get_elem? t.pages (indx / s.page_size))
  page ← deref (s.page p)
  on (ltb_ℤ (pos 1) page.ref_count)
      (do
        from ← access (s.readable page.address) page.address
        new ← access (not (s.os.mmap_fails s.next)) s.next
        store_byte new (indx % s.page_size) byte (copied k t (indx / s.page_size) p page s))
      (store_byte page.address (indx % s.page_size) byte s)

unfoldable pub write_loop : ℕ → ℕ → ℕ → ℕ → (ℕ → ℕ) → State → Run State
write_loop zero k indx i buffer s = done s
write_loop (suc n) k indx i buffer s = do
  s' ← write_byte k indx (buffer i) s
  write_loop n k (suc indx) (suc i) buffer s'

-- `offset + length` of two `unsigned int`.
abbrev pub end_of : ℕ → ℕ → ℕ
end_of offset length = (offset + length) % 2 ^ 32

abbrev pub write_to : ℕ → ℕ → ℕ → (ℕ → ℕ) → State → Run (ℤ × State)
write_to k offset length buffer s = do
  t ← deref (s.tls k)
  on (ltb t.size (end_of offset length)) (done (minus_one, s)) (do
    unprotected ← protect_all true t.pages s
    after ← write_loop (end_of offset length - offset) k offset 0 buffer unprotected
    t' ← deref (after.tls k)
    protected ← protect_all false t'.pages after
    done (pos 0, protected))

unfoldable pub tls_write : ℕ → ℕ → ℕ → (ℕ → ℕ) → State → Run (ℤ × State)
tls_write tid offset length buffer s = do
  found ← hash_search tid s
  elim found [ none ↦ done (minus_one, s) | some k ↦ write_to k offset length buffer s ]

unfoldable pub read_byte : Tls → ℕ → State → Run ℕ
read_byte t index s = do
  indx ← access (ltb index (2 ^ 31)) index
  p ← deref (get_elem? t.pages (indx / s.page_size))
  page ← deref (s.page p)
  a ← access (s.readable page.address) page.address
  done (s.memory a (indx % s.page_size))

unfoldable pub read_loop : ℕ → Tls → ℕ → ℕ → (ℕ → ℕ) → State → Run (ℕ → ℕ)
read_loop zero t indx i buffer s = done buffer
read_loop (suc n) t indx i buffer s = do
  byte ← read_byte t indx s
  read_loop n t (suc indx) (suc i) (update buffer i byte) s

abbrev pub read_from : ℕ → ℕ → ℕ → (ℕ → ℕ) → State → Run (ℤ × (ℕ → ℕ) × State)
read_from k offset length buffer s = do
  t ← deref (s.tls k)
  on (ltb t.size (end_of offset length)) (done (minus_one, buffer, s)) (do
    unprotected ← protect_all true t.pages s
    out ← read_loop (end_of offset length - offset) t offset 0 buffer unprotected
    protected ← protect_all false t.pages unprotected
    done (pos 0, out, protected))

unfoldable pub tls_read : ℕ → ℕ → ℕ → (ℕ → ℕ) → State → Run (ℤ × (ℕ → ℕ) × State)
tls_read tid offset length buffer s = do
  found ← hash_search tid s
  elim found [ none ↦ done (minus_one, buffer, s) | some k ↦ read_from k offset length buffer s ]

-- The loop of `tls_destroy` over its pages: the last reference frees a page.
unfoldable pub release_pages : List ℕ → State → Run State
release_pages [] s = done s
release_pages (p ∷ ps) s = do
  page ← deref (s.page p)
  let next =
      if eqb_ℤ page.ref_count (pos 1)
      then record s { page = update s.page p none; readable = update s.readable page.address false }
      else if ltb_ℤ (pos 1) page.ref_count
      then record s {
        page = update s.page p (some (record page { ref_count = pred_ℤ page.ref_count }));
      }
      else s
  release_pages ps next

-- The element of the thread taken out behind another one.
abbrev pub remove_after : ℕ → List HashElement → List HashElement
remove_after tid [] = []
remove_after tid (e ∷ es) = if e.tid == tid then es else e ∷ remove_after tid es

-- The bucket after the element was freed: the first element is freed where it stands.
abbrev pub unlink : ℕ → List HashElement → List HashElement
unlink tid [] = []
unlink tid (e ∷ es) =
    if e.tid == tid then record e { freed = true } ∷ es else e ∷ remove_after tid es

unfoldable pub tls_destroy : ℕ → State → Run (ℤ × State)
tls_destroy tid s = do
  found ← hash_search tid s
  elim found [
    | none ↦ done (minus_one, s)
    | some k ↦ do
      t ← deref (s.tls k)
      released ← release_pages t.pages s
      done (
        pos 0,
        record released {
          tls = update released.tls k none;
          hash_table =
              update released.hash_table (tid % hash_size)
                (unlink tid (released.hash_table (tid % hash_size)));
        },
      )
  ]

-- The loop of `tls_clone`: one more reference to each page.
unfoldable pub share_pages : List ℕ → State → Run State
share_pages [] s = done s
share_pages (p ∷ ps) s = do
  page ← deref (s.page p)
  share_pages ps (record s {
    page = update s.page p (some (record page { ref_count = suc_ℤ page.ref_count }));
  })

abbrev pub clone_from : ℕ → Option ℕ → Option ℕ → State → Run (ℤ × State)
clone_from dst_tid (some d) src s = done (minus_one, s)
clone_from dst_tid none none s = done (minus_one, s)
clone_from dst_tid none (some k) s = do
  t ← deref (s.tls k)
  shared ← share_pages t.pages s
  done (pos 0, insert_tls dst_tid t shared)

unfoldable pub tls_clone : ℕ → ℕ → State → Run (ℤ × State)
tls_clone dst_tid tid s = do
  dst ← hash_search dst_tid s
  src ← hash_search tid s
  clone_from dst_tid dst src s
