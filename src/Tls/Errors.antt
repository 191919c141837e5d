-- ===== src/Tls/Errors.antt =====
-- The calls of Project4/tls.c that return -1, and a range whose end wraps around.
use ec440_projects.Prelude.{
  ℕ, ◌+◌, ◌-◌, ◌%◌, ◌^◌, ◌≤◌, ◌<◌, ◌≡◌, refl, ap, ◌∙◌, Bool, true, false, Option, none, some, pos,
  minus_one, ltb, arith,
}
use ec440_projects.Run.{done}
use ec440_projects.Tls.{State, Tls, hash_search}
use ec440_projects.Tls.Ops.{
  tls_write, tls_read, tls_destroy, tls_clone, write_loop, end_of, clone_from,
}
use ec440_projects.Tls.View.{IsCounted}
use ec440_projects.Tls.Write.{protect_all-Protected, pages-Backed, IsCounted-readable}

clone_none : (dst : ℕ) (o : Option ℕ) (s : State) → clone_from dst o none s ≡ done (minus_one, s)
clone_none dst none s = refl
clone_none dst (some d) s = refl

-- For a thread without a storage, `tls_write`, `tls_read` and `tls_destroy` return -1, and so does
-- `tls_clone` of it into any thread whose own search ends; none of them changes anything.
pub tls_refused :
    (tid offset len dst : ℕ) (o : Option ℕ) (buffer : ℕ → ℕ) (s : State)
    → hash_search tid s ≡ done none
    → hash_search dst s ≡ done o
    → (tls_write tid offset len buffer s ≡ done (minus_one, s))
      × (tls_read tid offset len buffer s ≡ done (minus_one, buffer, s))
      × (tls_destroy tid s ≡ done (minus_one, s))
      × (tls_clone dst tid s ≡ done (minus_one, s))
unfolding tls_write tls_read tls_destroy tls_clone
tls_refused tid offset len dst o buffer s h d = (rw h, rw h, rw h, rw (h, d) (clone_none dst o s))

-- Where the end of the range, as an unsigned number of 32 bits, is past the size of the storage,
-- `tls_write` and `tls_read` return -1 and change nothing.
tls_past :
    (tid k offset len : ℕ) (buffer : ℕ → ℕ) (t : Tls) (s : State)
    → hash_search tid s ≡ done (some k)
    → s.tls k ≡ some t
    → t.size < (offset + len) % 2 ^ 32
    → (tls_write tid offset len buffer s ≡ done (minus_one, s))
      × (tls_read tid offset len buffer s ≡ done (minus_one, buffer, s))
unfolding tls_write tls_read
tls_past tid k offset len buffer t s h holds past =
    let long : ltb t.size (end_of offset len) ≡ true = ground arith in
    (rw (h, holds, long), rw (h, holds, long))

-- A range that starts past the storage is accepted where its end wraps around to within the
-- storage: `tls_write` returns 0 and writes nothing.
pub tls_write-wraps :
    (tid k offset len : ℕ) (buffer : ℕ → ℕ) (t : Tls) (s : State)
    → IsCounted s
    → hash_search tid s ≡ done (some k)
    → s.tls k ≡ some t
    → offset < 2 ^ 32
    → len < 2 ^ 32
    → 2 ^ 32 ≤ offset + len
    → offset + len - 2 ^ 32 ≤ t.size
    → (readable : ℕ → Bool) × (tls_write tid offset len buffer s
        ≡ done (pos 0, record s { readable = readable }))
unfolding tls_write write_loop
tls_write-wraps tid k offset len buffer t s c h holds ol ll wraps short =
    let (s₁, e₁, pr) = protect_all-Protected true t.pages s (pages-Backed s k t c holds) in
    let opened : State = record s { readable = s₁.readable } in
    let (s₃, e₃, pr₃) =
      protect_all-Protected false t.pages opened
        (pages-Backed opened k t (IsCounted-readable s s₁.readable c) holds) in
    let end : end_of offset len ≡ offset + len - 4294967296 = omega arith in
    let fine : ltb t.size (offset + len - 4294967296) ≡ false = ground arith in
    let none_left : offset + len - 4294967296 - offset ≡ 0 = omega arith in
    (
      s₃.readable,
      rw (h, holds, end, fine, e₁ ∙ ap done pr.same, none_left, holds, e₃ ∙ ap done pr₃.same),
    )
