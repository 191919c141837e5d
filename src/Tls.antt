-- ===== src/Tls.antt =====
-- Project4/tls.c: thread local storage with copy on write. Structures live on a heap: a page or a
-- `TLS` is known by its pointer, and is none before it is allocated and after it is freed. One
-- counter hands out pointers; the page that is allocated as number `n` is mapped at address `n`.
-- `mprotect` succeeds on a mapped page, and `malloc` succeeds; `Os` says which calls of `mmap` fail.
pub mod Ops
pub mod View
pub mod CopyOnWrite
pub mod Isolation
pub mod Loop
pub mod Write
pub mod Read
pub mod Errors
pub mod Clone
pub mod Destroy
mod Tests
use ec440_projects.Prelude.{
  ℕ, suc, ◌+◌, ◌/◌, ◌%◌, Bool, true, false, Option, none, some, List, [], ◌∷◌, ℤ, pos, ltb, ◌==◌,
  update, get_elem?, if◌then◌else◌,
}
use ec440_projects.Run.{Run, done, fault, access, ◌>>=◌, and_then}

abbrev pub hash_size : ℕ
hash_size = 31

pub record Page : Type 0 where
  pub address : ℕ
  pub ref_count : ℤ

-- `pages` holds `page_num` pointers.
pub record Tls : Type 0 where
  pub size : ℕ
  pub page_num : ℕ
  pub pages : List ℕ

-- An element of a bucket; `freed` marks one that was freed and not unlinked.
pub record HashElement : Type 0 where
  pub tid : ℕ
  pub tls : ℕ
  pub freed : Bool

pub record Os : Type 0 where
  pub page_size : ℕ
  pub mmap_fails : ℕ → Bool

-- The static variables, the heap, and the mapped pages with the protection of each.
pub record State : Type 0 where
  pub os : Os
  pub initialized : Bool
  pub page_size : ℕ
  pub hash_table : ℕ → List HashElement
  pub tls : ℕ → Option Tls
  pub page : ℕ → Option Page
  pub memory : ℕ → ℕ → ℕ
  pub readable : ℕ → Bool
  pub next : ℕ

-- `*p` for a pointer into the heap.
abbrev pub deref {ℓ} : {A : Type ℓ} → Option A → Run A
deref none = fault
deref (some a) = done a

-- The elements of a bucket up to the one of the thread: the pointer to its `TLS`.
unfoldable pub search_bucket : ℕ → List HashElement → Run (Option ℕ)
search_bucket tid [] = done none
search_bucket tid (e ∷ es) =
    if e.freed then fault else if e.tid == tid then done (some e.tls) else search_bucket tid es

unfoldable pub hash_search : ℕ → State → Run (Option ℕ)
unfolding search_bucket
hash_search tid s = search_bucket tid (s.hash_table (tid % hash_size))

-- The loops that call `tls_unprotect` and `tls_protect` on every page.
unfoldable pub protect_all : Bool → List ℕ → State → Run State
protect_all readable [] s = done s
protect_all readable (p ∷ ps) s = do
  page ← deref (s.page p)
  protect_all readable ps (record s { readable = update s.readable page.address readable })
