-- ===== src/Tls/Tests.antt =====
-- The theorems about Project4/tls.c at two threads that share a page of four bytes.
use ec440_projects.Prelude.{
  ℕ, zero, suc, ◌+◌, ◌≤◌, ◌<◌, ◌≡◌, refl, Bool, true, false, Option, none, some, List, [], ◌∷◌, pos,
  ◌==◌, arith, get_elem?, if◌then◌else◌,
}
use ec440_projects.Run.{done, fault}
use ec440_projects.Tls.{State, Page, Tls, HashElement, hash_search}
use ec440_projects.Tls.Ops.{tls_write, tls_read, tls_destroy, tls_clone}
use ec440_projects.Tls.View.{IsCounted, pages_of, owners, count}
use ec440_projects.Tls.Loop.{Covers}
use ec440_projects.Tls.Write.{Written, tls_write-Written}
use ec440_projects.Tls.Read.{tls_read-tls_write}
use ec440_projects.Tls.Clone.{Cloned, tls_clone-Cloned}
use ec440_projects.Tls.Destroy.{tls_destroy-dangling}
use ec440_projects.Tls.Errors.{tls_write-wraps}

abbrev storage : Tls
storage = record { size = 4; page_num = 1; pages = 0 ∷ [] }

-- Pointers 1 and 2 are the storages of threads 40 and 41, which share page 0.
abbrev storages : ℕ → Option Tls
storages zero = none
storages (suc zero) = some storage
storages (suc (suc zero)) = some storage
storages (suc (suc (suc n))) = none

abbrev shared_page : Page
shared_page = record { address = 0; ref_count = pos 2 }

abbrev page_heap : ℕ → Option Page
page_heap zero = some shared_page
page_heap (suc n) = none

abbrev bucket : ℕ → List HashElement
bucket i =
    if i == 9
    then record { tid = 40; tls = 1; freed = false } ∷ []
    else if i == 10
    then record { tid = 41; tls = 2; freed = false } ∷ []
    else []

abbrev cloned : State
cloned = record {
  os = record { page_size = 4; mmap_fails = λ n. false };
  initialized = true;
  page_size = 4;
  hash_table = bucket;
  tls = storages;
  page = page_heap;
  memory = λ p i. i;
  readable = λ p. false;
  next = 3;
}

only_slot : (k w p : ℕ) → get_elem? (pages_of (storages k)) w ≡ some p → (w ≡ 0) × (p ≡ 0)
only_slot zero w p h = cc
only_slot (suc zero) zero p h = (refl, cc)
only_slot (suc zero) (suc w) p h = cc
only_slot (suc (suc zero)) zero p h = (refl, cc)
only_slot (suc (suc zero)) (suc w) p h = cc
only_slot (suc (suc (suc k))) w p h = cc

cloned-IsCounted : IsCounted cloned
unfolding owners count
cloned-IsCounted = record {
  sized = omega arith;
  fresh_tls = fresh_tls;
  fresh_page = fresh_page;
  backed = λ k w p h. let e = (only_slot k w p h).1 in (shared_page, rw e refl);
  distinct = λ k v w p a b. let e = (only_slot k v p a).0 in let f = (only_slot k w p b).0 in cc;
  counts = counts;
}
  where
    fresh_tls : (k : ℕ) → 3 ≤ k → storages k ≡ none
    fresh_tls zero l = absurd (omega arith)
    fresh_tls (suc zero) l = absurd (omega arith)
    fresh_tls (suc (suc zero)) l = absurd (omega arith)
    fresh_tls (suc (suc (suc k))) l = refl

    fresh_page : (p : ℕ) → 3 ≤ p → page_heap p ≡ none
    fresh_page zero l = absurd (omega arith)
    fresh_page (suc p) l = refl

    counts :
        (p : ℕ) (page : Page)
        → page_heap p ≡ some page
        → (page.address ≡ p) × (page.ref_count ≡ pos (owners p storages 3))
    counts zero page e = let f : page ≡ shared_page = cc in rw f (refl, refl)
    counts (suc p) page e = cc

covered : Covers 4 cloned 1 4
covered a l = omega arith

found : hash_search 40 cloned ≡ done (some 1)
unfolding hash_search
found = refl

lost : hash_search 42 cloned ≡ done none
unfolding hash_search
lost = refl

abbrev text : ℕ → ℕ
text i = i + 65

tls_write-Written_example :
    (s' : State) × (tls_write 40 1 2 text cloned ≡ done (pos 0, s')) × Written cloned 1 1 2 text s'
tls_write-Written_example =
    tls_write-Written 40 1 1 2 text storage cloned cloned-IsCounted found refl covered (omega arith)
      (omega arith) (λ m. refl)

tls_read-tls_write_example :
    (s' s'' : State) × (out : ℕ → ℕ) × (tls_write 40 1 2 text cloned ≡ done (pos 0, s'))
    × (tls_read 40 1 2 text s' ≡ done (pos 0, out, s''))
    × ((m : ℕ) → m < 2 → out m ≡ text m)
tls_read-tls_write_example =
    tls_read-tls_write 40 1 1 2 text text storage cloned cloned-IsCounted found refl covered
      (omega arith) (omega arith) (λ m. refl)

tls_write-wraps_example :
    (readable : ℕ → Bool) × (tls_write 40 4294967295 3 text cloned
      ≡ done (pos 0, record cloned { readable = readable }))
tls_write-wraps_example =
    tls_write-wraps 40 1 4294967295 3 text storage cloned cloned-IsCounted found refl (omega arith)
      (omega arith) (omega arith) (omega arith)

tls_clone-Cloned_example :
    (s' : State) × (tls_clone 42 40 cloned ≡ done (pos 0, s')) × Cloned cloned 42 1 storage s'
tls_clone-Cloned_example = tls_clone-Cloned 42 40 1 storage cloned cloned-IsCounted lost found refl

tls_destroy-dangling_example :
    (s' : State) × (tls_destroy 40 cloned ≡ done (pos 0, s')) × (hash_search 71 s' ≡ fault)
tls_destroy-dangling_example =
    tls_destroy-dangling 40 71 (record { tid = 40; tls = 1; freed = false }) [] storage cloned
      cloned-IsCounted refl refl refl refl refl
