-- ===== src/Fs/Chain.antt =====
-- Chains of blocks in the allocation table of Project5/fs.c, and the loop of `fs_delete` that
-- frees one.
use ec440_projects.Prelude.{
  ℕ, zero, suc, ◌+◌, ◌≤◌, ◌<◌, ◌≡◌, ◌⊎◌, inl, inr, refl, ap, true, false, List, [], ◌∷◌, ℤ, pos,
  minus_one, arith, eqb_ℤ, ◌==◌, has, update, length, if◌then◌else◌, Bool-cases, fun_ext,
}
use ec440_projects.Run.{done, fault}
use ec440_projects.Disk.{disk_blocks}
use ec440_projects.Fs.Table.{free_chain}

-- The entries that are not free, among the first `n`.
abbrev pub weight : ℤ → ℕ
weight v = if eqb_ℤ v (pos 0) then 0 else 1

pub taken : (ℕ → ℤ) → ℕ → ℕ
taken fat zero = 0
taken fat (suc n) = weight (fat n) + taken fat n

pub taken-le : (fat : ℕ → ℤ) (n : ℕ) → taken fat n ≤ n
unfolding taken
taken-le fat zero = omega arith
taken-le fat (suc n) = ground (arith, taken-le fat n)

taken-update-ge : (fat : ℕ → ℤ) (n b : ℕ) (v : ℤ) → n ≤ b → taken (update fat b v) n ≡ taken fat n
unfolding taken
taken-update-ge fat zero b v h = refl
taken-update-ge fat (suc n) b v h = ground (arith, taken-update-ge fat n b v)

taken-update :
    (fat : ℕ → ℤ) (n b : ℕ) (v : ℤ)
    → b < n
    → taken (update fat b v) n + weight (fat b) ≡ taken fat n + weight v
unfolding taken
taken-update fat zero b v h = elim h [ ]
taken-update fat (suc n) b v h = elim (Bool-cases (b == n)) [
  | inl e ↦
      let same : b ≡ n = ground arith in ground (arith, taken-update-ge fat n b v, ap fat same)
  | inr e ↦ ground (arith, taken-update fat n b v)
]

-- Freeing a block that is taken lowers the count by one.
pub taken-free :
    (fat : ℕ → ℤ) (n b : ℕ)
    → b < n
    → eqb_ℤ (fat b) (pos 0) ≡ false
    → suc (taken (update fat b (pos 0)) n) ≡ taken fat n
taken-free fat n b h e = ground (arith, taken-update fat n b (pos 0))

-- The table links `k` through the blocks of the list to the end mark. Block 0 holds the super
-- block, and is in no chain.
abbrev pub Chain : (ℕ → ℤ) → ℤ → List ℕ → Type 0
Chain fat k [] = k ≡ minus_one
Chain fat k (b ∷ bs) = (k ≡ pos b) × (0 < b) × (b < disk_blocks) × Chain fat (fat b) bs

-- Two chains from one index are the same.
Chain-unique : (fat : ℕ → ℤ) (k : ℤ) (bs cs : List ℕ) → Chain fat k bs → Chain fat k cs → bs ≡ cs
Chain-unique fat k [] [] p q = refl
Chain-unique fat k [] (c ∷ cs) p q = cc
Chain-unique fat k (b ∷ bs) [] p q = cc
Chain-unique fat k (b ∷ bs) (c ∷ cs) (e, _, _, p) (f, _, _, q) =
    let same : b ≡ c = ground arith in
    let q' : Chain fat (fat b) cs = rw same q in cc (same, Chain-unique fat (fat b) bs cs p q')

-- The rest of a chain from one of its blocks on is a chain, and no longer.
Chain-suffix :
    (fat : ℕ → ℤ) (k : ℤ) (bs : List ℕ) (b : ℕ)
    → Chain fat k bs
    → has b bs ≡ true
    → (cs : List ℕ) × Chain fat (pos b) cs × (length cs ≤ length bs)
Chain-suffix fat k [] b p m = cc
Chain-suffix fat k (x ∷ bs) b p m = elim (Bool-cases (b == x)) [
  | inl e ↦ let same : b ≡ x = ground arith in (b ∷ bs, rw same (refl, p.1, p.2, p.3), omega arith)
  | inr e ↦ later (Chain-suffix fat (fat x) bs b p.3 (ground arith))
]
  where
    later :
        (cs : List ℕ) × Chain fat (pos b) cs × (length cs ≤ length bs)
        → (cs : List ℕ) × Chain fat (pos b) cs × (length cs ≤ suc (length bs))
    later (cs, c, h) = (cs, c, omega arith)

-- No block stands twice in a chain.
pub Chain-distinct :
    (fat : ℕ → ℤ) (k : ℤ) (b : ℕ) (bs : List ℕ) → Chain fat k (b ∷ bs) → has b bs ≡ false
Chain-distinct fat k b bs p = elim (Bool-cases (has b bs)) [
  | inr e ↦ e
  | inl e ↦ absurd (clash (Chain-suffix fat (fat b) bs b p.3 e))
]
  where
    clash : (cs : List ℕ) × Chain fat (pos b) cs × (length cs ≤ length bs) → ⊥
    clash (cs, c, h) =
        omega (arith, ap length (Chain-unique fat (pos b) cs (b ∷ bs) c (refl, p.1, p.2, p.3)))

-- A write outside a chain keeps it.
pub Chain-update :
    (fat : ℕ → ℤ) (k : ℤ) (bs : List ℕ) (b : ℕ) (v : ℤ)
    → has b bs ≡ false
    → Chain fat k bs
    → Chain (update fat b v) k bs
Chain-update fat k [] b v out p = p
Chain-update fat k (x ∷ bs) b v out p =
    let e : update fat b v x ≡ fat x = ground arith in
    (p.0, p.1, p.2, rw e (Chain-update fat (fat x) bs b v (ground arith) p.3))

-- The table with the blocks of a list freed.
abbrev pub freed : List ℕ → (ℕ → ℤ) → ℕ → ℤ
freed bs fat j = if has j bs then pos 0 else fat j

freed-update :
    (fat : ℕ → ℤ) (b : ℕ) (bs : List ℕ) → freed bs (update fat b (pos 0)) ≡ freed (b ∷ bs) fat
freed-update fat b bs = fun_ext (λ j. ground arith)

pub Chain-pos : (fat : ℕ → ℤ) (k : ℤ) (bs : List ℕ) → Chain fat k bs → eqb_ℤ k (pos 0) ≡ false
Chain-pos fat k [] p = ground arith
Chain-pos fat k (b ∷ bs) p = ground arith

pub free_chain-step :
    (fuel : ℕ) (fat : ℕ → ℤ) (b : ℕ) (bs : List ℕ)
    → Chain fat (pos b) (b ∷ bs)
    → taken fat disk_blocks < fuel
    → free_chain fuel (pos b) fat ≡ done (true, freed (b ∷ bs) fat)
unfolding free_chain
free_chain-step zero fat b bs p h = elim h [ ]
free_chain-step (suc fuel) fat b [] p h = ground (arith, freed-update fat b [])
free_chain-step (suc fuel) fat b (c ∷ bs) p h =
    let out : has b (c ∷ bs) ≡ false = Chain-distinct fat (pos b) b (c ∷ bs) p in
    let rest : Chain (update fat b (pos 0)) (pos c) (c ∷ bs) =
      Chain-update fat (pos c) (c ∷ bs) b (pos 0) out (refl, p.3.1, p.3.2, p.3.3) in
    let fewer = taken-free fat disk_blocks b p.2 (Chain-pos fat (fat b) (c ∷ bs) p.3) in
    ground (
      arith,
      free_chain-step fuel (update fat b (pos 0)) c bs rest,
      fewer,
      p.3.0,
      freed-update fat b (c ∷ bs),
    )

-- The blocks of a chain are taken.
Chain-taken :
    (fat : ℕ → ℤ) (k : ℤ) (bs : List ℕ) (b : ℕ)
    → Chain fat k bs
    → has b bs ≡ true
    → eqb_ℤ (fat b) (pos 0) ≡ false
Chain-taken fat k [] b p m = cc
Chain-taken fat k (x ∷ bs) b p m = elim (Bool-cases (b == x)) [
  | inl e ↦ let same : b ≡ x = ground arith in rw same (Chain-pos fat (fat x) bs p.3)
  | inr e ↦ Chain-taken fat (fat x) bs b p.3 (ground arith)
]

-- A free block is in no chain.
pub Chain-free :
    (fat : ℕ → ℤ) (k : ℤ) (bs : List ℕ) (b : ℕ) → Chain fat k bs → fat b ≡ pos 0 → has b bs ≡ false
Chain-free fat k bs b p e = elim (Bool-cases (has b bs)) [
  | inr out ↦ out
  | inl m ↦ absurd (ground (arith, Chain-taken fat k bs b p m))
]

-- Freeing the blocks of one list keeps a chain that has none of them.
pub Chain-freed :
    (fat : ℕ → ℤ) (k : ℤ) (bs cs : List ℕ)
    → ((b : ℕ) → has b bs ≡ true → has b cs ≡ false)
    → Chain fat k bs
    → Chain (freed cs fat) k bs
Chain-freed fat k [] cs apart p = p
Chain-freed fat k (x ∷ bs) cs apart p =
    let out : has x cs ≡ false = apart x (ground arith) in
    (p.0, p.1, p.2, rw out (Chain-freed fat (fat x) bs cs (λ b m. apart b (ground arith)) p.3))

-- The loop at the first blocks that an entry of no file may have.
pub free_chain-idle :
    (fuel : ℕ) (k : ℤ) (fat : ℕ → ℤ)
    → fat 0 ≡ pos 0
    → (k ≡ minus_one) ⊎ (k ≡ pos 0)
    → (free_chain (suc fuel) k fat ≡ fault) ⊎ (free_chain (suc fuel) k fat ≡ done (false, fat))
unfolding free_chain
free_chain-idle fuel k fat e (inl h) = inl (rw h)
free_chain-idle fuel k fat e (inr h) = inr (rw h (ground arith))
