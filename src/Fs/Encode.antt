-- ===== src/Fs/Encode.antt =====
-- Reading back what Project5/fs.c lays out in a buffer.
use ec440_projects.Prelude.{
  ℕ, zero, suc, ◌+◌, ◌-◌, ◌*◌, ◌/◌, ◌%◌, ◌^◌, ◌≤◌, ◌<◌, ◌≡◌, ◌≢◌, refl, ap, subst, ◌∙◌, Bool, true,
  false, not, some, [], ◌∷◌, ℤ, pos, negsuc, ltb, eqb_ℤ, ◌==◌, arith, CString, length, get_elem?,
  to_int, to_unsigned, if◌then◌else◌,
}
use ec440_projects.Fs.{SuperBlock, DirEntry}
use ec440_projects.Fs.Data.{Buffer}
use ec440_projects.Fs.Bytes.{
  int_bytes, get_int, super_field, super_bytes, get_super, name_bytes, name_size, get_name,
  entry_bytes, get_entry,
}

-- The values of a 32-bit `int`.
abbrev pub IsInt : ℤ → Type 0
IsInt (pos n) = n < 2 ^ 31
IsInt (negsuc n) = n < 2 ^ 31

pub to_int-unsigned : (v : ℤ) → IsInt v → to_int (to_unsigned 32 v) ≡ v
to_int-unsigned (pos n) h = ground arith
to_int-unsigned (negsuc n) h = ground arith

assemble :
    (u : ℕ)
    → u < 2 ^ 32
    → u % 256 + 256 * (u / 256 % 256) + 65536 * (u / 65536 % 256) + 16777216 * (u / 16777216 % 256)
      ≡ u
assemble u h = omega arith

to_unsigned-lt : (v : ℤ) → to_unsigned 32 v < 2 ^ 32
to_unsigned-lt (pos n) = omega arith
to_unsigned-lt (negsuc n) = omega arith

-- The four bytes at `at` are those of `v`.
abbrev pub HoldsInt : Buffer → ℕ → ℤ → Type 0
HoldsInt b at v = (j : ℕ) → j < 4 → b (at + j) ≡ int_bytes v j

pub get_int-HoldsInt : (b : Buffer) (at : ℕ) (v : ℤ) → IsInt v → HoldsInt b at v → get_int b at ≡ v
get_int-HoldsInt b at v i h =
    ap to_int (
      omega (
        arith,
        start,
        h 0 (omega arith),
        h 1 (omega arith),
        h 2 (omega arith),
        h 3 (omega arith),
        u,
        assemble (to_unsigned 32 v) u,
      ))
    ∙ to_int-unsigned v i
  where
    start : b at ≡ b (at + 0)
    start = ap b (omega arith)

    u : to_unsigned 32 v < 2 ^ 32
    u = to_unsigned-lt v

-- A name that the directory can hold: shorter than its field, without a zero byte.
pub record IsName (cs : CString) : Type 0 where
  pub short : length cs < name_size
  pub bytes : (i : ℕ) (c : ℕ) → get_elem? cs i ≡ some c → c ≢ 0

get_name-bytes :
    (n : ℕ) (cs : CString) (pad b : Buffer) (at : ℕ)
    → length cs < n
    → ((i : ℕ) (c : ℕ) → get_elem? cs i ≡ some c → c ≢ 0)
    → ((j : ℕ) → j < n → b (at + j) ≡ name_bytes pad cs j)
    → get_name b at n ≡ some cs
get_name-bytes zero cs pad b at l z h = absurd (omega arith)
get_name-bytes (suc n) [] pad b at l z h =
    let e : b at ≡ 0 = ap b (omega arith) ∙ h 0 (omega arith) in rw e refl
get_name-bytes (suc n) (c ∷ cs) pad b at l z h =
    let e : b at ≡ c = ap b (omega arith) ∙ h 0 (omega arith) in
    let o : (b at == 0) ≡ false = ground (arith, z 0 c refl, e) in
    let rest : get_name b (at + 1) n ≡ some cs =
      get_name-bytes n cs pad b (at + 1) (omega arith) (λ i d g. z (suc i) d g)
        (λ j k. ap b (omega arith) ∙ h (suc j) (omega arith)) in
    rw (o, rest, e)

-- An entry that fits its 32 bytes.
pub record IsEntry (e : DirEntry) : Type 0 where
  pub name : IsName e.name
  pub size : IsInt e.size
  pub head : IsInt e.head
  pub ref_cnt : IsInt e.ref_cnt

abbrev pub HoldsEntry : Buffer → Buffer → ℕ → DirEntry → Type 0
HoldsEntry pad b at e = (p : ℕ) → p < 32 → b (at + p) ≡ entry_bytes pad e p

-- An `int` among the bytes of an entry.
entry_int :
    (pad b : Buffer) (at o : ℕ) (e : DirEntry) (v : ℤ)
    → HoldsEntry pad b at e
    → o + 4 ≤ 32
    → IsInt v
    → ((j : ℕ) → j < 4 → entry_bytes pad e (o + j) ≡ int_bytes v j)
    → get_int b (at + o) ≡ v
entry_int pad b at o e v h l i f =
    get_int-HoldsInt b (at + o) v i (λ j k. ap b (omega arith) ∙ h (o + j) (omega arith) ∙ f j k)

pub get_entry-HoldsEntry :
    (pad b : Buffer) (at : ℕ) (e : DirEntry)
    → IsEntry e
    → HoldsEntry pad b at e
    → get_entry b at ≡ some e
get_entry-HoldsEntry pad b at e i h = rw (name, used, size, head, refs) refl
  where
    name : get_name b (at + 4) 16 ≡ some e.name
    name = get_name-bytes 16 e.name pad b (at + 4) i.name.short i.name.bytes λ j l.
        let lo : ltb (4 + j) 4 ≡ false = ground arith in
        let hi : ltb (4 + j) 20 ≡ true = ground arith in
        let at_j : 4 + j - 4 ≡ j = omega arith in
        ap b (omega arith) ∙ h (4 + j) (omega arith) ∙ rw (lo, hi, at_j)

    flag : Bool → ℤ
    flag u = if u then pos 1 else pos 0

    flag-IsInt : (u : Bool) → IsInt (if u then pos 1 else pos 0)
    flag-IsInt true = omega arith
    flag-IsInt false = omega arith

    is_set : (u : Bool) → not (eqb_ℤ (if u then pos 1 else pos 0) (pos 0)) ≡ u
    is_set true = refl
    is_set false = refl

    used : not (eqb_ℤ (get_int b at) (pos 0)) ≡ e.used
    used =
        let v : get_int b (at + 0) ≡ (if e.used then pos 1 else pos 0) =
          entry_int pad b at 0 e (if e.used then pos 1 else pos 0) h (omega arith)
            (flag-IsInt e.used)
            (λ j l.
              let lo : ltb (0 + j) 4 ≡ true = ground arith in
              let z : 0 + j ≡ j = omega arith in rw (lo, z)) in
        let z : at + 0 ≡ at = omega arith in
        let w : get_int b at ≡ (if e.used then pos 1 else pos 0) =
          subst (λ a. get_int b a ≡ (if e.used then pos 1 else pos 0)) z v in
        ap (λ x. not (eqb_ℤ x (pos 0))) w ∙ is_set e.used

    size : get_int b (at + 20) ≡ e.size
    size = entry_int pad b at 20 e e.size h (omega arith) i.size λ j l.
        let a : ltb (20 + j) 4 ≡ false = ground arith in
        let c : ltb (20 + j) 20 ≡ false = ground arith in
        let d : ltb (20 + j) 24 ≡ true = ground arith in
        let z : 20 + j - 20 ≡ j = omega arith in rw (a, c, d, z)

    head : get_int b (at + 24) ≡ e.head
    head = entry_int pad b at 24 e e.head h (omega arith) i.head λ j l.
        let a : ltb (24 + j) 4 ≡ false = ground arith in
        let c : ltb (24 + j) 20 ≡ false = ground arith in
        let d : ltb (24 + j) 24 ≡ false = ground arith in
        let f : ltb (24 + j) 28 ≡ true = ground arith in
        let z : 24 + j - 24 ≡ j = omega arith in rw (a, c, d, f, z)

    refs : get_int b (at + 28) ≡ e.ref_cnt
    refs = entry_int pad b at 28 e e.ref_cnt h (omega arith) i.ref_cnt λ j l.
        let a : ltb (28 + j) 4 ≡ false = ground arith in
        let c : ltb (28 + j) 20 ≡ false = ground arith in
        let d : ltb (28 + j) 24 ≡ false = ground arith in
        let f : ltb (28 + j) 28 ≡ false = ground arith in
        let z : 28 + j - 28 ≡ j = omega arith in rw (a, c, d, f, z)

-- The super block: its numbers fit an `int`.
pub record IsSuper (sb : SuperBlock) : Type 0 where
  pub fat_idx : sb.fat_idx < 2 ^ 31
  pub fat_len : sb.fat_len < 2 ^ 31
  pub dir_idx : sb.dir_idx < 2 ^ 31
  pub dir_len : sb.dir_len < 2 ^ 31
  pub data_idx : sb.data_idx < 2 ^ 31

pub get_super-bytes :
    (b : Buffer) (sb : SuperBlock)
    → IsSuper sb
    → ((p : ℕ) → p < 20 → b p ≡ super_bytes sb p)
    → get_super b ≡ some sb
get_super-bytes b sb i h =
    rw
      (
        field 0 sb.fat_idx 0 refl (omega arith) i.fat_idx refl,
        field 4 sb.fat_len 1 refl (omega arith) i.fat_len refl,
        field 8 sb.dir_idx 2 refl (omega arith) i.dir_idx refl,
        field 12 sb.dir_len 3 refl (omega arith) i.dir_len refl,
        field 16 sb.data_idx 4 refl (omega arith) i.data_idx refl,
      )
      refl
  where
    field :
        (o n k : ℕ) → o ≡ 4 * k → k < 5 → n < 2 ^ 31 → super_field sb k ≡ n → get_int b o ≡ pos n
    field o n k at l fits is = get_int-HoldsInt b o (pos n) fits λ j m.
        let q : (o + j) / 4 ≡ k = omega arith in
        let r : (o + j) % 4 ≡ j = omega arith in h (o + j) (omega arith) ∙ rw (q, r, is)
