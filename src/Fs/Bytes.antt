-- ===== src/Fs/Bytes.antt =====
-- How Project5/fs.c lays its tables out in blocks, by `memcpy` of the structures: the bytes of an
-- `int`, of the super block, of a directory entry and of the allocation table, lowest byte first.
use ec440_projects.Prelude.{
  ℕ, zero, suc, ◌+◌, ◌-◌, ◌*◌, ◌/◌, ◌%◌, ◌^◌, not, Option, none, some, [], ◌∷◌, ℤ, pos, negsuc, ltb,
  eqb_ℤ, ◌==◌, CString, memcpy, to_int, to_unsigned, if◌then◌else◌,
}
use ec440_projects.Fs.{SuperBlock, DirEntry}
use ec440_projects.Fs.Data.{Buffer}

-- The four bytes of an `int`.
abbrev pub int_bytes : ℤ → Buffer
int_bytes v j = to_unsigned 32 v / 256 ^ j % 256

abbrev pub put_int : Buffer → ℕ → ℤ → Buffer
put_int b at v = memcpy b at (int_bytes v) 0 4

abbrev pub get_int : Buffer → ℕ → ℤ
get_int b at = to_int (b at + 256 * b (at + 1) + 65536 * b (at + 2) + 16777216 * b (at + 3))

-- The fields of a `super_block`, in their order.
abbrev pub super_field : SuperBlock → ℕ → ℕ
super_field sb zero = sb.fat_idx
super_field sb (suc zero) = sb.fat_len
super_field sb (suc (suc zero)) = sb.dir_idx
super_field sb (suc (suc (suc zero))) = sb.dir_len
super_field sb (suc (suc (suc (suc n)))) = sb.data_idx

abbrev pub super_size : ℕ
super_size = 20

abbrev pub super_bytes : SuperBlock → Buffer
super_bytes sb p = int_bytes (pos (super_field sb (p / 4))) (p % 4)

-- A number that is not negative, as all numbers of a super block are.
abbrev pub natural : ℤ → Option ℕ
natural (pos n) = some n
natural (negsuc n) = none

abbrev pub and_then? : {A : Type 0} → Option ℕ → (ℕ → Option A) → Option A
and_then? none f = none
and_then? (some n) f = f n

-- None where a number is negative; the model goes no further there.
abbrev pub get_super : Buffer → Option SuperBlock
get_super b = and_then? (natural (get_int b 0)) λ fat_idx.
    and_then? (natural (get_int b 4)) λ fat_len. and_then? (natural (get_int b 8)) λ dir_idx.
      and_then? (natural (get_int b 12)) λ dir_len. and_then? (natural (get_int b 16)) λ data_idx.
        some (record {
          fat_idx = fat_idx;
          fat_len = fat_len;
          dir_idx = dir_idx;
          dir_len = dir_len;
          data_idx = data_idx;
        })

-- The `MAX_F_NAME + 1` bytes of a name: the string, its terminator, and what stood there before.
abbrev pub name_size : ℕ
name_size = 16

abbrev pub name_bytes : Buffer → CString → Buffer
name_bytes pad [] zero = 0
name_bytes pad [] (suc j) = pad j
name_bytes pad (c ∷ cs) zero = c
name_bytes pad (c ∷ cs) (suc j) = name_bytes pad cs j

-- The string in `n` bytes; none where it has no terminator there.
abbrev pub get_name : Buffer → ℕ → ℕ → Option CString
get_name b at zero = none
get_name b at (suc n) =
    let rest = get_name b (at + 1) n in
    if b at == 0 then some [] else elim rest [ none ↦ none | some cs ↦ some (b at ∷ cs) ]

abbrev pub entry_size : ℕ
entry_size = 32

-- `used`, `name`, `size`, `head` and `ref_cnt`.
abbrev pub entry_bytes : Buffer → DirEntry → Buffer
entry_bytes pad e p =
    if ltb p 4
    then int_bytes (if e.used then pos 1 else pos 0) p
    else if ltb p 20
    then name_bytes pad e.name (p - 4)
    else if ltb p 24
    then int_bytes e.size (p - 20)
    else if ltb p 28
    then int_bytes e.head (p - 24)
    else int_bytes e.ref_cnt (p - 28)

abbrev pub entry_with : Buffer → ℕ → Option CString → Option DirEntry
entry_with b at none = none
entry_with b at (some name) = some (record {
  used = not (eqb_ℤ (get_int b at) (pos 0));
  name = name;
  size = get_int b (at + 20);
  head = get_int b (at + 24);
  ref_cnt = get_int b (at + 28);
})

abbrev pub get_entry : Buffer → ℕ → Option DirEntry
get_entry b at = entry_with b at (get_name b (at + 4) name_size)
