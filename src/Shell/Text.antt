-- ===== src/Shell/Text.antt =====
-- The string functions of C that Project 1 calls, over the buffer of a line.
use ec440_projects.Prelude.{
  ℕ, zero, suc, ◌+◌, ◌-◌, true, false, Option, none, some, ltb, ◌==◌, update, if◌then◌else◌,
}
use ec440_projects.Run.{Run, done, fault, access, ◌>>=◌}

-- `char input[512]`, and the 512 pointers that `parse_input` allocates.
abbrev pub line_size : ℕ
line_size = 512

abbrev pub Line : Type 0
Line = ℕ → ℕ

abbrev pub newline : ℕ
newline = 10

abbrev pub space : ℕ
space = 32

abbrev pub get : Line → ℕ → Run ℕ
get line p = access (ltb p line_size) (line p)

-- The first `c` of the string at `p`, in the `n` bytes that the buffer still has.
unfoldable pub scan : ℕ → Line → ℕ → ℕ → Run (Option ℕ)
scan zero line c p = fault
scan (suc n) line c p =
    let rest = scan n line c (p + 1) in
    if line p == 0 then done none else if line p == c then done (some p) else rest

-- `strpbrk` with one delimiter, and `strchr`.
abbrev pub find_char : Line → ℕ → ℕ → Run (Option ℕ)
find_char line c p = scan (line_size - p) line c p

-- `strlen`, likewise.
unfoldable pub count : ℕ → Line → ℕ → Run ℕ
count zero line p = fault
count (suc n) line p = elim (line p == 0) [
  | true ↦ done 0
  | false ↦ do k ← count n line (p + 1); done (suc k)
]

abbrev pub strlen : Line → ℕ → Run ℕ
strlen line p = count (line_size - p) line p

-- A string cut at `o`, where there is one.
abbrev pub cut : Option ℕ → Line → Line
cut none line = line
cut (some p) line = update line p 0
