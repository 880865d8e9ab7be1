-- ===== src/Lex/PutBack.antt =====
-- `Next` and `PutBack` of src/lex.cpp, one after the other.
use kcc.Lex.Scanner.{Scanner, ok, ◌>>=◌, next, put_back, located}
use kcc.Location.{Location, prev_row, prev_column, next_row, next_column}
use kcc.Prelude.{
  ℕ, suc, ◌+◌, ◌-◌, ◌≤◌, true, some, ◌∷◌, ◌≡◌, refl, Bytes, length, ltb, if◌then◌else◌, ◌==◌, arith,
  Bool-cases, inl, inr,
}

-- The location that is left: `PrevRow` does not restore the begin of the line.
abbrev pub restored : ℕ → ℕ → Location → Location
restored c index l =
    if c == b'\n'
    then record l { line_begin = index; line_begin_backup = index; column_backup = l.column }
    else l

prev_column-next_column : (l : Location) → 1 ≤ l.column → prev_column (next_column l) ≡ some l
prev_column-next_column l k =
    let big : ltb 1 (l.column + 1) ≡ true = ground (arith, k) in
    let back : l.column + 1 - 1 ≡ l.column = omega arith in rw big (rw back refl)

prev_row-next_row :
    (i : ℕ) (l : Location)
    → 1 ≤ l.row
    → prev_row (next_row i l)
      ≡ some (record l { line_begin = i; line_begin_backup = i; column_backup = l.column })
prev_row-next_row i l k =
    let big : ltb 1 (l.row + 1) ≡ true = ground (arith, k) in
    let back : l.row + 1 - 1 ≡ l.row = omega arith in rw big (rw back refl)

-- `PutBack` undoes a `Next` that pushes the byte, at rows and columns counted from 1: text, index and
-- buffer are as before, and so is the location; but behind the end of a line it keeps the begin of
-- the next line, with the backups.
pub put_back-next :
    (c : ℕ) (cs : Bytes) (s : Scanner)
    → s.after ≡ c ∷ cs
    → 1 ≤ s.loc.row
    → 1 ≤ s.loc.column
    → (next true >>= λ _. put_back) s
      ≡ ok (tt, record s { loc = restored c (suc (length s.before)) s.loc })
unfolding next put_back located ◌>>=◌
put_back-next c cs s e r k = elim (Bool-cases (c == b'\n')) [
  | inl n ↦ rw e (rw n (rw (prev_row-next_row (suc (length s.before)) s.loc r) refl))
  | inr n ↦ rw e (rw n (rw (prev_column-next_column s.loc k) refl))
]
