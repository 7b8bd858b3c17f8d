-- ===== src/Sde/Parse/Lines.antt =====
-- The loops over lines: where each line is blank or read as a row, they make one pass for each row.
use erbridge_palu.Prelude.{
  ℕ, suc, ◌≡◌, refl, ◌∙◌, Option, some, List, [], ◌∷◌, Text, int_eq, pair_eq,
}
use erbridge_palu.Sde.Parse.{parsed, read_line, read_lines, trim, strip_bom}

-- The rows of the lines: a line is blank, or serde_json reads a row of it.
pub data Rows {ℓ} {R : Type ℓ} (from_str : Text → Option R)
    : List (Option Text) → List R → Type ℓ where
  nothing : Rows from_str [] []
  blank :
      {line : Text} {lines : List (Option Text)} {rows : List R}
      → strip_bom (trim line) ≡ []
      → Rows from_str lines rows
      → Rows from_str (some line ∷ lines) rows
  row :
      {line cs : Text} {c : ℕ} {lines : List (Option Text)} {r : R} {rows : List R}
      → strip_bom (trim line) ≡ c ∷ cs
      → from_str (c ∷ cs) ≡ some r
      → Rows from_str lines rows
      → Rows from_str (some line ∷ lines) (r ∷ rows)

module _ {ℓ κ} {R : Type ℓ} {S : Type κ} (from_str : Text → Option R) (pass : S → R → S) where
  -- The passes over the rows, in order.
  abbrev pub fold_rows : S → List R → S
  fold_rows s [] = s
  fold_rows s (r ∷ rs) = fold_rows (pass s r) rs

  line_blank :
      (i : ℕ) (s : S) (line : Text)
      → strip_bom (trim line) ≡ []
      → read_line from_str pass i s (some line) ≡ parsed s
  unfolding read_line
  line_blank i s line e = rw (read_line, e) refl

  line_row :
      (i : ℕ) (s : S) (line cs : Text) (c : ℕ) (r : R)
      → strip_bom (trim line) ≡ c ∷ cs
      → from_str (c ∷ cs) ≡ some r
      → read_line from_str pass i s (some line) ≡ parsed (pass s r)
  unfolding read_line
  line_row i s line cs c r e e' = rw (read_line, e, e') refl

  lines_next :
      (i : ℕ) (s s' : S) (line : Option Text) (lines : List (Option Text))
      → read_line from_str pass i s line ≡ parsed s'
      → read_lines from_str pass i s (line ∷ lines) ≡ read_lines from_str pass (suc i) s' lines
  unfolding read_lines
  lines_next i s s' line lines e = rw (read_lines, e) refl

  pub read_lines-Rows :
      (i : ℕ) (s : S) (lines : List (Option Text)) (rows : List R)
      → Rows from_str lines rows
      → read_lines from_str pass i s lines ≡ parsed (fold_rows s rows)
  unfolding read_lines
  read_lines-Rows i s lines rows nothing = refl
  read_lines-Rows i s lines rows (blank {line} {lines = rest} e more) =
      lines_next i s s (some line) rest (line_blank i s line e)
      ∙ read_lines-Rows (suc i) s rest rows more
  read_lines-Rows i s lines rows (row {line} {cs} {c} {lines = rest} {r} {rows = later} e e' more) =
      lines_next i s (pass s r) (some line) rest (line_row i s line cs c r e e')
      ∙ read_lines-Rows (suc i) (pass s r) rest later more
