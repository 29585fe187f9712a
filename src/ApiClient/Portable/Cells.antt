-- ===== src/ApiClient/Portable/Cells.antt =====
-- Escaped cells in the reader.
use passwd.Base.{
  ◌≡◌, refl, Bool, true, false, List, [], ◌∷◌, ◌++◌, append_assoc, append-nil, Text, Bool-cases,
  arith, inl, inr,
}
use passwd.ApiClient.Portable.{
  has_special, double_quotes, csv_escape, starts_with, newlines, Reader, read_char, read_chars,
}
use passwd.ApiClient.Portable.Newlines.{
  newlines-append, newlines-other, newlines-plain, newlines-double_quotes,
}

-- The reader between two characters.
abbrev pub reading : List (List Text) → List Text → Text → Bool → Reader
reading rows row cell quoted = record {
  rows = rows;
  row = row;
  cell = cell;
  quoted = quoted;
  skip = false;
}

newlines-quoted :
    (v s : Text)
    → starts_with 10 s ≡ false
    → newlines (b'"' ∷ ((double_quotes v ++ (b'"' ∷ [])) ++ s))
      ≡ b'"' ∷ (double_quotes (newlines v) ++ (b'"' ∷ newlines s))
newlines-quoted v s lf = rw (
  newlines-other b'"' ((double_quotes v ++ (b'"' ∷ [])) ++ s) (omega arith),
  append_assoc (double_quotes v) (b'"' ∷ []) s,
  newlines-append (double_quotes v) (b'"' ∷ s) (unfold starts_with in refl),
  newlines-double_quotes v,
  newlines-other b'"' s (omega arith),
)

module _ (rows : List (List Text)) (row : List Text) where
  read_plain :
      (v s cell : Text)
      → has_special v ≡ false
      → read_chars (v ++ s) (reading rows row cell false)
        ≡ read_chars s (reading rows row (cell ++ v) false)
  unfolding has_special read_chars read_char
  read_plain [] s cell h = rw (append-nil cell) refl
  read_plain (c ∷ v) s cell h =
      ground (arith, read_plain v s (cell ++ (c ∷ [])), append_assoc cell (c ∷ []) v)

  read_quoted :
      (u s cell : Text)
      → starts_with b'"' s ≡ false
      → read_chars (double_quotes u ++ (b'"' ∷ s)) (reading rows row cell true)
        ≡ read_chars s (reading rows row (cell ++ u) false)
  unfolding double_quotes read_chars read_char starts_with
  read_quoted [] s cell h = rw (append-nil cell, h) refl
  read_quoted (c ∷ u) s cell h =
      ground (arith, read_quoted u s (cell ++ (c ∷ [])), append_assoc cell (c ∷ []) u)

  read_opening :
      (s : Text)
      → read_chars (b'"' ∷ s) (reading rows row [] false) ≡ read_chars s (reading rows row [] true)
  unfolding read_chars read_char
  read_opening s = refl

  -- A cell in front of a text that starts with neither a line feed nor a quote.
  pub read_cell :
      (v s : Text)
      → starts_with 10 s ≡ false
      → starts_with b'"' (newlines s) ≡ false
      → read_chars (newlines (csv_escape v ++ s)) (reading rows row [] false)
        ≡ read_chars (newlines s) (reading rows row (newlines v) false)
  unfolding csv_escape
  read_cell v s lf quote = elim (Bool-cases (has_special v)) [
    | inl e ↦
        rw
          (
            e,
            newlines-quoted v s lf,
            read_opening (double_quotes (newlines v) ++ (b'"' ∷ newlines s)),
          )
          (read_quoted (newlines v) (newlines s) [] quote)
    | inr e ↦ rw (e, newlines-append v s lf, newlines-plain v e) (read_plain v (newlines s) [] e)
  ]
