-- ===== src/Csv/Rows.antt =====
-- A table that is written is read back, row by row.
use mathlib.Core.List.{append-nil, append_assoc}
use zak_s_sizzling.Prelude.{
  ◌≡◌, refl, sym, Bool, true, false, not, ◌||◌, List, [], ◌∷◌, ◌++◌, arith, any, map, All, ◌∙◌, ap,
}
use zak_s_sizzling.Prelude.Text.{Text}
use zak_s_sizzling.Stock.Deduct.{join}
use zak_s_sizzling.Csv.{
  from_csv, trim, with_headers, zip_row, Row, value_of, headers_of, line_of, to_csv, quote, comma,
  newline, needs_quotes, escape, Reader, step, peek, loop, is_char, end_line, push_row, finish,
  csv_rows, is_text, is_cons,
}
use zak_s_sizzling.Csv.Fields.{is_plain, loop-escape}

-- A value that survives: it is quoted, or it has no bare carriage return.
abbrev pub Readable : Text → Type 0
Readable s = any needs_quotes s || not (any (λ c. not (is_plain c)) s) ≡ true

abbrev at : List (List Text) → List Text → Text → Reader
at rows row f = record { rows = rows; row = row; field = f; in_quotes = Bool.false }

-- The line of a row of values.
abbrev pub line : List Text → Text
line fs = join (comma ∷ []) (map escape fs)

-- The reader at the end of a line.
abbrev at_end : List (List Text) → List Text → Text → List Text → Reader
at_end rows row f [] = at rows row f
at_end rows row f (g ∷ fs) = at_end rows (row ++ f ∷ []) g fs

loop-line :
    (rows : List (List Text)) (row : List Text) (f : Text) (fs : List Text) (rest : Text)
    → is_char quote (peek rest) ≡ false
    → All Readable (f ∷ fs)
    → loop (at rows row []) false (line (f ∷ fs) ++ rest) ≡ loop (at_end rows row f fs) false rest
unfolding join loop step
loop-line rows row f [] rest n (h, t) = loop-escape (at rows row []) f rest n h
loop-line rows row f (g ∷ fs) rest n (h, hs) =
    let tail = line (g ∷ fs) ++ rest in
    rw (append_assoc (escape f) (comma ∷ line (g ∷ fs)) rest) (
      loop-escape (at rows row []) f (comma ∷ tail) refl h
      ∙ loop-line rows (row ++ f ∷ []) g fs rest n hs)

end_line-at_end :
    (rows : List (List Text)) (row : List Text) (f : Text) (fs : List Text)
    → end_line (at_end rows row f fs) ≡ at (push_row rows (row ++ f ∷ fs)) [] []
end_line-at_end rows row f [] = refl
end_line-at_end rows row f (g ∷ fs) =
    rw (← append_assoc row (f ∷ []) (g ∷ fs)) (end_line-at_end rows (row ++ f ∷ []) g fs)

-- The rows of a table, one line each.
abbrev pub lines : List (List Text) → Text
lines rs = join (newline ∷ []) (map line rs)

-- A row that the reader keeps: it has a value that is not empty, and all its values survive.
abbrev pub Kept : List Text → Type 0
Kept fs = (any is_text fs ≡ true) × All Readable fs

is_cons-append : (row : List Text) (f : Text) → is_cons (row ++ f ∷ []) ≡ true
is_cons-append [] f = refl
is_cons-append (g ∷ row) f = refl

is_cons-at_end :
    (rows : List (List Text)) (row : List Text) (f : Text) (fs : List Text)
    → is_cons row ≡ true
    → is_cons (at_end rows row f fs).row ≡ true
is_cons-at_end rows row f [] h = h
is_cons-at_end rows row f (g ∷ fs) h =
    is_cons-at_end rows (row ++ f ∷ []) g fs (is_cons-append row f)

is_open-at_end :
    (rows : List (List Text)) (f : Text) (fs : List Text)
    → any is_text (f ∷ fs) ≡ true
    → (is_text (at_end rows [] f fs).field || is_cons (at_end rows [] f fs).row) ≡ true
is_open-at_end rows f [] h = ground (arith, h)
is_open-at_end rows f (g ∷ fs) h = ground (arith, is_cons-at_end rows (f ∷ []) g fs refl)

finish-at_end :
    (rows : List (List Text)) (f : Text) (fs : List Text)
    → any is_text (f ∷ fs) ≡ true
    → finish (at_end rows [] f fs) ≡ rows ++ (f ∷ fs) ∷ []
unfolding finish
finish-at_end rows f fs h =
    rw (is_open-at_end rows f fs h) (ap (λ d. d.rows) (end_line-at_end rows [] f fs) ∙ rw h refl)

in_quotes-at_end :
    (rows : List (List Text)) (row : List Text) (f : Text) (fs : List Text)
    → (at_end rows row f fs).in_quotes ≡ false
in_quotes-at_end rows row f [] = refl
in_quotes-at_end rows row f (g ∷ fs) = in_quotes-at_end rows (row ++ f ∷ []) g fs

loop-newline :
    (r : Reader) (t : Text)
    → r.in_quotes ≡ false
    → loop r false (newline ∷ t) ≡ loop (end_line r) false t
unfolding loop step
loop-newline r t h = ground (arith, h)

finish-loop-lines :
    (rows : List (List Text)) (r : List Text) (rs : List (List Text))
    → All Kept (r ∷ rs)
    → finish (loop (at rows [] []) false (lines (r ∷ rs))) ≡ rows ++ r ∷ rs
unfolding join loop step
finish-loop-lines rows [] rs ((h, k), ks) = ground arith
finish-loop-lines rows (f ∷ fs) [] ((h, k), ks) =
    ap finish (rw (append-nil (line (f ∷ fs))) at (loop-line rows [] f fs [] refl k))
    ∙ finish-at_end rows f fs h
finish-loop-lines rows (f ∷ fs) (r ∷ rs) ((h, k), ks) =
    ap finish (
      loop-line rows [] f fs (newline ∷ lines (r ∷ rs)) refl k
      ∙ loop-newline (at_end rows [] f fs) (lines (r ∷ rs)) (in_quotes-at_end rows [] f fs)
      ∙ ap (λ x. loop x false (lines (r ∷ rs)))
          (end_line-at_end rows [] f fs ∙ ap (λ x. at x [] []) (rw h refl)))
    ∙ finish-loop-lines (rows ++ (f ∷ fs) ∷ []) r rs ks
    ∙ append_assoc rows ((f ∷ fs) ∷ []) (r ∷ rs)

-- A table is read back as it was written, if each row has a value that is not empty and no value
-- has a bare carriage return without a comma, a quote or a line feed.
pub csv_rows-lines :
    (r : List Text) (rs : List (List Text)) → All Kept (r ∷ rs) → csv_rows (lines (r ∷ rs)) ≡ r ∷ rs
unfolding csv_rows
csv_rows-lines r rs k = finish-loop-lines [] r rs k

abbrev pub values : List Text → Row → List Text
values hs r = map (λ h. value_of h r) hs

map-escape :
    (hs : List Text) (r : Row) → map (λ h. escape (value_of h r)) hs ≡ map escape (values hs r)
map-escape [] r = refl
map-escape (h ∷ hs) r = ap (λ t. escape (value_of h r) ∷ t) (map-escape hs r)

map-line_of : (hs : List Text) (rs : List Row) → map (line_of hs) rs ≡ map line (map (values hs) rs)
unfolding line_of
map-line_of hs [] = refl
map-line_of hs (r ∷ rs) = rw (map-escape hs r, map-line_of hs rs) refl

escape_plain : (hs : List Text) → All (λ h. any needs_quotes h ≡ false) hs → map escape hs ≡ hs
unfolding escape
escape_plain [] n = refl
escape_plain (h ∷ hs) (n, ns) = rw (n, escape_plain hs ns) refl

csv_rows-to_csv :
    (r : Row) (rs : List Row)
    → All (λ h. any needs_quotes h ≡ false) (headers_of r)
    → All Kept (headers_of r ∷ map (values (headers_of r)) (r ∷ rs))
    → csv_rows (to_csv (r ∷ rs)) ≡ headers_of r ∷ map (values (headers_of r)) (r ∷ rs)
unfolding to_csv
csv_rows-to_csv r rs n k =
    let hs = headers_of r in
    rw (map-line_of hs (r ∷ rs)) (
      ap
        (λ x.
          csv_rows
            (join (newline ∷ []) (join (comma ∷ []) x ∷ map line (map (values hs) (r ∷ rs)))))
        (sym (escape_plain hs n))
      ∙ csv_rows-lines hs (map (values hs) (r ∷ rs)) k)

abbrev pub IsTrimmed : Text → Type 0
IsTrimmed t = trim t ≡ t

-- An object with exactly these fields, in this order.
abbrev pub HasFields : List Text → Row → Type 0
HasFields hs r = map (λ h. (h, value_of h r)) hs ≡ r

map-trim : (hs : List Text) → All IsTrimmed hs → map trim hs ≡ hs
map-trim [] t = refl
map-trim (h ∷ hs) (t, ts) = rw (t, map-trim hs ts) refl

zip_row-values :
    (hs : List Text) (r : Row)
    → All IsTrimmed (values hs r)
    → zip_row hs (values hs r) ≡ map (λ h. (h, value_of h r)) hs
unfolding zip_row
zip_row-values [] r t = refl
zip_row-values (h ∷ hs) r (t, ts) = rw (t, zip_row-values hs r ts) refl

map-zip_row :
    (hs : List Text) (rs : List Row)
    → All (All IsTrimmed) (map (values hs) rs)
    → All (HasFields hs) rs
    → map (zip_row hs) (map (values hs) rs) ≡ rs
map-zip_row hs [] t f = refl
map-zip_row hs (r ∷ rs) (t, ts) (f, fs) =
    rw (zip_row-values hs r t, f, map-zip_row hs rs ts fs) refl

-- A list of objects is written and read back as it was, if all have the first one's fields, no
-- header needs quotes, and the headers and each object's values are trimmed, have one that is not
-- empty and none with a bare carriage return.
pub from_csv-to_csv :
    (r : Row) (rs : List Row)
    → All (HasFields (headers_of r)) (r ∷ rs)
    → All (λ h. any needs_quotes h ≡ false) (headers_of r)
    → All IsTrimmed (headers_of r)
    → All (All IsTrimmed) (map (values (headers_of r)) (r ∷ rs))
    → All Kept (headers_of r ∷ map (values (headers_of r)) (r ∷ rs))
    → from_csv (to_csv (r ∷ rs)) ≡ r ∷ rs
unfolding from_csv with_headers
from_csv-to_csv r rs f n t ts k =
    let hs = headers_of r in
    ap with_headers (csv_rows-to_csv r rs n k)
    ∙ ap (λ ks. map (zip_row ks) (map (values hs) (r ∷ rs))) (map-trim hs t)
    ∙ map-zip_row hs (r ∷ rs) ts f
