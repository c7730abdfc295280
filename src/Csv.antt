-- ===== src/Csv.antt =====
-- The CSV reader and writer (apps/api/src/lib/csv.ts). The index that the source moves past a
-- second character is a flag here: the next character is skipped.
pub mod Fields
pub mod Rows
use zak_s_sizzling.Prelude.{
  ℕ, suc, zero, Bool, true, false, not, ◌&&◌, ◌||◌, Option, none, some, List, [], ◌∷◌, ◌++◌, ◌==◌,
  leb, if◌then◌else◌, any, map, or_else, reverse,
}
use zak_s_sizzling.Prelude.Text.{Text, text, text_eq}
use zak_s_sizzling.Stock.Deduct.{join}

abbrev pub quote : ℕ
quote = b'"'

abbrev pub comma : ℕ
comma = b','

abbrev pub newline : ℕ
newline = 10

abbrev pub carriage_return : ℕ
carriage_return = 13

-- `/[",\n]/.test(s)`
abbrev pub needs_quotes : ℕ → Bool
needs_quotes c = c == quote || (c == comma || c == newline)

-- `s.replace(/"/g, '""')`
pub double_quotes : Text → Text
double_quotes [] = []
double_quotes (c ∷ cs) =
    if c == quote then quote ∷ quote ∷ double_quotes cs else c ∷ double_quotes cs

pub escape : Text → Text
unfolding double_quotes
escape s = if any needs_quotes s then quote ∷ (double_quotes s ++ quote ∷ []) else s

-- A row of values by their headers; a number is its text.
abbrev pub Row : Type 0
Row = List (Text × Text)

unfoldable pub value_of : Text → Row → Text
value_of h [] = text "undefined"
value_of h ((k, v) ∷ r) = if text_eq k h then v else value_of h r

unfoldable pub headers_of : Row → List Text
headers_of [] = []
headers_of ((k, v) ∷ r) = k ∷ headers_of r

pub line_of : List Text → Row → Text
unfolding value_of escape
line_of hs r = join (comma ∷ []) (map (λ h. escape (value_of h r)) hs)

pub to_csv : List Row → Text
unfolding headers_of line_of
to_csv [] = []
to_csv (r ∷ rs) =
    let hs = headers_of r in join (newline ∷ []) (join (comma ∷ []) hs ∷ map (line_of hs) (r ∷ rs))

-- The loop's variables.
pub record Reader : Type 0 where
  pub rows : List (List Text)
  pub row : List Text
  pub field : Text
  pub in_quotes : Bool

abbrev pub is_text : Text → Bool
is_text [] = false
is_text (c ∷ cs) = true

abbrev pub push_row : List (List Text) → List Text → List (List Text)
push_row rows row = if any is_text row then rows ++ row ∷ [] else rows

abbrev pub is_char : ℕ → Option ℕ → Bool
is_char c none = false
is_char c (some d) = d == c

abbrev pub add_char : Reader → ℕ → Reader
add_char r c = record r { field = r.field ++ c ∷ [] }

abbrev pub set_quotes : Reader → Bool → Reader
set_quotes r b = record r { in_quotes = b }

abbrev pub end_field : Reader → Reader
end_field r = record r { row = r.row ++ r.field ∷ []; field = [] }

abbrev pub end_line : Reader → Reader
end_line r = record r { rows = push_row r.rows (r.row ++ r.field ∷ []); row = []; field = [] }

-- One character, with the one after it, and whether that one is skipped.
pub step : Reader → ℕ → Option ℕ → Reader × Bool
step r c next =
    if r.in_quotes
    then (if c == quote
        then (if is_char quote next
            then (add_char r quote, Bool.true)
            else (set_quotes r Bool.false, Bool.false))
        else (add_char r c, Bool.false))
    else if c == quote
    then (set_quotes r Bool.true, Bool.false)
    else if c == comma
    then (end_field r, Bool.false)
    else if c == newline || c == carriage_return
    then (end_line r, c == carriage_return && is_char newline next)
    else (add_char r c, Bool.false)

abbrev pub peek : Text → Option ℕ
peek [] = none
peek (c ∷ cs) = some c

pub loop : Reader → Bool → Text → Reader
unfolding step
loop r skip [] = r
loop r true (c ∷ cs) = loop r false cs
loop r false (c ∷ cs) = let (r', skip) = step r c (peek cs) in loop r' skip cs

abbrev pub start : Reader
start = record { rows = []; row = []; field = []; in_quotes = Bool.false }

abbrev pub is_cons {ℓ} : {A : Type ℓ} → List A → Bool
is_cons [] = false
is_cons (x ∷ xs) = true

-- The last field, if the text does not end with its line.
pub finish : Reader → List (List Text)
finish r =
    if is_text r.field || is_cons r.row then push_row r.rows (r.row ++ r.field ∷ []) else r.rows

pub csv_rows : Text → List (List Text)
unfolding loop finish
csv_rows t = finish (loop start false t)

-- What `trim` removes.
pub is_space : ℕ → Bool
is_space c =
    (leb 9 c && leb c 13)
    || (c == 32
        || (c == 160
            || (c == 5760
                || ((leb 8192 c && leb c 8202)
                    || (c == 8232
                        || (c == 8233
                            || (c == 8239 || (c == 8287 || (c == 12288 || c == 65279)))))))))

pub trim_start : Text → Text
unfolding is_space
trim_start [] = []
trim_start (c ∷ cs) = let rest = trim_start cs in if is_space c then rest else c ∷ cs

unfoldable pub trim : Text → Text
unfolding trim_start
trim t = reverse (trim_start (reverse (trim_start t)))

pub zip_row : List Text → List Text → Row
unfolding trim
zip_row [] fs = []
zip_row (h ∷ hs) [] = (h, []) ∷ zip_row hs []
zip_row (h ∷ hs) (f ∷ fs) = (h, trim f) ∷ zip_row hs fs

-- The first row has the headers; a missing field is empty. The source's objects keep the last value
-- of a repeated header, and the pairs are kept here as they stand.
pub with_headers : List (List Text) → List Row
unfolding zip_row
with_headers [] = []
with_headers (hs ∷ rs) = map (zip_row (map trim hs)) rs

pub from_csv : Text → List Row
unfolding csv_rows with_headers
from_csv t = with_headers (csv_rows t)
