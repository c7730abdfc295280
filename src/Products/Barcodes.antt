-- ===== src/Products/Barcodes.antt =====
-- A barcode is on one product.
use zak_s_sizzling.Menu.{find_barcode, has_barcode}
use zak_s_sizzling.Prelude.{
  ℕ, ◌≡◌, refl, sym, ap, Bool, true, false, not, ◌&&◌, ◌||◌, Option, none, some, [], ◌∷◌, ◌==◌,
  arith, is_some, Bool-cases, Option-cases, inl, inr,
}
use zak_s_sizzling.Prelude.Dict.{Dict, lookup, insert, NodupKeys, lookup-insert}
use zak_s_sizzling.Products.{barcode_taken}
use zak_s_sizzling.Products.Faces.{faces-row, faces}
use zak_s_sizzling.Store.{Product}
use zak_s_sizzling.Prelude.Text.{Text, text_eq_iff, text_eq_refl}

abbrev pub has_any : Text → Dict Product → Bool
has_any b ps = is_some (find_barcode b ps)

pub has_any-faces : (b : Text) (ps : Dict Product) → has_any b (faces ps) ≡ has_any b ps
unfolding find_barcode
has_any-faces b [] = refl
has_any-faces b ((i, p) ∷ ps) = ground (arith, has_any-faces b ps)

pub barcode_taken-faces :
    (id : ℕ) (b : Option Text) (ps : Dict Product)
    → barcode_taken id b (faces ps) ≡ barcode_taken id b ps
unfolding barcode_taken
barcode_taken-faces id none ps = refl
barcode_taken-faces id (some b) [] = refl
barcode_taken-faces id (some b) ((i, p) ∷ ps) = ground (arith, barcode_taken-faces id (some b) ps)

-- A row with the barcode of the one whose place it takes.
pub has_any-insert_same :
    (b : Text) (i : ℕ) (p q : Product) (ps : Dict Product)
    → lookup i ps ≡ some p
    → q.barcode ≡ p.barcode
    → has_any b (insert i q ps) ≡ has_any b ps
unfolding find_barcode
has_any-insert_same b i p q [] l e = cc
has_any-insert_same b i p q ((j, r) ∷ ps) l e = ground (arith, has_any-insert_same b i p q ps)

-- A new row.
pub has_any-insert :
    (b : Text) (i : ℕ) (q : Product) (ps : Dict Product)
    → lookup i ps ≡ none
    → has_any b (insert i q ps) ≡ (has_any b ps || has_barcode b q)
unfolding find_barcode
has_any-insert b i q [] l = ground arith
has_any-insert b i q ((j, r) ∷ ps) l = ground (arith, has_any-insert b i q ps)

-- Another row: a barcode that neither the table nor the row has is not taken.
pub barcode_taken-insert :
    (id : ℕ) (b : Option Text) (i : ℕ) (q : Product) (ps : Dict Product)
    → barcode_taken id b ps ≡ false
    → ((c : Text) → b ≡ some c → (not (i == id) && has_barcode c q) ≡ false)
    → barcode_taken id b (insert i q ps) ≡ false
unfolding barcode_taken
barcode_taken-insert id none i q ps h n = refl
barcode_taken-insert id (some c) i q [] h n = ground (arith, n c refl)
barcode_taken-insert id (some c) i q ((j, r) ∷ ps) h n =
    ground (arith, n c refl, barcode_taken-insert id (some c) i q ps)

pub barcode_taken-none :
    (id : ℕ) (b : Text) (ps : Dict Product)
    → has_any b ps ≡ false
    → barcode_taken id (some b) ps ≡ false
unfolding find_barcode barcode_taken
barcode_taken-none id b [] h = refl
barcode_taken-none id b ((i, p) ∷ ps) h = ground (arith, barcode_taken-none id b ps)

pub lookup-has_any :
    (b : Text) (i : ℕ) (p : Product) (ps : Dict Product)
    → lookup i ps ≡ some p
    → has_barcode b p ≡ true
    → has_any b ps ≡ true
unfolding find_barcode
lookup-has_any b i p [] l h = cc
lookup-has_any b i p ((j, q) ∷ ps) l h = ground (arith, lookup-has_any b i p ps)

-- The row that is found is a row of the table.
pub find_barcode-lookup :
    (b : Text) (i : ℕ) (p : Product) (ps : Dict Product)
    → NodupKeys ps
    → find_barcode b ps ≡ some (i, p)
    → lookup i ps ≡ some p
unfolding find_barcode
find_barcode-lookup b i p [] n h = cc
find_barcode-lookup b i p ((j, q) ∷ ps) n h = ground (arith, n.0, find_barcode-lookup b i p ps n.1)

pub barcode_taken-lookup :
    (id j : ℕ) (b : Text) (p : Product) (ps : Dict Product)
    → lookup j ps ≡ some p
    → (j == id) ≡ false
    → has_barcode b p ≡ true
    → barcode_taken id (some b) ps ≡ true
unfolding barcode_taken
barcode_taken-lookup id j b p [] l n h = cc
barcode_taken-lookup id j b p ((k, q) ∷ ps) l n h = ground (arith, barcode_taken-lookup id j b p ps)

has_barcode-eq : (b c : Text) (q : Product) → q.barcode ≡ some c → has_barcode b q ≡ true → c ≡ b
has_barcode-eq b c q e h = text_eq_iff c b (ground arith)

has_barcode-some : (b : Text) (q : Product) → q.barcode ≡ some b → has_barcode b q ≡ true
has_barcode-some b q e = ground (arith, text_eq_refl b)

pub find_barcode-has :
    (b : Text) (i : ℕ) (p : Product) (ps : Dict Product)
    → find_barcode b ps ≡ some (i, p)
    → has_barcode b p ≡ true
unfolding find_barcode
find_barcode-has b i p [] h = cc
find_barcode-has b i p ((j, q) ∷ ps) h = ground (arith, find_barcode-has b i p ps)

-- No two products have one barcode.
abbrev pub DistinctBarcodes : Dict Product → Type 0
DistinctBarcodes ps =
    (i : ℕ) (p : Product) → lookup i ps ≡ some p → barcode_taken i p.barcode ps ≡ false

-- A row may be put in whose barcode no other row has.
pub DistinctBarcodes-insert :
    (i : ℕ) (q : Product) (ps : Dict Product)
    → barcode_taken i q.barcode ps ≡ false
    → DistinctBarcodes ps
    → DistinctBarcodes (insert i q ps)
DistinctBarcodes-insert i q ps free d j r m =
    barcode_taken-insert j r.barcode i q ps (ground (arith, m, lookup-insert i j q ps, d j r, free))
      (λ b e. elim (Bool-cases (i == j)) [
        | inl s ↦ ground (arith, s)
        | inr s ↦ elim (Bool-cases (has_barcode b q)) [
          | inr h ↦ ground (arith, h)
          | inl h ↦ elim (Option-cases q.barcode) [
            | inl n ↦ ground (arith, n, h)
            | inr (c, n) ↦
                let same = has_barcode-eq b c q n h in
                let old : lookup j ps ≡ some r = ground (arith, m, s, lookup-insert i j q ps) in
                let taken =
                  barcode_taken-lookup i j b r ps old (ground (arith, s))
                    (has_barcode-some b r e) in
                let clear : barcode_taken i (some b) ps ≡ false = rw (← same) (rw (← n) free) in cc
          ]
        ]
      ])

-- The menu's faces decide.
pub DistinctBarcodes-faces :
    (ps qs : Dict Product) → faces ps ≡ faces qs → DistinctBarcodes qs → DistinctBarcodes ps
DistinctBarcodes-faces ps qs e d i p l =
    let (q, m, f) = faces-row i p ps qs e l in
    let same : p.barcode ≡ q.barcode = ap (λ (r : Product). r.barcode) (sym f) in
    ground (
      arith,
      same,
      d i q m,
      ap (barcode_taken i q.barcode) e,
      barcode_taken-faces i q.barcode ps,
      barcode_taken-faces i q.barcode qs,
    )
