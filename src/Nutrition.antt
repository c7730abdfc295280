-- ===== src/Nutrition.antt =====
-- A dish's nutrition from its recipe (apps/api/src/modules/nutrition/calc.ts). The source adds
-- floating-point numbers; here every input is a number of thousandths, and the sums are exact, in
-- parts of 10 ^ 11 (three times three places, and the 100 g).
use zak_s_sizzling.Prelude.{
  ℕ, ◌+◌, ◌*◌, ◌/◌, Bool, true, false, not, ◌&&◌, Option, none, some, List, [], ◌∷◌, ◌++◌, ◌==◌,
  if◌then◌else◌, is_some,
}
use zak_s_sizzling.Prelude.Text.{Text}
use zak_s_sizzling.Store.{MaterialUnit}

pub record Per100g : Type 0 where
  pub calories : ℕ
  pub protein : ℕ
  pub carbs : ℕ
  pub sugar : ℕ

pub record NutritionLine : Type 0 where
  pub name : Text
  pub unit : MaterialUnit
  pub qty_per_serving : ℕ
  pub per_100g : Option Per100g
  pub grams_per_unit : Option ℕ

abbrev weighed : ℕ → Option ℕ → Option ℕ
weighed qty none = none
weighed qty (some g) = some (qty * g)

abbrev or_one : ℕ → Option ℕ → ℕ
or_one qty none = qty * 1000
or_one qty (some g) = qty * g

-- In millionths of a gram.
pub grams_of : NutritionLine → Option ℕ
grams_of l = elim l.unit [
  | MaterialUnit.g ↦ some (l.qty_per_serving * 1000)
  | MaterialUnit.ml ↦ some (or_one l.qty_per_serving l.grams_per_unit)
  | MaterialUnit.pc ↦ weighed l.qty_per_serving l.grams_per_unit
]

-- The loop's variables.
pub record Totals : Type 0 where
  pub total : Per100g
  pub missing : List Text
  pub assumed_one_gram_per_ml : List Text
  pub counted : ℕ

abbrev is_ml : MaterialUnit → Bool
is_ml MaterialUnit.ml = true
is_ml _ = false

abbrev add_share : Per100g → ℕ → Per100g → Per100g
add_share v grams t = record {
  calories = t.calories + v.calories * grams;
  protein = t.protein + v.protein * grams;
  carbs = t.carbs + v.carbs * grams;
  sugar = t.sugar + v.sugar * grams;
}

abbrev is_assumed : NutritionLine → Bool
is_assumed l = is_ml l.unit && not (is_some l.grams_per_unit)

abbrev miss : NutritionLine → Totals → Totals
miss l t = record t { missing = t.missing ++ l.name ∷ [] }

pub add_line : NutritionLine → Totals → Totals
unfolding grams_of
add_line l t = elim l.per_100g [
  | none ↦ miss l t
  | some v ↦ elim (grams_of l) [
    | none ↦ miss l t
    | some grams ↦ record t {
      total = add_share v grams t.total;
      assumed_one_gram_per_ml =
          if is_assumed l
          then t.assumed_one_gram_per_ml ++ l.name ∷ []
          else t.assumed_one_gram_per_ml;
      counted = t.counted + 1;
    }
  ]
]

pub add_lines : List NutritionLine → Totals → Totals
unfolding add_line
add_lines [] t = t
add_lines (l ∷ ls) t = add_lines ls (add_line l t)

abbrev parts : ℕ
parts = 100000000000

-- `Math.round`, which rounds a half up, to whole numbers and to tenths.
pub round : ℕ → ℕ
round n = (2 * n + parts) / (2 * parts)

pub round_1 : ℕ → ℕ
round_1 n = (2 * (10 * n) + parts) / (2 * parts)

-- Whole calories, and tenths of a gram.
pub record NutritionEstimate : Type 0 where
  pub nutrition : Option Per100g
  pub missing : List Text
  pub assumed_one_gram_per_ml : List Text

abbrev no_totals : Totals
no_totals = record {
  total = record { calories = 0; protein = 0; carbs = 0; sugar = 0 };
  missing = [];
  assumed_one_gram_per_ml = [];
  counted = 0;
}

abbrev rounded : Per100g → Per100g
rounded t = record {
  calories = round t.calories;
  protein = round_1 t.protein;
  carbs = round_1 t.carbs;
  sugar = round_1 t.sugar;
}

pub estimate_from_recipe : List NutritionLine → NutritionEstimate
unfolding add_lines round round_1
estimate_from_recipe ls =
    let t = add_lines ls no_totals in
    record {
      nutrition = if t.counted == 0 then none else some (rounded t.total);
      missing = t.missing;
      assumed_one_gram_per_ml = t.assumed_one_gram_per_ml;
    }
