-- ===== src/Alerts/Email.antt =====
-- The text of a low-stock email (apps/worker/src/jobs/sendLowStockAlerts.ts). `show_number` and
-- `show_time` are the locale's formats of a number of thousandths, with a number of digits, and of
-- a time.
use zak_s_sizzling.Alerts.{Latest}
use zak_s_sizzling.Store.{MaterialUnit}
use zak_s_sizzling.Prelude.{
  ℕ, ◌/◌, Bool, Option, none, some, List, [], ◌∷◌, ◌++◌, ◌==◌, ltb, leb, if◌then◌else◌, is_some,
  length, map,
}
use zak_s_sizzling.Prelude.Text.{Text, text, decimal}
use zak_s_sizzling.Stock.Deduct.{join}

pub record MailMessage : Type 0 where
  pub subject : Text
  pub body : Text

pub record AlertText : Type 0 where
  pub name : Text
  pub left : Text
  pub minimum : Text
  pub at : Text

module _ (show_number : ℕ → ℕ → Text) (show_time : ℕ → Text) where
  -- Large amounts of grams and millilitres in kg and L; a count has no unit.
  unfoldable pub quantity : ℕ → Option MaterialUnit → Text
  quantity qty none = show_number qty 0
  quantity qty (some MaterialUnit.g) =
      if leb 1000000 qty
      then show_number (qty / 1000) 2 ++ text " kg"
      else show_number qty 3 ++ text " g"
  quantity qty (some MaterialUnit.ml) =
      if leb 1000000 qty
      then show_number (qty / 1000) 2 ++ text " L"
      else show_number qty 3 ++ text " ml"
  quantity qty (some MaterialUnit.pc) = show_number qty 3 ++ text " pc"

  pub describe : Latest → AlertText
  unfolding quantity
  describe l = record {
    name =
        if is_some l.latest.raw_material_id
        then l.latest.item_name ++ text " (raw material)"
        else l.latest.item_name;
    left = quantity l.latest.stock_qty l.latest.unit ++ text " left";
    minimum = text "minimum " ++ quantity l.latest.min_stock_threshold l.latest.unit;
    at =
        if ltb 1 l.times
        then show_time l.latest.created_at
          ++ (text "; reached it " ++ (decimal l.times ++ text " times since the last email"))
        else show_time l.latest.created_at;
  }

  abbrev pub is_single : {A : Type 0} → List A → Bool
  is_single xs = length xs == 1

  abbrev pub first_name : List Latest → Text
  first_name [] = []
  first_name (l ∷ ls) = l.latest.item_name

  pub subject_of : List Latest → Text
  subject_of ls =
      if is_single ls
      then text "Low stock: " ++ (first_name ls ++ text " reached its minimum")
      else text "Low stock: " ++ (decimal (length ls) ++ text " items reached their minimum")

  abbrev intro : List Latest → Text
  intro ls =
      if is_single ls
      then text "This item has reached its minimum stock level:"
      else text "These items have reached their minimum stock level:"

  abbrev note : Text
  note =
      text
        "Amounts are from when each item reached its minimum. The Inventory and Raw materials pages show the stock now."

  pub line_text : AlertText → Text
  line_text t =
      text "- "
      ++ (t.name
          ++ (text ": "
              ++ (t.left ++ (text ", " ++ (t.minimum ++ (text " (" ++ (t.at ++ text ")")))))))

  -- The subject and the plain text of the email; its HTML says the same.
  unfoldable pub build_low_stock_email : List Latest → MailMessage
  unfolding describe subject_of line_text
  build_low_stock_email ls = record {
    subject = subject_of ls;
    body = join (10 ∷ []) (
        intro ls
        ∷ []
        ∷ (map (λ l. line_text (describe l)) ls
            ++ [] ∷ note ∷ [] ∷ text "Zak's Sizzling Hub" ∷ []));
  }
