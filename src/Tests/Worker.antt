-- ===== src/Tests/Worker.antt =====
-- Sample low-stock emails and webhooks.
use zak_s_sizzling.Paymongo.Signature.{
  Signs, verify_webhook_signature-header_of, verify_webhook_signature-signed,
}
use zak_s_sizzling.Paymongo.Parts.{header_of, is_filled, to_hex}
use zak_s_sizzling.Prelude.{
  ℕ, ◌*◌, ◌≡◌, refl, true, Option, none, some, List, [], ◌∷◌, ◌++◌, arith, length, if◌then◌else◌,
  ◌%◌, ◌≤◌, map,
}
use zak_s_sizzling.Prelude.Text.{Text, text, text_eq}
use zak_s_sizzling.Prelude.Dict.{lookup}
use zak_s_sizzling.Alerts.{
  LowStockAlert, Alerts, Mailer, delivers, fails, max_attempts, waiting, send_low_stock_alerts,
}
use zak_s_sizzling.Alerts.Waiting.{send_runs, send_runs-waiting}
use zak_s_sizzling.Alerts.Settled.{send_low_stock_alerts-settled}
use zak_s_sizzling.Paymongo.{
  from_hex, is_recent, key_value, part, split, check_signature, verify_webhook_signature,
}

abbrev low_sisig : LowStockAlert
low_sisig = record {
  product_id = some 1;
  raw_material_id = none;
  item_name = text "Sisig";
  stock_qty = 2;
  min_stock_threshold = 2;
  unit = none;
  created_at = 100;
  sent_at = none;
  attempts = 0;
  last_error = none;
}

abbrev emailed : LowStockAlert
emailed = record low_sisig { sent_at = some 90 }

abbrev alerts : Alerts
alerts = (1, emailed) ∷ (2, low_sisig) ∷ []

abbrev outage : List (ℕ × Mailer)
outage =
    (200, fails (text "timeout"))
    ∷ (300, fails (text "timeout"))
    ∷ (400, fails (text "timeout"))
    ∷ (500, delivers)
    ∷ (600, delivers)
    ∷ []

one_waits : max_attempts * waiting alerts ≤ length outage
unfolding waiting
one_waits = omega arith

send_runs-waiting_example : waiting (send_runs outage alerts) ≡ 0
send_runs-waiting_example = send_runs-waiting outage alerts refl one_waits

send_low_stock_alerts-settled_example :
    lookup 1 (send_low_stock_alerts 200 (fails (text "timeout")) alerts).1 ≡ some emailed
send_low_stock_alerts-settled_example =
    send_low_stock_alerts-settled 200 1 (fails (text "timeout")) emailed alerts (refl, (refl, tt))
      refl refl

-- A keyed code of two bytes.
abbrev hmac : Text → Text → List ℕ
hmac secret message = (length secret % 256) ∷ (length message % 256) ∷ []

abbrev at_100 : Text → Option ℕ
at_100 t = if text_eq t (text "100") then some 100000 else none

abbrev body : Text
body = text "{}"

abbrev signature : Text
signature = to_hex (hmac (text "whsk") (text "100.{}"))

believed :
    verify_webhook_signature hmac at_100 160000
      (some (text "whsk"))
      body
      (some (header_of (text "100") [] signature))
    ≡ true
unfolding verify_webhook_signature key_value split part check_signature from_hex to_hex text
believed = refl

verify_webhook_signature-signed_example :
    (key : Text) × (fields : Text) × (t : Text) × (sig : Text) × (at : ℕ) × (some (text "whsk")
      ≡ some key)
    × (is_filled key ≡ true)
    × (some (header_of (text "100") [] signature) ≡ some fields)
    × (part (text "t") (map key_value (split b',' fields)) ≡ some t)
    × Signs (map key_value (split b',' fields)) sig
    × (at_100 t ≡ some at)
    × (is_recent 160000 at ≡ true)
    × (hmac key (t ++ b'.' ∷ body) ≡ from_hex sig)
verify_webhook_signature-signed_example =
    verify_webhook_signature-signed hmac at_100 160000 (some (text "whsk")) body
      (some (header_of (text "100") [] signature)) believed

verify_webhook_signature-header_of_example :
    (verify_webhook_signature hmac at_100 160000
        (some (text "whsk"))
        body
        (some (header_of (text "100") [] signature))
      ≡ true)
    × (verify_webhook_signature hmac at_100 160000
          (some (text "whsk"))
          body
          (some (header_of (text "100") signature []))
        ≡ true)
unfolding text to_hex
verify_webhook_signature-header_of_example =
    verify_webhook_signature-header_of hmac at_100 160000 100000 (text "whsk") body (text "100")
      refl refl (refl, refl) refl refl (omega arith, (omega arith, tt)) refl
