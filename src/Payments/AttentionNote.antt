-- ===== src/Payments/AttentionNote.antt =====
-- The note of an order that needs attention (apps/api/src/modules/payments/attentionNote.ts).
-- `lockOrder` only holds the row until the transaction ends: a transaction is one step here.
pub mod Notes
use zak_s_sizzling.Prelude.{
  ℕ, ◌-◌, Bool, Option, none, some, List, [], ◌∷◌, ◌++◌, leb, length, take, if◌then◌else◌,
}
use zak_s_sizzling.Prelude.Text.{Text, text}

abbrev pub note_max : ℕ
note_max = 1000

pub too_long : Text
too_long = text "… More in PayMongo's dashboard."

-- `!current` also holds of an empty note.
unfoldable pub combined : Option Text → Bool → Text → Text
combined none still_open note = note
combined (some []) still_open note = note
combined (some (c ∷ cs)) still_open note =
    if still_open
    then (c ∷ cs) ++ (text "\n" ++ note)
    else (c ∷ cs) ++ (text " (Sorted out.)\n" ++ note)

-- A text cut at a limit, with a tail that says so.
unfoldable pub cut : ℕ → Text → Text → Text
cut limit tail t = if leb (length t) limit then t else take (limit - length tail) t ++ tail

unfoldable pub add_attention_note : Option Text → Bool → Text → Text
unfolding combined cut too_long
add_attention_note current still_open note =
    cut note_max too_long (combined current still_open note)
