-- ===== src/Payments/AttentionNote/Notes.antt =====
-- The note never exceeds its column, and below the limit nothing of it is lost.
use mathlib.Core.List.{append-nil, append_assoc}
use zak_s_sizzling.Prelude.{
  take, ◌-◌, ℕ, ◌≤◌, ◌≡◌, refl, Bool, true, false, Option, none, some, [], ◌∷◌, ◌++◌, arith, length,
  length-append, length-take-le,
}
use zak_s_sizzling.Prelude.Text.{Text, text, includes, includes-append}
use zak_s_sizzling.Payments.AttentionNote.{
  note_max, too_long, combined, cut, add_attention_note, take, cut,
}

length-too_long : length too_long ≡ 31
unfolding too_long text
length-too_long = refl

length-cut : (limit : ℕ) (tail t : Text) → length tail ≤ limit → length (cut limit tail t) ≤ limit
unfolding cut
length-cut limit tail t h = ground (
  arith,
  length-append (take (limit - length tail) t) tail,
  length-take-le (limit - length tail) t,
)

-- Whatever was on the note, the new one fits the column of 1000 characters.
pub length-add_attention_note :
    (current : Option Text) (still_open : Bool) (note : Text)
    → length (add_attention_note current still_open note) ≤ note_max
unfolding add_attention_note
length-add_attention_note current still_open note =
    length-cut note_max too_long (combined current still_open note) (omega (arith, length-too_long))

cut-fits : (limit : ℕ) (tail t : Text) → length t ≤ limit → cut limit tail t ≡ t
unfolding cut
cut-fits limit tail t h = ground arith

current-combined :
    (c : ℕ) (cs note : Text) (still_open : Bool)
    → includes (combined (some (c ∷ cs)) still_open note) (c ∷ cs) ≡ true
unfolding combined
current-combined c cs note true = includes-append [] (c ∷ cs) _
current-combined c cs note false = includes-append [] (c ∷ cs) _

includes-suffix : (a s : Text) → includes (a ++ s) s ≡ true
includes-suffix a s = rw append-nil at (includes-append a s [])

note-combined :
    (current : Option Text) (note : Text) (still_open : Bool)
    → includes (combined current still_open note) note ≡ true
unfolding combined
note-combined none note b = includes-suffix [] note
note-combined (some []) note b = includes-suffix [] note
note-combined (some (c ∷ cs)) note true =
    rw append_assoc at (includes-suffix ((c ∷ cs) ++ text "\n") note)
note-combined (some (c ∷ cs)) note false =
    rw append_assoc at (includes-suffix ((c ∷ cs) ++ text " (Sorted out.)\n") note)

-- While the note fits, nothing is overwritten: it holds all that was on it before, resolved or not,
-- and the new item.
pub add_attention_note-includes :
    (c : ℕ) (cs note : Text) (still_open : Bool)
    → length (combined (some (c ∷ cs)) still_open note) ≤ note_max
    → (includes (add_attention_note (some (c ∷ cs)) still_open note) (c ∷ cs) ≡ true)
      × (includes (add_attention_note (some (c ∷ cs)) still_open note) note ≡ true)
unfolding add_attention_note
add_attention_note-includes c cs note still_open h =
    rw (cut-fits note_max too_long (combined (some (c ∷ cs)) still_open note) h)
      (current-combined c cs note still_open, note-combined (some (c ∷ cs)) note still_open)
