-- ===== src/Products/Image.antt =====
-- Product photos (apps/api/src/modules/products/image.ts). The bytes are those that the base64
-- text decodes to.
use zak_s_sizzling.Menu.{product_not_found}
use zak_s_sizzling.Prelude.{
  ℕ, zero, suc, ◌%◌, map, ◌*◌, ◌≤◌, ◌<◌, ◌≡◌, refl, Bool, true, false, not, ◌&&◌, Option, none,
  some, List, [], ◌∷◌, ◌++◌, ◌==◌, ltb, leb, if◌then◌else◌, is_some, length, take, arith,
  Option-cases, inl, inr,
}
use zak_s_sizzling.Prelude.Text.{Text, text, text_eq, starts_with}
use zak_s_sizzling.Prelude.Dict.{lookup, insert, lookup-insert}
use zak_s_sizzling.Store.{
  Db, ImageType, webp, jpeg, png, ProductImage, Error, http_error, Result, ok, err, Proc,
  throw_if_state, write, ◌>>=◌, ◌>>◌,
}
use zak_s_sizzling.Products.{without}

abbrev pub max_image_bytes : ℕ
max_image_bytes = 512 * 1024

abbrev drop : ℕ → Text → Text
drop zero t = t
drop (suc n) [] = []
drop (suc n) (c ∷ t) = drop n t

abbrev png_signature : Text
png_signature = 0x89 ∷ 0x50 ∷ 0x4e ∷ 0x47 ∷ 0x0d ∷ 0x0a ∷ 0x1a ∷ 0x0a ∷ []

-- Node's "ascii" decoding drops a byte's top bit.
abbrev ascii : Text → Text
ascii t = map (λ c. c % 128) t

-- The format from the file's first bytes.
unfoldable pub detect_image_type : List ℕ → Option ImageType
detect_image_type bytes =
    if leb 12 (length bytes)
      && (text_eq (ascii (take 4 bytes)) (text "RIFF")
          && text_eq (ascii (take 4 (drop 8 bytes))) (text "WEBP"))
    then some webp
    else if starts_with bytes (0xff ∷ 0xd8 ∷ 0xff ∷ [])
    then some jpeg
    else if starts_with bytes png_signature
    then some png
    else none

abbrev same_type : ImageType → ImageType → Bool
same_type webp webp = true
same_type jpeg jpeg = true
same_type png png = true
same_type _ _ = false

abbrev type_text : ImageType → Text
type_text webp = text "image/webp"
type_text jpeg = text "image/jpeg"
type_text png = text "image/png"

pub empty_photo : Error
empty_photo = http_error 400 (text "The photo is empty")

pub large_photo : Error
large_photo = http_error 413 (text "The photo is too large. Choose a smaller one.")

pub unknown_format : Error
unknown_format = http_error 415 (text "The photo must be a JPEG, PNG or WebP image")

pub other_format : ImageType → ImageType → Error
other_format detected claimed =
    http_error 415
      (text "The file is a " ++ (type_text detected ++ (text ", not a " ++ type_text claimed)))

unfoldable pub assert_product_exists : ℕ → Proc (Unit {0})
unfolding product_not_found
assert_product_exists id =
    throw_if_state (λ db. not (is_some (lookup id db.products))) product_not_found

-- The checks of the bytes: what the photo is.
unfoldable pub check_photo : ImageType → List ℕ → Result ImageType
unfolding empty_photo large_photo unknown_format other_format detect_image_type
check_photo claimed bytes =
    if length bytes == 0
    then err empty_photo
    else if ltb max_image_bytes (length bytes)
    then err large_photo
    else elim (detect_image_type bytes) [
      | none ↦ err unknown_format
      | some t ↦ if same_type t claimed then ok t else err (other_format t claimed)
    ]

unfoldable pub save_product_image : ℕ → ℕ → ImageType → List ℕ → Proc (Unit {0})
unfolding check_photo assert_product_exists
save_product_image now id claimed bytes = do
  detected ← (λ db. (check_photo claimed bytes, db))
  assert_product_exists id
  write (λ db. record db {
    images =
        insert id (record { bytes = bytes; content_type = detected; updated_at = now }) db.images;
  })

-- Removing none is fine.
unfoldable pub delete_product_image : ℕ → Proc (Unit {0})
unfolding assert_product_exists
delete_product_image id = do
  assert_product_exists id
  write (λ db. record db { images = without id db.images })

unfoldable pub get_product_image : ℕ → Db → Option ProductImage
get_product_image id db = lookup id db.images

same_type-eq : (s t : ImageType) → same_type s t ≡ true → s ≡ t
same_type-eq webp webp h = refl
same_type-eq jpeg jpeg h = refl
same_type-eq png png h = refl
same_type-eq webp jpeg h = cc
same_type-eq webp png h = cc
same_type-eq jpeg webp h = cc
same_type-eq jpeg png h = cc
same_type-eq png webp h = cc
same_type-eq png jpeg h = cc

-- A photo that is taken is not empty, fits the limit, and is of the format that its own first bytes
-- show, whatever the upload called it; it is the photo that is then served, and no other changes.
pub save_product_image-checked :
    (now id j : ℕ) (claimed : ImageType) (bytes : List ℕ) (db db' : Db)
    → save_product_image now id claimed bytes db ≡ (ok tt, db')
    → (0 < length bytes)
      × (length bytes ≤ max_image_bytes)
      × (detect_image_type bytes ≡ some claimed)
      × (get_product_image j db' ≡ (
          if id == j
          then some (record { bytes = bytes; content_type = claimed; updated_at = now })
          else get_product_image j db))
unfolding save_product_image check_photo assert_product_exists get_product_image
save_product_image-checked now id j claimed bytes db db' h =
    elim (Option-cases (detect_image_type bytes)) [
      | inl e ↦ ground (arith, e)
      | inr (t, e) ↦
          let same : t ≡ claimed = same_type-eq t claimed (ground (arith, e)) in
          (
            ground (arith, e),
            ground (arith, e),
            ground (arith, e, same),
            ground (
              arith,
              e,
              same,
              lookup-insert id j (record { bytes = bytes; content_type = t; updated_at = now })
                  db.images,
            ),
          )
    ]

-- A photo that is refused leaves everything as it was.
pub save_product_image-refused :
    (now id : ℕ) (claimed : ImageType) (bytes : List ℕ) (db db' : Db) (e : Error)
    → save_product_image now id claimed bytes db ≡ (err e, db')
    → db' ≡ db
unfolding save_product_image assert_product_exists
save_product_image-refused now id claimed bytes db db' e h = ground arith
