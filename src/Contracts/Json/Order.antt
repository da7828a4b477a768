-- ===== src/Contracts/Json/Order.antt =====
-- The canonical text of an object does not depend on the order of its fields.
use tavern_mnemosyne.Prelude.{◌≡◌, refl, ap, ◌∙◌, ◌≢◌, true, false, [], ◌∷◌, Text, arith}
use tavern_mnemosyne.Contracts.Json.{
  Json, obj, Fields, end, field, text_leb, insert_field, canonicalize, canonicalize_fields,
  canonical_json,
}

text_leb_total : (s t : Text) → text_leb s t ≡ false → text_leb t s ≡ true
unfolding text_leb
text_leb_total [] t h = absurd (ground (arith, h))
text_leb_total (x ∷ s) [] h = refl
text_leb_total (x ∷ s) (y ∷ t) h = ground (arith, text_leb_total s t)

text_leb_antisym : (s t : Text) → text_leb s t ≡ true → text_leb t s ≡ true → s ≡ t
unfolding text_leb
text_leb_antisym [] [] h k = refl
text_leb_antisym [] (y ∷ t) h k = absurd (ground (arith, k))
text_leb_antisym (x ∷ s) [] h k = absurd (ground (arith, h))
text_leb_antisym (x ∷ s) (y ∷ t) h k = ground (arith, text_leb_antisym s t)

text_leb_trans : (s t u : Text) → text_leb s t ≡ true → text_leb t u ≡ true → text_leb s u ≡ true
unfolding text_leb
text_leb_trans [] t u h k = refl
text_leb_trans (x ∷ s) [] u h k = absurd (ground (arith, h))
text_leb_trans (x ∷ s) (y ∷ t) [] h k = absurd (ground (arith, k))
text_leb_trans (x ∷ s) (y ∷ t) (z ∷ u) h k = ground (arith, text_leb_trans s t u)

insert_field_comm :
    (k j : Text) (v w : Json) (fs : Fields)
    → k ≢ j
    → insert_field k v (insert_field j w fs) ≡ insert_field j w (insert_field k v fs)
unfolding insert_field
insert_field_comm k j v w end differ =
    ground (arith, text_leb_total k j, text_leb_total j k, text_leb_antisym k j, differ)
insert_field_comm k j v w (field i u fs) differ = ground (
  arith,
  insert_field_comm k j v w fs differ,
  text_leb_total k j,
  text_leb_total j k,
  text_leb_antisym k j,
  text_leb_total k i,
  text_leb_total j i,
  text_leb_trans k j i,
  text_leb_trans j k i,
  differ,
)

-- The same fields in another order, where fields that change places have different keys.
pub data Reordered : Fields → Fields → Type 0 where
  same : {fs : Fields} → Reordered fs fs
  kept :
      {fs gs : Fields} (k : Text) (v : Json)
      → Reordered fs gs
      → Reordered (field k v fs) (field k v gs)
  swapped :
      {fs : Fields} (k j : Text) (v w : Json)
      → k ≢ j
      → Reordered (field k v (field j w fs)) (field j w (field k v fs))
  chained : {fs gs hs : Fields} → Reordered fs gs → Reordered gs hs → Reordered fs hs

canonicalize-Reordered :
    {fs gs : Fields} → Reordered fs gs → canonicalize_fields fs ≡ canonicalize_fields gs
unfolding canonicalize_fields
canonicalize-Reordered same = refl
canonicalize-Reordered (kept k v r) =
    ap (insert_field k (canonicalize v)) (canonicalize-Reordered r)
canonicalize-Reordered (swapped {fs = fs} k j v w differ) =
    insert_field_comm k j (canonicalize v) (canonicalize w) (canonicalize_fields fs) differ
canonicalize-Reordered (chained r s) = canonicalize-Reordered r ∙ canonicalize-Reordered s

-- Two objects of which one has the fields of the other in another order have the same canonical text.
pub canonical_json-Reordered :
    (fs gs : Fields) → Reordered fs gs → canonical_json (obj fs) ≡ canonical_json (obj gs)
unfolding canonical_json canonicalize
canonical_json-Reordered fs gs r = rw (canonicalize-Reordered r) refl
