-- ===== src/Tests/Contracts.antt =====
-- contracts/hash.js, on an object with two fields.
use tavern_mnemosyne.Prelude.{◌≡◌, refl, ◌≢◌, codes, arith, pos}
use tavern_mnemosyne.Contracts.Json.{
  obj, num, Fields, end, field, canonical_json, canonicalize, canonicalize_fields, insert_field,
  text_leb, stringify, quote, decimal,
}
use tavern_mnemosyne.Contracts.Json.Order.{swapped, canonical_json-Reordered}

abbrev b_first : Fields
b_first = field (codes "b") (num (pos 1)) (field (codes "a") (num (pos 20)) end)

abbrev a_first : Fields
a_first = field (codes "a") (num (pos 20)) (field (codes "b") (num (pos 1)) end)

names_differ : codes "b" ≢ codes "a"
names_differ h = absurd (ground (arith, h))

canonical_json-Reordered_example : canonical_json (obj b_first) ≡ canonical_json (obj a_first)
canonical_json-Reordered_example =
    canonical_json-Reordered b_first a_first
      (swapped (codes "b") (codes "a") (num (pos 1)) (num (pos 20)) names_differ)

canonical_run : canonical_json (obj b_first) ≡ codes "{\"a\":20,\"b\":1}"
unfolding canonical_json canonicalize canonicalize_fields insert_field text_leb stringify quote
    decimal
canonical_run = refl
