-- ===== src/Tests/FlatJson.antt =====
-- A JSON library for the tests: an object is a list of pairs of texts. A text is written as its
-- bytes, each one higher, and a zero.
use zaza.Common.{
  ℕ, zero, suc, ◌≡◌, refl, ap, ◌∙◌, true, false, Bytes, List, [], ◌∷◌, none, some, insert, lookup,
  Map, bytes_eq,
}
use zaza.Signaling.Json.{JsonLibrary, ObjectLaws, or_else}

unfoldable pub write_text : Bytes → Bytes → Bytes
write_text [] rest = 0 ∷ rest
write_text (c ∷ text) rest = suc c ∷ write_text text rest

unfoldable pub write_fields : Map Bytes Bytes → Bytes
unfolding write_text
write_fields [] = []
write_fields ((key, value) ∷ fields) = write_text key (write_text value (write_fields fields))

unfoldable pub onto_first : ℕ → List Bytes → List Bytes
onto_first c [] = (c ∷ []) ∷ []
onto_first c (text ∷ texts) = (c ∷ text) ∷ texts

unfoldable pub read_texts : Bytes → List Bytes
unfolding onto_first
read_texts [] = []
read_texts (zero ∷ rest) = [] ∷ read_texts rest
read_texts (suc c ∷ rest) = onto_first c (read_texts rest)

unfoldable pub read_pairs : List Bytes → Map Bytes Bytes
read_pairs [] = []
read_pairs (key ∷ []) = []
read_pairs (key ∷ value ∷ texts) = (key, value) ∷ read_pairs texts

read_texts-write_text :
    (text rest : Bytes) → read_texts (write_text text rest) ≡ text ∷ read_texts rest
unfolding write_text read_texts onto_first
read_texts-write_text [] rest = refl
read_texts-write_text (c ∷ text) rest = ap (onto_first c) (read_texts-write_text text rest)

read-write : (fields : Map Bytes Bytes) → read_pairs (read_texts (write_fields fields)) ≡ fields
unfolding write_fields read_texts read_pairs
read-write [] = refl
read-write ((key, value) ∷ fields) =
    ap read_pairs (
      read_texts-write_text key (write_text value (write_fields fields))
      ∙ ap (λ texts. key ∷ texts) (read_texts-write_text value (write_fields fields)))
    ∙ ap (λ rest. (key, value) ∷ rest) (read-write fields)

abbrev pub flat : JsonLibrary
flat = record {
  Json = Map Bytes Bytes;
  parse = λ raw. some (read_pairs (read_texts raw));
  string_at = λ j key. lookup key j;
  object = λ fields. fields;
  text = λ t. ([], t) ∷ [];
  number = λ n. [];
  array = λ js. [];
  fields = λ fs. [];
  set_at = λ j key value. some (insert key value j);
  dump = write_fields;
  contains = λ j key. elim (lookup key j) [ none ↦ false | some text ↦ true ];
  get = λ j key. elim (lookup key j) [ none ↦ [] | some text ↦ ([], text) ∷ [] ];
  is_array = λ j. false;
  elements = λ j. [];
  as_text = λ j. lookup [] j;
  text_or = λ j key fallback. some (or_else fallback (lookup key j));
  int_or = λ j key fallback. some fallback;
}

pub flat-ObjectLaws : ObjectLaws flat
flat-ObjectLaws = record {
  parse-dump = λ fields. ap some (read-write fields);
  string_at-object = λ fields key. refl;
  text_or-object = λ fields key fallback. refl;
  contains-object = λ fields key text found. rw found refl;
  as_text-object = λ fields key text found. rw found refl;
}
