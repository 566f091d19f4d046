-- ===== src/Signaling/Json.antt =====
-- What the code uses of nlohmann::json, which is not part of the repository.
use zaza.Common.{ℕ, ◌≡◌, Bool, true, Bytes, bytes_eq, List, Option, none, some, Map, lookup}
use zaza.Common.Integers.{ℤ}

-- An operation that throws in C++ is `none` here.
pub record JsonLibrary : Type 1 where
  pub Json : Type 0
  -- `json::parse`
  pub parse : Bytes → Option Json
  -- The string under a key, for `j.contains(key) && j[key].is_string()`.
  pub string_at : Json → Bytes → Option Bytes
  -- An object of strings, `{{key, value}, …}`.
  pub object : Map Bytes Bytes → Json
  -- A text, a number, an array and an object as JSON.
  pub text : Bytes → Json
  pub number : ℕ → Json
  pub array : List Json → Json
  pub fields : Map Bytes Json → Json
  -- `j[key] = value`, which throws where `j` is no object.
  pub set_at : Json → Bytes → Bytes → Option Json
  pub dump : Json → Bytes
  -- `j.contains(key)`, and `j[key]`
  pub contains : Json → Bytes → Bool
  pub get : Json → Bytes → Json
  pub is_array : Json → Bool
  -- The elements that a range-based `for` goes through.
  pub elements : Json → List Json
  -- The conversion to `std::string`.
  pub as_text : Json → Option Bytes
  -- `j.value(key, fallback)`, for a text and for an `int`.
  pub text_or : Json → Bytes → Bytes → Option Bytes
  pub int_or : Json → Bytes → ℤ → Option ℤ

abbrev pub or_else : Bytes → Option Bytes → Bytes
or_else fallback none = fallback
or_else fallback (some text) = text

-- What the library's documentation says of objects of strings, in UTF-8: `dump` throws on other texts, which is left out.
pub record ObjectLaws (lib : JsonLibrary) : Type 0 where
  pub parse-dump :
      (fields : Map Bytes Bytes)
      → lib.parse (lib.dump (lib.object fields)) ≡ some (lib.object fields)
  pub string_at-object :
      (fields : Map Bytes Bytes) (key : Bytes)
      → lib.string_at (lib.object fields) key ≡ lookup key fields
  pub text_or-object :
      (fields : Map Bytes Bytes) (key fallback : Bytes)
      → lib.text_or (lib.object fields) key fallback ≡ some (or_else fallback (lookup key fields))
  pub contains-object :
      (fields : Map Bytes Bytes) (key text : Bytes)
      → lookup key fields ≡ some text
      → lib.contains (lib.object fields) key ≡ true
  pub as_text-object :
      (fields : Map Bytes Bytes) (key text : Bytes)
      → lookup key fields ≡ some text
      → lib.as_text (lib.get (lib.object fields) key) ≡ some text
