-- ===== src/Config/Reader.antt =====
-- shared/config/config.hpp: `Config`. The data of the one instance is passed on; a file is its
-- bytes, or `none` where it cannot be opened.
use zaza.Common.{
  ℕ, ◌^◌, Bool, true, false, ◌||◌, Bytes, bytes, List, [], ◌∷◌, ◌++◌, Option, none, some, ltb, ◌==◌,
  same, bytes_eq, if◌then◌else◌, Map, lookup, insert,
}
use zaza.Common.Integers.{ℤ, pos, negsuc}
use zaza.Auth.Stoll.{stoll}

-- The lines that `std::getline` gives, behind the part of a line that is read.
abbrev pub last_line : Bytes → List Bytes
last_line [] = []
last_line (c ∷ line) = (c ∷ line) ∷ []

unfoldable pub lines_from : Bytes → Bytes → List Bytes
lines_from line [] = last_line line
lines_from line (c ∷ text) =
    let rest = lines_from (if c == b'\n' then [] else line ++ (c ∷ [])) text in
    if c == b'\n' then line ∷ rest else rest

-- `line.find(c)`: the text in front of the first such byte, and the text behind it.
unfoldable pub split_at : ℕ → Bytes → Option (Bytes × Bytes)
split_at c [] = none
split_at c (d ∷ text) =
    let later = split_at c text in
    if d == c
    then some ([], text)
    else elim later [ none ↦ none | some (front, back) ↦ some (d ∷ front, back) ]

-- A byte of `" \t\r\n"`.
abbrev pub is_blank : ℕ → Bool
is_blank c = c == b' ' || c == 9 || c == 13 || c == 10

unfoldable pub trim_front : Bytes → Bytes
trim_front [] = []
trim_front (c ∷ text) = let rest = trim_front text in if is_blank c then rest else c ∷ text

unfoldable pub trim_back : Bytes → Bytes
trim_back [] = []
trim_back (c ∷ text) = elim (trim_back text) [
  | [] ↦ if is_blank c then [] else c ∷ []
  | d ∷ rest ↦ c ∷ d ∷ rest
]

unfoldable pub trim : Bytes → Bytes
unfolding trim_front trim_back
trim text = trim_front (trim_back text)

-- The text in front of a last quote, if the text ends with one.
unfoldable pub before_quote : Bytes → Option Bytes
before_quote [] = none
before_quote (c ∷ []) = if c == b'"' then some [] else none
before_quote (c ∷ d ∷ text) = elim (before_quote (d ∷ text)) [
  | none ↦ none
  | some front ↦ some (c ∷ front)
]

-- A value of two quotes at least, in front and behind, loses them.
unfoldable pub unquote : Bytes → Bytes
unfolding before_quote
unquote [] = []
unquote (c ∷ text) =
    if c == b'"'
    then (elim (before_quote text) [ none ↦ c ∷ text | some inner ↦ inner ])
    else c ∷ text

abbrev pub is_skipped : Bytes → Bool
is_skipped [] = true
is_skipped (c ∷ line) = c == b'#'

unfoldable pub load_line : Map Bytes Bytes → Bytes → Map Bytes Bytes
unfolding split_at trim unquote
load_line data_ line = if is_skipped line then data_ else elim (split_at b'=' line) [
  | none ↦ data_
  | some (key, value) ↦ insert (trim key) (unquote (trim value)) data_
]

unfoldable pub load_lines : Map Bytes Bytes → List Bytes → Map Bytes Bytes
unfolding load_line
load_lines data_ [] = data_
load_lines data_ (line ∷ lines) = load_lines (load_line data_ line) lines

-- `load`, or `none` for the exception.
unfoldable pub load : Map Bytes Bytes → Option Bytes → Option (Map Bytes Bytes)
unfolding load_lines lines_from
load data_ none = none
load data_ (some file) = some (load_lines data_ (lines_from [] file))

unfoldable pub get : Map Bytes Bytes → Bytes → Bytes → Bytes
get data_ key default_val = elim (lookup key data_) [ none ↦ default_val | some value ↦ value ]

-- `std::stoi`, where `long` has 64 bits.
unfoldable pub stoi : Bytes → Option ℤ
unfolding stoll
stoi text = elim (stoll text) [
  | none ↦ none
  | some (pos n) ↦ if ltb n (2 ^ 31) then some (pos n) else none
  | some (negsuc n) ↦ if ltb n (2 ^ 31) then some (negsuc n) else none
]

unfoldable pub get_int : Map Bytes Bytes → Bytes → ℤ → ℤ
unfolding stoi
get_int data_ key default_val = elim (lookup key data_) [
  | none ↦ default_val
  | some value ↦ elim (stoi value) [ none ↦ default_val | some n ↦ n ]
]

unfoldable pub get_bool : Map Bytes Bytes → Bytes → Bool → Bool
unfolding get
get_bool data_ key default_val =
    let val = get data_ key [] in
    if same val (bytes "true") || same val (bytes "1") || same val (bytes "yes")
    then true
    else if same val (bytes "false") || same val (bytes "0") || same val (bytes "no")
    then false
    else default_val
