-- ===== src/Client/Parser.antt =====
-- client_cli/src/cli/parser.cpp: the words of a line, as `>>` reads them from a stream in the
-- classic locale.
use zaza.Common.{ℕ, Bool, ◌&&◌, ◌||◌, Bytes, List, [], ◌∷◌, ◌++◌, leb, ◌==◌, if◌then◌else◌}

abbrev pub is_space : ℕ → Bool
is_space c = (leb 9 c && leb c 13) || c == b' '

-- A word that is complete; no word is empty.
abbrev pub end_word : Bytes → List Bytes → List Bytes
end_word [] rest = rest
end_word (c ∷ word) rest = (c ∷ word) ∷ rest

-- The words of a text behind the part of a word that is read.
unfoldable pub words_from : Bytes → Bytes → List Bytes
words_from word [] = end_word word []
words_from word (c ∷ line) =
    let next = words_from (if is_space c then [] else word ++ (c ∷ [])) line in
    if is_space c then end_word word next else next

pub record Command : Type 0 where
  pub name : Bytes
  pub args : List Bytes

unfoldable pub parse_line : Bytes → Command
unfolding words_from
parse_line line = elim (words_from [] line) [
  | [] ↦ record { name = []; args = [] }
  | name ∷ args ↦ record { name = name; args = args }
]
