-- ===== src/Config/Settings.antt =====
-- What a file of settings comes to.
use zaza.Common.{
  ℕ, ◌≡◌, refl, sym, ap, ◌∙◌, arith, Bool, true, false, not, Bytes, List, [], ◌∷◌, ◌++◌, some, ◌==◌,
  bytes_eq, All, All-append, Map, insert,
}
use mathlib.Core.List.{append_assoc, append-nil}
use zaza.Config.Reader.{
  lines_from, split_at, is_blank, trim_front, trim_back, trim, before_quote, unquote, is_skipped,
  load_line, load_lines, load,
}

Lacks : ℕ → Bytes → Type 0
Lacks c text = All (λ d. (d == c) ≡ false) text

abbrev pub is_comment : Bytes → Bool
is_comment [] = false
is_comment (c ∷ key) = c == b'#'

-- A line of a file: a key with a text in front of it and one behind it, and a value.
pub record Line : Type 0 where
  pub front : Bytes
  pub key : Bytes
  pub back : Bytes
  pub value : Bytes

abbrev left_side : Line → Bytes
left_side l = l.front ++ (l.key ++ l.back)

abbrev pub starts_bare : Bytes → Bool
starts_bare [] = false
starts_bare (c ∷ key) = not (is_blank c)

abbrev pub ends_bare : Bytes → Bool
ends_bare [] = false
ends_bare (c ∷ []) = not (is_blank c)
ends_bare (c ∷ d ∷ key) = ends_bare (d ∷ key)

-- A key that starts and ends with a byte that is no blank, and holds no `=` and no line break, with
-- blanks around it; no `#` in front of the line; and a value with no line break.
pub record IsSetting (l : Line) : Type 0 where
  pub bare_front : starts_bare l.key ≡ true
  pub bare_back : ends_bare l.key ≡ true
  pub blank_front : All (λ d. is_blank d ≡ true) l.front
  pub blank_back : All (λ d. is_blank d ≡ true) l.back
  pub one_line_key : All (λ d. (d == b'\n') ≡ false) (l.front ++ (l.key ++ l.back))
  pub no_equals : All (λ d. (d == b'=') ≡ false) (l.front ++ (l.key ++ l.back))
  pub no_comment : is_comment (l.front ++ (l.key ++ l.back)) ≡ false
  pub one_line : All (λ d. (d == b'\n') ≡ false) l.value

-- `KEY="value"`
abbrev pub quoted : Bytes × Bytes → Bytes
quoted (key, value) = key ++ (b'=' ∷ b'"' ∷ (value ++ (b'"' ∷ [])))

unfoldable pub render : List Line → Bytes
render [] = []
render (l ∷ lines) = quoted (left_side l, l.value) ++ (b'\n' ∷ render lines)

-- The settings of the lines, in order.
abbrev pub set_all : Map Bytes Bytes → List Line → Map Bytes Bytes
set_all data_ [] = data_
set_all data_ (l ∷ lines) = set_all (insert l.key l.value data_) lines

trim_back-bare : (text : Bytes) → ends_bare text ≡ true → trim_back text ≡ text
unfolding trim_back
trim_back-bare [] h = refl
trim_back-bare (c ∷ []) h = ground (arith, h)
trim_back-bare (c ∷ d ∷ text) h = rw (trim_back, trim_back-bare (d ∷ text) h) refl

trim_back-blanks : (blanks : Bytes) → All (λ d. is_blank d ≡ true) blanks → trim_back blanks ≡ []
unfolding trim_back
trim_back-blanks [] h = refl
trim_back-blanks (c ∷ blanks) (h, hs) = rw (trim_back, trim_back-blanks blanks hs, h) refl

trim_back-append :
    (text blanks : Bytes)
    → All (λ d. is_blank d ≡ true) blanks
    → trim_back (text ++ blanks) ≡ trim_back text
unfolding trim_back
trim_back-append [] blanks h = trim_back-blanks blanks h
trim_back-append (c ∷ text) blanks h = rw (trim_back, trim_back-append text blanks h) refl

ends_bare-append : (front key : Bytes) → ends_bare key ≡ true → ends_bare (front ++ key) ≡ true
ends_bare-append [] key h = h
ends_bare-append (c ∷ []) [] h = absurd (cc)
ends_bare-append (c ∷ []) (d ∷ key) h = h
ends_bare-append (c ∷ d ∷ front) key h = ends_bare-append (d ∷ front) key h

trim_front-append :
    (front key : Bytes)
    → All (λ d. is_blank d ≡ true) front
    → starts_bare key ≡ true
    → trim_front (front ++ key) ≡ key
unfolding trim_front
trim_front-append [] [] hs h = absurd (cc)
trim_front-append [] (c ∷ key) hs h = ground (arith, h)
trim_front-append (c ∷ front) key (b, bs) h = rw (trim_front, b) (trim_front-append front key bs h)

trim-left_side : (l : Line) → IsSetting l → trim (left_side l) ≡ l.key
unfolding trim
trim-left_side l x =
    ap (λ t. trim_front (trim_back t)) (sym (append_assoc l.front l.key l.back))
    ∙ ap trim_front (
        trim_back-append (l.front ++ l.key) l.back x.blank_back
        ∙ trim_back-bare (l.front ++ l.key) (ends_bare-append l.front l.key x.bare_back))
    ∙ trim_front-append l.front l.key x.blank_front x.bare_front

lines_from-line :
    (before line rest : Bytes)
    → Lacks b'\n' line
    → lines_from before (line ++ (b'\n' ∷ rest)) ≡ (before ++ line) ∷ lines_from [] rest
unfolding lines_from Lacks
lines_from-line before [] rest h = ap (λ l. l ∷ lines_from [] rest) (sym (append-nil before))
lines_from-line before (c ∷ line) rest (h, hs) =
    rw (lines_from, h)
      (lines_from-line (before ++ (c ∷ [])) line rest hs
        ∙ ap (λ l. l ∷ lines_from [] rest) (append_assoc before (c ∷ []) line))

split_at-front :
    (c : ℕ) (front back : Bytes)
    → Lacks c front
    → split_at c (front ++ (c ∷ back)) ≡ some (front, back)
unfolding split_at Lacks
split_at-front c [] back h = ground arith
split_at-front c (d ∷ front) back (h, hs) = rw (split_at, h, split_at-front c front back hs) refl

trim_back-kept :
    (text : Bytes) (d : ℕ) → is_blank d ≡ false → trim_back (text ++ (d ∷ [])) ≡ text ++ (d ∷ [])
unfolding trim_back
trim_back-kept [] d h = rw (trim_back, h) refl
trim_back-kept (c ∷ []) d h = rw (trim_back, h) refl
trim_back-kept (c ∷ e ∷ text) d h = rw (trim_back, trim_back-kept (e ∷ text) d h) refl

before_quote-text : (text : Bytes) → before_quote (text ++ (b'"' ∷ [])) ≡ some text
unfolding before_quote
before_quote-text [] = refl
before_quote-text (c ∷ []) = refl
before_quote-text (c ∷ d ∷ text) = rw (before_quote, before_quote-text (d ∷ text)) refl

unquote-trim : (value : Bytes) → unquote (trim (b'"' ∷ (value ++ (b'"' ∷ [])))) ≡ value
unfolding unquote trim trim_front
unquote-trim value =
    rw (trim, trim_back-kept (b'"' ∷ value) b'"' refl, trim_front, unquote, before_quote-text value)
      refl

is_skipped-quoted :
    (key value : Bytes) → is_comment key ≡ false → is_skipped (quoted (key, value)) ≡ false
is_skipped-quoted [] value h = refl
is_skipped-quoted (c ∷ key) value h = h

load_line-quoted :
    (data_ : Map Bytes Bytes) (l : Line)
    → IsSetting l
    → load_line data_ (quoted (left_side l, l.value)) ≡ insert l.key l.value data_
unfolding load_line Lacks
load_line-quoted data_ l x =
    rw
      (
        load_line,
        is_skipped-quoted (left_side l) l.value x.no_comment,
        split_at-front b'=' (left_side l) (b'"' ∷ (l.value ++ (b'"' ∷ []))) x.no_equals,
        unquote-trim l.value,
        trim-left_side l x,
      )
      refl

quoted-Lacks : (l : Line) → IsSetting l → Lacks b'\n' (quoted (left_side l, l.value))
unfolding Lacks
quoted-Lacks l x =
    All-append (λ d. (d == b'\n') ≡ false) (left_side l) (b'=' ∷ b'"' ∷ (l.value ++ (b'"' ∷ [])))
      x.one_line_key
      (
        refl,
        (refl, All-append (λ d. (d == b'\n') ≡ false) l.value (b'"' ∷ []) x.one_line (refl, tt)),
      )

load_lines-render :
    (data_ : Map Bytes Bytes) (lines : List Line)
    → All IsSetting lines
    → load_lines data_ (lines_from [] (render lines)) ≡ set_all data_ lines
unfolding load_lines render lines_from
load_lines-render data_ [] h = refl
load_lines-render data_ (l ∷ lines) (x, xs) =
    rw
      (
        render,
        lines_from-line [] (quoted (left_side l, l.value)) (render lines) (quoted-Lacks l x),
        load_lines,
        load_line-quoted data_ l x,
      )
      (load_lines-render (insert l.key l.value data_) lines xs)

-- A file of lines `KEY="value"`, with blanks around each key, is loaded as its settings, in order: each key without
-- these blanks, each value as it stands between the outer quotes, and a later line with the same key replaces the
-- value of an earlier one. A key is not empty, has no blank at its ends and holds no `=`, no line starts with `#`,
-- and keys, blanks and values hold no line break.
pub load-render :
    (data_ : Map Bytes Bytes) (lines : List Line)
    → All IsSetting lines
    → load data_ (some (render lines)) ≡ some (set_all data_ lines)
unfolding load
load-render data_ lines h = ap some (load_lines-render data_ lines h)
