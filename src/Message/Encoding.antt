-- ===== src/Message/Encoding.antt =====
-- The attributes as the builder writes them: the encoding that `addAttr` appends.
use mathlib.Core.List.{append_assoc, append-nil}
use zaza.Common.{
  ℕ, zero, ◌-◌, ◌%◌, ◌^◌, ◌≤◌, ◌<◌, ◌≡◌, refl, sym, ap, ◌∙◌, arith, Bytes, List, [], ◌∷◌, ◌++◌,
  length, length-append, length-replicate, take, All, byte_at,
}
use zaza.Message.Types.{Attribute}
use zaza.Message.Parser.{padding}
use zaza.Message.Builder.{MessageBuilder, add_attr, pad}

-- An attribute that the wire format can carry.
pub record FitsWire (a : Attribute) : Type 0 where
  pub type_fits : a.type < 2 ^ 16
  pub value_fits : length a.value < 2 ^ 16

-- The header of an attribute, and the attributes one behind the other.
abbrev pub attr_header : Attribute → Bytes
attr_header a =
    byte_at a.type 8
    ∷ byte_at a.type 0
    ∷ byte_at (length a.value) 8
    ∷ byte_at (length a.value) 0
    ∷ []

unfoldable pub encoding : List Attribute → Bytes
encoding [] = []
encoding (a ∷ rest) = attr_header a ++ (a.value ++ (pad (length a.value) ++ encoding rest))

-- A chain of `addAttr` calls.
unfoldable pub add_attrs : MessageBuilder → List Attribute → MessageBuilder
add_attrs b [] = b
add_attrs b (a ∷ rest) = add_attrs (add_attr b a.type a.value) rest

pub take_all : (xs : Bytes) → take (length xs) xs ≡ xs
take_all [] = refl
take_all (x ∷ xs) = ap (◌∷◌ x) (take_all xs)

pub length-pad : (n : ℕ) → length (pad n) ≡ padding n
length-pad n = ground (arith, length-replicate (4 - n % 4) (zero))

pub add_attr-attrs_buf :
    (b : MessageBuilder) (a : Attribute)
    → FitsWire a
    → (add_attr b a.type a.value).attrs_buf
      ≡ b.attrs_buf ++ (attr_header a ++ (a.value ++ pad (length a.value)))
unfolding add_attr
add_attr-attrs_buf b a w =
    let e : length a.value % 2 ^ 16 ≡ length a.value = omega arith in rw (e, take_all a.value)

-- The builder's buffer is the encoding of what was added.
pub add_attrs-attrs_buf :
    (b : MessageBuilder) (attrs : List Attribute)
    → All FitsWire attrs
    → (add_attrs b attrs).attrs_buf ≡ b.attrs_buf ++ encoding attrs
unfolding add_attrs encoding
add_attrs-attrs_buf b [] w = sym (append-nil _)
add_attrs-attrs_buf b (a ∷ rest) w =
    add_attrs-attrs_buf (add_attr b a.type a.value) rest w.1
    ∙ rw (add_attr-attrs_buf b a w.0) (simp append_assoc)

pub length-encoding : (attrs : List Attribute) → length attrs ≤ length (encoding attrs)
unfolding encoding
length-encoding [] = omega arith
length-encoding (a ∷ rest) = omega (
  arith,
  length-encoding rest,
  length-append a.value (pad (length a.value) ++ encoding rest),
  length-append (pad (length a.value)) (encoding rest),
)

pub add_attrs_kept :
    (b : MessageBuilder) (attrs : List Attribute)
    → ((add_attrs b attrs).msg_type ≡ b.msg_type)
      × ((add_attrs b attrs).transaction_id ≡ b.transaction_id)
unfolding add_attrs add_attr
add_attrs_kept b [] = (refl, refl)
add_attrs_kept b (a ∷ rest) = add_attrs_kept (add_attr b a.type a.value) rest
