-- ===== src/Message/AttrLoop.antt =====
-- The attribute loop of `parse` on what the builder wrote.
use mathlib.Core.List.{append_assoc, append-nil}
use zaza.Common.{
  ℕ, zero, suc, ◌+◌, ◌≤◌, ◌<◌, ◌≡◌, sym, ap, ◌∙◌, arith, true, false, Bytes, List, [], ◌∷◌, ◌++◌,
  ltb, leb, length, length-append, get_elem?-append, slice-append, All, word16-byte_at,
}
use zaza.Common.Checked.{ret, ◌>>=◌, read, read_range}
use zaza.Message.Types.{Attribute}
use zaza.Message.Parser.{padding, read_attr_header, attr_loop}
use zaza.Message.Builder.{pad}
use zaza.Message.Encoding.{FitsWire, attr_header, encoding, length-pad}

-- A read behind a known prefix.
pub read-behind : (pre ys : Bytes) (i : ℕ) → read (pre ++ ys) (length pre + i) ≡ read ys i
read-behind pre ys i = rw (get_elem?-append pre ys i)

pub read-behind_first : (pre ys : Bytes) → read (pre ++ ys) (length pre) ≡ read ys 0
read-behind_first pre ys =
    let e : length pre + 0 ≡ length pre = omega arith in rw e at (read-behind pre ys 0)

pub read_attr_header-encoding :
    (pre tail : Bytes) (a : Attribute)
    → FitsWire a
    → read_attr_header (pre ++ (attr_header a ++ tail)) (length pre) ≡ ret (a.type, length a.value)
unfolding read_attr_header
read_attr_header-encoding pre tail a w = rw (
  read-behind_first pre (attr_header a ++ tail),
  read-behind pre (attr_header a ++ tail) 1,
  read-behind pre (attr_header a ++ tail) 2,
  read-behind pre (attr_header a ++ tail) 3,
  word16-byte_at a.type w.type_fits,
  word16-byte_at (length a.value) w.value_fits,
)

-- The bytes between a prefix and a rest.
pub read_range-between :
    (pre mid tail : Bytes) (start : ℕ)
    → start ≡ length pre
    → read_range (pre ++ (mid ++ tail)) start (length mid) ≡ ret mid
read_range-between pre mid tail start e =
    let room : leb (length pre + length mid) (length (pre ++ (mid ++ tail))) ≡ true =
      ground (arith, length-append pre (mid ++ tail), length-append mid tail) in
    rw (e, room) (ap ret (slice-append pre mid tail))

-- The bytes of the first attribute and what follows them.
abbrev pub attr_then : Attribute → Bytes → Bytes
attr_then a tail = attr_header a ++ (a.value ++ (pad (length a.value) ++ tail))

pub length-attr_then :
    (a : Attribute) (tail : Bytes)
    → length (attr_then a tail) ≡ 4 + length a.value + padding (length a.value) + length tail
length-attr_then a tail = omega (
  arith,
  length-append a.value (pad (length a.value) ++ tail),
  length-append (pad (length a.value)) tail,
  length-pad (length a.value),
)

-- One round of the loop on an attribute that the builder wrote.
pub attr_loop_step :
    (a : Attribute) (fuel : ℕ) (pre tail : Bytes) (limit : ℕ) (out : List Attribute)
    → FitsWire a
    → length pre + 4 ≤ limit
    → attr_loop (suc fuel) (pre ++ attr_then a tail) limit (length pre) out
      ≡ attr_loop fuel
          (pre ++ attr_then a tail)
          limit
          (length pre + 4 + length a.value + padding (length a.value))
          (out ++ (a ∷ []))
unfolding attr_loop
attr_loop_step a fuel pre tail limit out w h =
    let more : leb (length pre + 4) limit ≡ true = ground arith in
    let fits : ltb (length (pre ++ attr_then a tail)) (length pre + 4 + length a.value) ≡ false =
      ground (arith, length-append pre (attr_then a tail), length-attr_then a tail) in
    let value : read_range (pre ++ attr_then a tail) (length pre + 4) (length a.value)
        ≡ ret a.value =
      rw (← append_assoc pre (attr_header a) (a.value ++ (pad (length a.value) ++ tail))) (
        read_range-between (pre ++ attr_header a) a.value (pad (length a.value) ++ tail) _
          (omega (arith, length-append pre (attr_header a)))) in
    rw
      (
        more,
        attr_loop,
        read_attr_header-encoding pre (a.value ++ (pad (length a.value) ++ tail)) a w,
        ◌>>=◌,
      )
      (rw (fits, value, ◌>>=◌))

pub attr_loop-encoding :
    (attrs : List Attribute) (fuel : ℕ) (buf pre tail : Bytes) (limit offset : ℕ)
    (out : List Attribute)
    → All FitsWire attrs
    → length attrs < fuel
    → buf ≡ pre ++ (encoding attrs ++ tail)
    → limit ≡ length pre + length (encoding attrs)
    → offset ≡ length pre
    → attr_loop fuel buf limit offset out ≡ ret (out ++ attrs)
attr_loop-encoding [] zero buf pre tail limit offset out w h eb el eo = elim h [ ]
attr_loop-encoding [] (suc fuel) buf pre tail limit offset out w h eb el eo =
    let done : leb (offset + 4) limit ≡ false = unfold encoding in ground arith in
    unfold attr_loop in rw (done, attr_loop) (rw append-nil)
attr_loop-encoding (a ∷ rest) zero buf pre tail limit offset out w h eb el eo = elim h [ ]
attr_loop-encoding (a ∷ rest) (suc fuel) buf pre tail limit offset out w h eb el eo =
    let shape : pre ++ (encoding (a ∷ rest) ++ tail) ≡ pre ++ attr_then a (encoding rest ++ tail) =
      unfold encoding in simp append_assoc in
    let front : Bytes = pre ++ (attr_header a ++ (a.value ++ pad (length a.value))) in
    let size : length (encoding (a ∷ rest))
        ≡ 4 + length a.value + padding (length a.value) + length (encoding rest) =
      unfold encoding in length-attr_then a (encoding rest) in
    let size_front : length front ≡ length pre + 4 + length a.value + padding (length a.value) =
      omega (
        arith,
        length-append pre (attr_header a ++ (a.value ++ pad (length a.value))),
        length-append a.value (pad (length a.value)),
        length-pad (length a.value),
      ) in
    rw (eb, shape, eo)
      (attr_loop_step a fuel pre (encoding rest ++ tail) limit out w.0 (omega arith)
        ∙ attr_loop-encoding rest fuel _ front tail limit _ (out ++ (a ∷ [])) w.1 (omega arith)
            (simp append_assoc) (omega arith) (sym size_front)
        ∙ ap ret (append_assoc out (a ∷ []) rest))
