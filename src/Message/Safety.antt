-- ===== src/Message/Safety.antt =====
-- The parsers of message/parser.cpp read inside of the buffer only and end on every input.
use zaza.Common.{
  ℕ, zero, suc, ◌+◌, ◌≤◌, ◌<◌, ◌≡◌, refl, inl, inr, arith, Bool, true, false, Bytes, List, [], ltb,
  leb, ◌||◌, if◌then◌else◌, Bool-cases, length, get_elem?-some, slice, word16,
}
use zaza.Common.Checked.{Checked, ret, ◌>>=◌, read, read_range}
use zaza.Message.Types.{Attribute, ParseResult, ChannelDataResult}
use zaza.Message.Parser.{
  read_attr_header, attr_loop, parse_body, parse_cookie, parse_type, parse, parse_channel_body,
  parse_channel_data,
}

-- The code came to a result, by defined behaviour.
pub record Returns {ℓ} {A : Type ℓ} (m : Checked A) : Type ℓ where
  pub result : A
  pub is_ret : m ≡ ret result

pub ret-Returns {ℓ} : {A : Type ℓ} (a : A) → Returns (ret a)
ret-Returns a = record { result = a; is_ret = refl }

pub >>=-Returns {ℓ κ} :
    {A : Type ℓ} {B : Type κ} {m : Checked A} {f : A → Checked B}
    → Returns m
    → ((a : A) → Returns (f a))
    → Returns (m >>= f)
>>=-Returns {f = f} h k = rw h.is_ret (k h.result)

pub read-Returns : (buf : Bytes) (i : ℕ) → i < length buf → Returns (read buf i)
read-Returns buf i h = let (a, e) = get_elem?-some buf i h in record { result = a; is_ret = rw e }

pub read_range-Returns :
    (buf : Bytes) (from count : ℕ) → from + count ≤ length buf → Returns (read_range buf from count)
read_range-Returns buf from count h = record {
  result = slice buf from count;
  is_ret = ground arith;
}

pub read_attr_header-Returns :
    (buf : Bytes) (offset : ℕ) → offset + 4 ≤ length buf → Returns (read_attr_header buf offset)
unfolding read_attr_header
read_attr_header-Returns buf offset h = >>=-Returns (read-Returns buf offset (omega arith)) λ _.
    >>=-Returns (read-Returns buf (offset + 1) (omega arith)) λ _.
      >>=-Returns (read-Returns buf (offset + 2) (omega arith))
        λ _. >>=-Returns (read-Returns buf (offset + 3) (omega arith)) λ _. ret-Returns _

attr_loop-Returns :
    (fuel : ℕ) (buf : Bytes) (limit offset : ℕ) (out : List Attribute)
    → limit ≤ length buf
    → 0 < fuel
    → limit < offset + fuel
    → Returns (attr_loop fuel buf limit offset out)
unfolding attr_loop
attr_loop-Returns zero buf limit offset out h p k = elim p [ ]
attr_loop-Returns (suc fuel) buf limit offset out h p k =
    elim (Bool-cases (leb (offset + 4) limit)) [
      | inl more ↦
          rw (more, attr_loop)
            (>>=-Returns (read_attr_header-Returns buf offset (ground arith)) λ header.
              elim (Bool-cases (ltb (length buf) (offset + 4 + header.1))) [
                | inl over ↦ rw over (ret-Returns out)
                | inr fits ↦ rw fits (
                    >>=-Returns (read_range-Returns buf (offset + 4) header.1 (ground arith))
                      λ value. attr_loop-Returns fuel buf limit _ _ h (ground arith) (ground arith))
              ])
      | inr done ↦ rw (done, attr_loop) (ret-Returns out)
    ]

-- An early return.
pub test-Returns {ℓ} :
    {A : Type ℓ} (b : Bool) {m n : Checked A}
    → Returns m
    → (b ≡ false → Returns n)
    → Returns (if b then m else n)
test-Returns true h k = h
test-Returns false h k = k refl

parse_body-Returns :
    (buf : Bytes) (msg_type len : ℕ) → 20 + len ≤ length buf → Returns (parse_body buf msg_type len)
unfolding parse_body
parse_body-Returns buf msg_type len h = >>=-Returns (read_range-Returns buf 8 12 (omega arith)) λ _.
    >>=-Returns (attr_loop-Returns _ buf (20 + len) 20 [] h (omega arith) (omega arith))
      λ _. ret-Returns _

parse_cookie-Returns :
    (buf : Bytes) (msg_type len : ℕ)
    → 20 + len ≤ length buf
    → Returns (parse_cookie buf msg_type len)
unfolding parse_cookie
parse_cookie-Returns buf msg_type len h = >>=-Returns (read-Returns buf 4 (omega arith)) λ _.
    >>=-Returns (read-Returns buf 5 (omega arith)) λ _.
      >>=-Returns (read-Returns buf 6 (omega arith)) λ _.
        >>=-Returns (read-Returns buf 7 (omega arith))
          λ _. test-Returns _ (ret-Returns _) λ _. parse_body-Returns buf msg_type len h

parse_type-Returns : (buf : Bytes) (b0 : ℕ) → 20 ≤ length buf → Returns (parse_type buf b0)
unfolding parse_type
parse_type-Returns buf b0 h = >>=-Returns (read-Returns buf 1 (omega arith)) λ _.
    >>=-Returns (read-Returns buf 2 (omega arith)) λ b2.
      >>=-Returns (read-Returns buf 3 (omega arith)) λ b3.
        test-Returns (ltb (length buf) (20 + word16 b2 b3)) (ret-Returns _)
          λ fits. parse_cookie-Returns buf _ (word16 b2 b3) (ground arith)

pub parse-Returns : (buf : Bytes) → Returns (parse buf)
unfolding parse
parse-Returns buf = test-Returns (ltb (length buf) 20) (ret-Returns _) λ long.
    >>=-Returns (read-Returns buf 0 (ground arith))
      λ b0. test-Returns _ (ret-Returns _) λ _. parse_type-Returns buf b0 (ground arith)

parse_channel_body-Returns : (raw : Bytes) → 4 ≤ length raw → Returns (parse_channel_body raw)
unfolding parse_channel_body
parse_channel_body-Returns raw h = >>=-Returns (read-Returns raw 0 (omega arith)) λ r0.
    >>=-Returns (read-Returns raw 1 (omega arith)) λ r1.
      >>=-Returns (read-Returns raw 2 (omega arith)) λ r2.
        >>=-Returns (read-Returns raw 3 (omega arith)) λ r3.
          test-Returns (ltb (word16 r0 r1) 0x4000 || ltb 0x4FFF (word16 r0 r1)) (ret-Returns _) λ _.
            test-Returns (ltb (length raw) (4 + word16 r2 r3)) (ret-Returns _) λ fits.
              >>=-Returns (read_range-Returns raw 4 (word16 r2 r3) (ground arith))
                λ _. ret-Returns _

pub parse_channel_data-Returns : (raw : Bytes) → Returns (parse_channel_data raw)
unfolding parse_channel_data
parse_channel_data-Returns raw =
    test-Returns (ltb (length raw) 4) (ret-Returns _)
      λ long. parse_channel_body-Returns raw (ground arith)

-- On every buffer, well formed or not, `parse` comes to a result: it reads no byte outside of the
-- buffer, and its loop ends within the fuel.
pub parse-total : (buf : Bytes) → (r : ParseResult) × (parse buf ≡ ret r)
parse-total buf = let p = parse-Returns buf in (p.result, p.is_ret)

-- On every buffer `parse_channel_data` comes to a result and reads no byte outside of the buffer.
pub parse_channel_data-total :
    (raw : Bytes) → (r : ChannelDataResult) × (parse_channel_data raw ≡ ret r)
parse_channel_data-total raw = let p = parse_channel_data-Returns raw in (p.result, p.is_ret)
