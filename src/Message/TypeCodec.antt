-- ===== src/Message/TypeCodec.antt =====
-- The message type: `encodeType` against `decodeMethod` and `decodeClass`.
use zaza.Common.{◌≡◌, refl, ◌<◌, ◌^◌, arith}
use zaza.Message.Types.{
  MessageClass, request, indication, success_response, error_response, Method, allocate,
}
use zaza.Message.Parser.{decode_method, decode_class}
use zaza.Message.Builder.{encode_type}

-- The two bits in front of the encoded type are zero, as in a STUN message.
types_fit :
    (m : Method)
    → (encode_type m request < 2 ^ 14)
      × (encode_type m indication < 2 ^ 14)
      × (encode_type m success_response < 2 ^ 14)
      × (encode_type m error_response < 2 ^ 14)
unfolding encode_type
types_fit allocate = omega arith
types_fit _ = omega arith

pub encode_type-lt : (m : Method) (c : MessageClass) → encode_type m c < 2 ^ 14
encode_type-lt m request = (types_fit m).0
encode_type-lt m indication = (types_fit m).1
encode_type-lt m success_response = (types_fit m).2
encode_type-lt m error_response = (types_fit m).3

abbrev Decodes : Method → MessageClass → Type 0
Decodes m c = (decode_method (encode_type m c) ≡ m) × (decode_class (encode_type m c) ≡ c)

types_decode :
    (m : Method)
    → Decodes m request
      × Decodes m indication
      × Decodes m success_response
      × Decodes m error_response
unfolding encode_type decode_method decode_class
types_decode allocate = ((refl, refl), (refl, refl), (refl, refl), (refl, refl))
types_decode _ = ((refl, refl), (refl, refl), (refl, refl), (refl, refl))

-- Decoding an encoded message type gives the method and the class back, for each method
-- (`Unknown` too) and each class.
pub decode-encode_type :
    (m : Method) (c : MessageClass)
    → (decode_method (encode_type m c) ≡ m) × (decode_class (encode_type m c) ≡ c)
decode-encode_type m request = (types_decode m).0
decode-encode_type m indication = (types_decode m).1
decode-encode_type m success_response = (types_decode m).2
decode-encode_type m error_response = (types_decode m).3
