-- ===== src/Tests/Message.antt =====
-- Runs of the wire format, and its theorems at concrete inputs.
use zaza.Common.{◌≡◌, refl, arith, Bytes, bytes, [], ◌∷◌, ◌++◌, length, replicate, true}
use zaza.Common.Checked.{ret}
use zaza.Message.AttrType
use zaza.Message.Types.{Attribute, ParseResult, ChannelDataResult, allocate, request}
use zaza.Message.Parser.{parse, parse_channel_data, is_channel_data}
use zaza.Message.Builder.{message_builder, build, make_channel_data}
use zaza.Message.Encoding.{add_attrs, encoding}
use zaza.Message.RoundTrip.{parse-build}
use zaza.Message.Channel.{parse-make_channel_data}

abbrev tid : Bytes
tid = replicate 12 7

abbrev user_attr : Attribute
user_attr = record { type = AttrType.username; value = bytes "alice" }

abbrev transport_attr : Attribute
transport_attr = record { type = AttrType.requested_transport; value = 17 ∷ 0 ∷ 0 ∷ 0 ∷ [] }

parse_short : parse (0 ∷ 1 ∷ []) ≡ ret ParseResult.too_short
unfolding parse
parse_short = refl

parse-build_example :
    parse (
      build (add_attrs (message_builder allocate request tid) (user_attr ∷ transport_attr ∷ []))
      ++ (9 ∷ []))
    ≡ ret (
        ParseResult.ok (record {
          msg_class = request;
          method = allocate;
          body_length = length (encoding (user_attr ∷ transport_attr ∷ []));
          transaction_id = tid;
          attributes = user_attr ∷ transport_attr ∷ [];
        }))
unfolding encoding
parse-build_example =
    parse-build allocate request tid (user_attr ∷ transport_attr ∷ []) (9 ∷ []) refl
      (
        record { type_fits = omega arith; value_fits = omega arith },
        (record { type_fits = omega arith; value_fits = omega arith }, tt),
      )
      (omega arith)

parse-make_channel_data_example :
    (is_channel_data (make_channel_data 0x4001 (bytes "hello") ++ []) ≡ ret true)
    × (parse_channel_data (make_channel_data 0x4001 (bytes "hello") ++ [])
        ≡ ret (ChannelDataResult.ok (record { channel_number = 0x4001; payload = bytes "hello" })))
parse-make_channel_data_example =
    parse-make_channel_data 0x4001 (bytes "hello") [] (omega arith) (omega arith) (omega arith)
