-- ===== src/Message/Types.antt =====
-- message/parser.hpp: the types of a TURN message and of the results of the parsers.
use zaza.Common.{ℕ, Bytes, List, [], ◌∷◌, Option, none, some, ◌==◌, if◌then◌else◌}
use zaza.Message.AttrType.{AttrType}

pub data MessageClass : Type 0 where
  request indication success_response error_response : MessageClass

-- `data_method` is `Method::Data`.
pub data Method : Type 0 where
  allocate refresh send data_method create_permission channel_bind unknown : Method

-- The values of the two enums.
abbrev pub class_code : MessageClass → ℕ
class_code request = 0x00
class_code indication = 0x01
class_code success_response = 0x02
class_code error_response = 0x03

abbrev pub method_code : Method → ℕ
method_code allocate = 0x003
method_code refresh = 0x004
method_code send = 0x006
method_code data_method = 0x007
method_code create_permission = 0x008
method_code channel_bind = 0x009
method_code unknown = 0xFFF

pub record Attribute : Type 0 where
  pub type : AttrType
  pub value : Bytes

-- `body_length` is the field `length`. A transaction id has 12 bytes.
pub record TurnMessage : Type 0 where
  pub msg_class : MessageClass
  pub method : Method
  pub body_length : ℕ
  pub transaction_id : Bytes
  pub attributes : List Attribute

-- The first attribute of the type.
unfoldable pub find_in : AttrType → List Attribute → Option Attribute
find_in t [] = none
find_in t (a ∷ rest) = if a.type == t then some a else find_in t rest

-- `TurnMessage::findAttr`
unfoldable pub find_attr : TurnMessage → AttrType → Option Attribute
unfolding find_in
find_attr msg t = find_in t msg.attributes

-- `ParseResult` with the message that `parse` fills in. On any other result than `Ok` the
-- message is half filled, and no caller reads it.
pub data ParseResult : Type 0 where
  ok : TurnMessage → ParseResult
  too_short bad_magic_cookie bad_length not_turn_message : ParseResult

pub record ChannelDataMessage : Type 0 where
  pub channel_number : ℕ
  pub payload : Bytes

-- `ChannelDataResult`, with the message likewise.
pub data ChannelDataResult : Type 0 where
  ok : ChannelDataMessage → ChannelDataResult
  too_short invalid_channel : ChannelDataResult
