-- ===== src/Message/AttrType.antt =====
-- message/parser.hpp, `enum class AttrType : uint16_t`. A raw 16-bit value is cast to the enum
-- unchecked, so an attribute type is any such number.
use Prim.Native.Nat.{ℕ}

abbrev pub AttrType : Type 0
AttrType = ℕ

abbrev pub mapped_address : AttrType
mapped_address = 0x0001

abbrev pub username : AttrType
username = 0x0006

abbrev pub message_integrity : AttrType
message_integrity = 0x0008

abbrev pub error_code : AttrType
error_code = 0x0009

abbrev pub unknown_attributes : AttrType
unknown_attributes = 0x000A

abbrev pub channel_number : AttrType
channel_number = 0x000C

abbrev pub lifetime : AttrType
lifetime = 0x000D

abbrev pub xor_peer_address : AttrType
xor_peer_address = 0x0012

-- `AttrType::Data`
abbrev pub data_value : AttrType
data_value = 0x0013

abbrev pub realm : AttrType
realm = 0x0014

abbrev pub nonce : AttrType
nonce = 0x0015

abbrev pub xor_relayed_address : AttrType
xor_relayed_address = 0x0016

abbrev pub requested_transport : AttrType
requested_transport = 0x0019

abbrev pub message_integrity_sha256 : AttrType
message_integrity_sha256 = 0x001C

abbrev pub password_algorithm : AttrType
password_algorithm = 0x001D

abbrev pub xor_mapped_address : AttrType
xor_mapped_address = 0x0020

abbrev pub password_algorithms : AttrType
password_algorithms = 0x8002

abbrev pub software : AttrType
software = 0x8022

abbrev pub fingerprint : AttrType
fingerprint = 0x8028
