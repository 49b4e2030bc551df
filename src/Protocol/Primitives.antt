-- ===== src/Protocol/Primitives.antt =====
-- crates/rustbound-protocol/src/primitives.rs: the error type that its codecs share. The children
-- model the codecs: VarInt and VarLong, fixed-width words, strings and byte arrays.
pub mod VarInt
pub mod Fixed
pub mod Text

pub data CodecError : Type 0 where
  incomplete_input : CodecError
  var_int_too_long : CodecError
  var_long_too_long : CodecError
  negative_string_length : CodecError
  string_too_long : CodecError
  invalid_utf8 : CodecError
  invalid_boolean : CodecError
