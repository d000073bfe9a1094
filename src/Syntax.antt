-- ===== src/Syntax.antt =====
-- mls/syntax: the presentation-language wire encoding, and the interface of a wire format that the
-- codecs of the other packages instantiate.
pub mod Varint
pub mod Builder
pub mod Cursor
pub mod Vector
pub mod Format
