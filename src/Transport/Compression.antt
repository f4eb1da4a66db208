-- ===== src/Transport/Compression.antt =====
-- src/modules/transport/compression.rs: the chain of content encodings of a request body. The
-- codecs are those of the crates flate2, brotli and zstd, and enter as a parameter.
pub mod Laws
use tokensaver.Prelude.{
  ℕ, ◌*◌, Bool, ◌||◌, Option, none, some, List, [], ◌∷◌, ◌++◌, reverse, ltb, if◌then◌else◌, length,
  Str, codes, str_eq, trim, to_ascii_lowercase, split,
}

abbrev pub Bytes : Type 0
Bytes = List ℕ

pub data ContentEncoding : Type 0 where
  gzip x_gzip deflate brotli zstd : ContentEncoding

pub data CompressionError : Type 0 where
  unsupported_encoding : Str → CompressionError
  decoded_body_too_large io : CompressionError

pub data Decoded {ℓ} (A : Type ℓ) : Type ℓ where
  ok : A → Decoded A
  err : CompressionError → Decoded A

abbrev pub max_decoded_body_bytes : ℕ
max_decoded_body_bytes = 256 * 1024 * 1024

-- A decoder gives the bytes that it reads and whether it ends in an error; an encoder may fail.
pub record Codecs : Type 0 where
  pub read : ContentEncoding → Bytes → Bytes × Bool
  pub write : ContentEncoding → Bytes → Option Bytes

abbrev pub EncodingChain : Type 0
EncodingChain = List ContentEncoding

encoding_of : Str → Option ContentEncoding
encoding_of name =
    if str_eq name (codes "gzip")
    then some gzip
    else if str_eq name (codes "x-gzip")
    then some x_gzip
    else if str_eq name (codes "deflate")
    then some deflate
    else if str_eq name (codes "br")
    then some brotli
    else if str_eq name (codes "zstd")
    then some zstd
    else none

-- the loop of `EncodingChain::parse`, with the encodings found so far
parse_loop : EncodingChain → List Str → Decoded EncodingChain
parse_loop encodings [] = ok encodings
parse_loop encodings (raw ∷ rest) =
    let encoding = to_ascii_lowercase (trim raw) in
    let skipped = parse_loop encodings rest in
    let refused : Decoded EncodingChain = err (unsupported_encoding encoding) in
    let added = λ (parsed : ContentEncoding). parse_loop (encodings ++ parsed ∷ []) rest in
    if str_eq encoding [] || str_eq encoding (codes "identity")
    then skipped
    else elim (encoding_of encoding) [ none ↦ refused | some parsed ↦ added parsed ]

unfoldable pub parse_chain : Option Str → Decoded EncodingChain
unfolding parse_loop encoding_of
parse_chain none = parse_loop [] (split 44 [])
parse_chain (some value) = parse_loop [] (split 44 value)

-- `read_limited`: at most one byte more than the limit is read, so that a body above the limit is
-- refused before an error behind that byte is met.
unfoldable pub read_limited : Bytes × Bool → Decoded Bytes
read_limited (output, failed) =
    if ltb max_decoded_body_bytes (length output)
    then err decoded_body_too_large
    else if failed
    then err io
    else ok output

encode_one : Codecs → ContentEncoding → Bytes → Decoded Bytes
encode_one codecs encoding input = elim (codecs.write encoding input) [
  | none ↦ err io
  | some output ↦ ok output
]

-- the loop over `self.0.iter().rev()`
decode_loop : Codecs → EncodingChain → Bytes → Decoded Bytes
decode_loop codecs [] body = ok body
decode_loop codecs (encoding ∷ rest) body = elim (read_limited (codecs.read encoding body)) [
  | err e ↦ err e
  | ok decoded ↦ decode_loop codecs rest decoded
]

unfoldable pub decode : Codecs → EncodingChain → Bytes → Decoded Bytes
unfolding decode_loop read_limited
decode codecs chain encoded = decode_loop codecs (reverse chain) encoded

unfoldable pub encode : Codecs → EncodingChain → Bytes → Decoded Bytes
unfolding encode_one
encode codecs [] body = ok body
encode codecs (encoding ∷ rest) body = elim (encode_one codecs encoding body) [
  | err e ↦ err e
  | ok encoded ↦ encode codecs rest encoded
]
