-- ===== src/Transport/Compression/Laws.antt =====
-- src/modules/transport/compression.rs: decoding undoes encoding.
use mathlib.Core.List.{reverse-cons}
use tokensaver.Prelude.{
  ◌≤◌, ◌≡◌, refl, ◌∙◌, ◌⊎◌, inl, inr, false, some, [], ◌∷◌, ◌++◌, reverse, arith, ltb, Option-cases,
  length,
}
use tokensaver.Transport.Compression.{
  ContentEncoding, ok, err, Bytes, max_decoded_body_bytes, Codecs, EncodingChain, decode_loop,
  decode, encode, CompressionError, Decoded, read_limited, encode_one,
}

-- Every body on the way, the first included, is within the limit of decoded bodies.
abbrev pub Fits : Codecs → EncodingChain → Bytes → Type 0
Fits codecs [] body = Unit
Fits codecs (encoding ∷ rest) body =
    (length body ≤ max_decoded_body_bytes)
    × ((encoded : Bytes) → codecs.write encoding body ≡ some encoded → Fits codecs rest encoded)

Decoded-cases :
    (m : Decoded Bytes)
    → ((body : Bytes) × (m ≡ ok body)) ⊎ ((reason : CompressionError) × (m ≡ err reason))
Decoded-cases (ok body) = inl (body, refl)
Decoded-cases (err reason) = inr (reason, refl)

decode_last :
    (codecs : Codecs) (encoding : ContentEncoding) (encoded body : Bytes)
    → codecs.read encoding encoded ≡ (body, false)
    → length body ≤ max_decoded_body_bytes
    → decode_loop codecs (encoding ∷ []) encoded ≡ ok body
unfolding decode_loop read_limited
decode_last codecs encoding encoded body h fits =
    let small : ltb max_decoded_body_bytes (length body) ≡ false = ground arith in
    rw (h, decode_loop) (rw small)

decode_loop-append :
    (codecs : Codecs) (chain : EncodingChain) (last : ContentEncoding) (body middle : Bytes)
    → decode_loop codecs chain body ≡ ok middle
    → decode_loop codecs (chain ++ last ∷ []) body ≡ decode_loop codecs (last ∷ []) middle
unfolding decode_loop
decode_loop-append codecs [] last body middle h = ground arith
decode_loop-append codecs (encoding ∷ chain) last body middle h =
    elim (Decoded-cases (read_limited (codecs.read encoding body))) [
      | inl (decoded, e) ↦
          rw (e, decode_loop)
            (decode_loop-append codecs chain last decoded middle (rw (e, decode_loop) at h))
      | inr (reason, e) ↦ let bad = rw (e, decode_loop) at h in cc
    ]

-- Decoding a body with the chain by which it was encoded gives the body back, for codecs whose
-- readers undo their writers and bodies within the limit.
pub decode-encode :
    (codecs : Codecs)
    (undoes : (encoding : ContentEncoding) (body encoded : Bytes)
      → codecs.write encoding body ≡ some encoded
      → codecs.read encoding encoded ≡ (body, false))
    (chain : EncodingChain) (body encoded : Bytes)
    → Fits codecs chain body
    → encode codecs chain body ≡ ok encoded
    → decode codecs chain encoded ≡ ok body
unfolding encode encode_one decode
decode-encode codecs undoes [] body encoded fits h = ground arith
decode-encode codecs undoes (encoding ∷ chain) body encoded fits h =
    elim (Option-cases (codecs.write encoding body)) [
      | inl failed ↦ let bad = rw (failed, encode, encode_one) at h in cc
      | inr (middle, e) ↦
          let rest =
            decode-encode codecs undoes chain middle encoded (fits.1 middle e)
              (rw (e, encode, encode_one) at h) in
          rw (reverse-cons encoding chain) (
            decode_loop-append codecs (reverse chain) encoding encoded middle rest
            ∙ decode_last codecs encoding middle body (undoes encoding body middle e) fits.0)
    ]
