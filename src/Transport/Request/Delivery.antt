-- ===== src/Transport/Request/Delivery.antt =====
-- src/modules/transport/request.rs: what a rewritten body says to the one who decodes it.
use tokensaver.Prelude.{
  ℕ, ◌≡◌, inl, inr, true, false, Option, none, some, List, map, Option-cases, length, get_elem?,
  Str, codes,
}
use tokensaver.Aging.Model.{AgingPolicy}
use tokensaver.Aging.Engine.{age_tool_results}
use tokensaver.Transport.Json.{Json, JsonLaws}
use tokensaver.Transport.Compression.{
  Bytes, Codecs, ContentEncoding, EncodingChain, Decoded, ok, err, encode, decode,
}
use tokensaver.Transport.Compression.Laws.{decode-encode, Fits}
use tokensaver.Transport.Request.{prepare_responses_body, aged, decode_root, reencode, rewrite_body}
use tokensaver.Transport.Request.Items.{input_of, normalize_history_item}
use tokensaver.Transport.Request.Items.Written.{
  receipt_at, IsWritten, replace_outputs-IsWritten, length-replace_outputs,
}
use tokensaver.Transport.Request.Laws.{prepare-IsRewritten}

module _ (json : Json) (codecs : Codecs) (sha256_hex : Str → Str) where
  open json use {Value, array, insert, to_vec}

  -- What the receiver of a body finds: decoded by the chain of the request, the JSON text of the
  -- root that was read with other items as its input; as many items, each as the pass wrote it.
  pub record IsDelivered (body : Bytes) (encoding : Option Str) (policy : AgingPolicy)
      (sent : Bytes) : Type 0 where
    pub encodings : EncodingChain
    pub root : Value
    pub input : List Value
    pub items : List Value
    pub plain : Bytes
    pub enabled : policy.enabled ≡ true
    pub read : decode_root json codecs sha256_hex body encoding ≡ some (encodings, root)
    pub has_input : input_of json root ≡ some input
    pub decoded : decode codecs encodings sent ≡ ok plain
    pub says : to_vec (insert (codes "input") (array items) root) ≡ some plain
    pub as_many : length items ≡ length input
    pub written :
        (i : ℕ) (item : Value)
        → get_elem? input i ≡ some item
        → (item' : Value) × (get_elem? items i ≡ some item')
          × IsWritten json
              (receipt_at
                (age_tool_results sha256_hex
                  (map (normalize_history_item json) input)
                  policy).replacements
                i)
              item
              item'

  encoded_some :
      (o : Decoded Bytes) (bytes : Bytes)
      → (elim o as (λ _. Option Bytes) [ err _ ↦ none | ok b ↦ some b ]) ≡ some bytes
      → o ≡ ok bytes
  encoded_some (err e) bytes h = cc
  encoded_some (ok b) bytes h = cc

  rewrite_body-some :
      (encodings : EncodingChain) (root : Value) (items : List Value) (sent : Bytes)
      → rewrite_body json codecs sha256_hex encodings root items ≡ some sent
      → (plain : Bytes) × (to_vec (insert (codes "input") (array items) root) ≡ some plain)
        × (encode codecs encodings plain ≡ ok sent)
  unfolding rewrite_body reencode
  rewrite_body-some encodings root items sent h =
      elim (Option-cases (to_vec (insert (codes "input") (array items) root))) [
        | inl failed ↦ let bad = rw failed at h in cc
        | inr (plain, e) ↦ (plain, e, encoded_some (encode codecs encodings plain) sent (rw e at h))
      ]

  -- A body that is sent under the outcome `aged` decodes, by the chain with which the request came,
  -- to the JSON text of the root that was read, with an `input` of as many items: the output of an
  -- item for which the pass proposes a replacement is that receipt, its other members are as they
  -- were, and every other item is the same. The policy was enabled. This is for JSON objects that
  -- obey their laws, codecs whose readers undo their writers, and texts within the limit.
  pub prepare-IsDelivered :
      (laws : JsonLaws json)
      (undoes : (encoding : ContentEncoding) (body encoded : Bytes)
        → codecs.write encoding body ≡ some encoded
        → codecs.read encoding encoded ≡ (body, false))
      (body : Bytes) (encoding : Option Str) (path : Str) (policy : AgingPolicy)
      (fits : (chain : EncodingChain) (plain : Bytes)
        → encode codecs chain plain
          ≡ ok (prepare_responses_body json codecs sha256_hex body encoding path policy).bytes
        → Fits codecs chain plain)
      → (prepare_responses_body json codecs sha256_hex body encoding path policy).outcome ≡ aged
      → IsDelivered body encoding policy
          (prepare_responses_body json codecs sha256_hex body encoding path policy).bytes
  prepare-IsDelivered laws undoes body encoding path policy fits h =
      let w = prepare-IsRewritten json codecs sha256_hex body encoding path policy h in
      let (plain, says, encoded) = rewrite_body-some w.encodings w.root w.items _ w.rewritten in
      record {
        encodings = w.encodings;
        root = w.root;
        input = w.input;
        items = w.items;
        plain = plain;
        enabled = w.enabled;
        read = w.read;
        has_input = w.has_input;
        decoded =
            decode-encode codecs undoes w.encodings plain _ (fits w.encodings plain encoded)
              encoded;
        says = says;
        as_many = length-replace_outputs json _ w.input w.items w.replaced;
        written = replace_outputs-IsWritten json laws _ w.input w.items w.replaced;
      }
