-- ===== src/Tests/Document.antt =====
-- A small type of JSON documents, with which the interface of the transport is filled.
use tokensaver.Prelude.{
  ℕ, ◌≡◌, refl, Bool, true, false, Option, none, some, List, [], ◌∷◌, if◌then◌else◌, replicate, Str,
  codes, str_eq,
}
use tokensaver.Transport.Json.{Json, JsonLaws}
use tokensaver.Transport.Compression.{Codecs}

mutual
  pub data Document : Type 0 where
    null : Document
    number : ℕ → Document
    text : Str → Document
    sequence : Documents → Document
    object : Members → Document

  pub data Documents : Type 0 where
    none_left : Documents
    following : Document → Documents → Documents

  pub data Members : Type 0 where
    empty : Members
    member : Str → Document → Members → Members

abbrev pub to_documents : List Document → Documents
to_documents [] = none_left
to_documents (d ∷ ds) = following d (to_documents ds)

abbrev pub of_documents : Documents → List Document
of_documents none_left = []
of_documents (following d ds) = d ∷ of_documents ds

abbrev pub lookup : Str → Members → Option Document
lookup key empty = none
lookup key (member name value rest) = if str_eq name key then some value else lookup key rest

abbrev pub get_member : Str → Document → Option Document
get_member key (object members) = lookup key members
get_member key _ = none

abbrev pub is_object : Document → Bool
is_object (object _) = true
is_object _ = false

abbrev pub is_null : Document → Bool
is_null null = true
is_null _ = false

abbrev pub as_array : Document → Option (List Document)
as_array (sequence ds) = some (of_documents ds)
as_array _ = none

abbrev pub as_str : Document → Option Str
as_str (text s) = some s
as_str _ = none

abbrev pub as_u64 : Document → Option ℕ
as_u64 (number n) = some n
as_u64 _ = none

abbrev pub insert_member : Str → Document → Document → Document
insert_member key value (object members) = object (member key value members)
insert_member key value d = d

abbrev pub of_members : List (Str × Document) → Document
of_members [] = object empty
of_members ((key, value) ∷ rest) = insert_member key value (of_members rest)

-- a long output of a tool
abbrev pub long_output : Str
long_output = replicate 300 128512

abbrev pub call : Document
call = of_members (
    (codes "type", text (codes "function_call"))
    ∷ (codes "call_id", text (codes "c1"))
    ∷ (codes "name", text (codes "grep"))
    ∷ [])

abbrev pub call_output : Document
call_output = of_members (
    (codes "type", text (codes "function_call_output"))
    ∷ (codes "call_id", text (codes "c1"))
    ∷ (codes "output", text long_output)
    ∷ [])

abbrev pub answer : Document
answer =
    of_members
      ((codes "type", text (codes "message")) ∷ (codes "role", text (codes "assistant")) ∷ [])

abbrev pub request_items : List Document
request_items = call ∷ call_output ∷ answer ∷ []

abbrev pub request_root : Document
request_root = of_members ((codes "input", sequence (to_documents request_items)) ∷ [])

abbrev pub usage_root : Document
usage_root = of_members (
    (
      codes "usage",
      of_members
          ((codes "input_tokens", number 12) ∷ (codes "prompt_cache_hit_tokens", number 20) ∷ []),
    )
    ∷ [])

-- The body `[1]` is the request, `[2]` is a report of usage, and nothing else can be read.
abbrev pub read_document : List ℕ → Option Document
read_document bytes =
    if str_eq bytes (1 ∷ [])
    then some request_root
    else if str_eq bytes (2 ∷ [])
    then some usage_root
    else none

abbrev pub documents : Json
documents = record {
  Value = Document;
  from_slice = read_document;
  to_vec = λ d. some (3 ∷ []);
  get = get_member;
  is_object = is_object;
  is_null = is_null;
  as_array = as_array;
  as_str = as_str;
  as_u64 = as_u64;
  string = text;
  array = λ ds. sequence (to_documents ds);
  insert = insert_member;
}

get_member-insert :
    (key other : Str) (value d : Document)
    → is_object d ≡ true
    → get_member other (insert_member key value d)
      ≡ (if str_eq key other then some value else get_member other d)
get_member-insert key other value (object members) h = refl
get_member-insert key other value null h = cc
get_member-insert key other value (number n) h = cc
get_member-insert key other value (text s) h = cc
get_member-insert key other value (sequence ds) h = cc

is_object-insert :
    (key : Str) (value d : Document)
    → is_object d ≡ true
    → is_object (insert_member key value d) ≡ true
is_object-insert key value (object members) h = refl
is_object-insert key value null h = cc
is_object-insert key value (number n) h = cc
is_object-insert key value (text s) h = cc
is_object-insert key value (sequence ds) h = cc

is_object-get :
    (key : Str) (d found : Document) → get_member key d ≡ some found → is_object d ≡ true
is_object-get key (object members) found h = refl
is_object-get key null found h = cc
is_object-get key (number n) found h = cc
is_object-get key (text s) found h = cc
is_object-get key (sequence ds) found h = cc

pub documents_laws : JsonLaws documents
documents_laws = record {
  get-insert = get_member-insert;
  is_object-insert = is_object-insert;
  is_object-get = is_object-get;
}

-- codecs that leave a body as it is
abbrev pub plain_codecs : Codecs
plain_codecs = record { read = λ e b. (b, false); write = λ e b. some b }
