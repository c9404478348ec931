-- ===== src/Devtools/Http/Bodies.antt =====
-- packages/opencode-devtools/src/groups/http.ts: `readBody`, over the chunks that the reader delivers,
-- or the text of a response without a stream. The decoding of UTF-8 and `JSON.parse` are parameters.
pub mod Capped
use lightbridge_opencode_too.Common.{
  ℕ, zero, suc, ◌+◌, ◌-◌, Bool, true, false, not, ◌&&◌, ◌||◌, Option, none, some, List, [], ◌∷◌,
  ◌++◌, ltb, if◌then◌else◌, or_else, length,
}
use lightbridge_opencode_too.Common.Text.{starts_with, Text, codes}
use lightbridge_opencode_too.Common.Js.{Value, string}

abbrev pub max_response_bytes : ℕ
max_response_bytes = 10000000

-- `bytes.subarray(0, n)`.
unfoldable pub take : ℕ → List ℕ → List ℕ
take zero bs = []
take (suc n) [] = []
take (suc n) (b ∷ bs) = b ∷ take n bs

-- The loop of `readBody`, after so many bytes: the bytes that it keeps, and whether it stops early.
unfoldable pub read_chunks : ℕ → List (List ℕ) → List ℕ × Bool
unfolding take
read_chunks received [] = ([], false)
read_chunks received (value ∷ chunks) =
    let total = received + length value in
    let (bytes, truncated) = read_chunks total chunks in
    if ltb max_response_bytes total
    then (take (length value - (total - max_response_bytes)) value, true)
    else (value ++ bytes, truncated)

-- `text.includes(word)`.
contains_word : Text → Text → Bool
unfolding starts_with
contains_word word [] = starts_with word []
contains_word word (c ∷ s) = starts_with word (c ∷ s) || contains_word word s

is_nonempty : Text → Bool
is_nonempty [] = false
is_nonempty (c ∷ s) = true

pub record Body : Type 0 where
  pub body : Value
  pub body_text : Text
  pub truncated : Bool

-- `res.body` with what its reader delivers, or, where it is null, what `res.text()` gives.
pub data ResponseBody : Type 0 where
  stream : (chunks : List (List ℕ)) → ResponseBody
  no_stream : (text : Text) → ResponseBody

module _ (to_utf8 : List ℕ → Text) (parse_json : Text → Option Value) where
  parsed_or : Bool → Text → Value
  parsed_or true text = or_else (parse_json text) (string text)
  parsed_or false text = string text

  body_of : Option Text → Text × Bool → Body
  unfolding parsed_or contains_word is_nonempty
  body_of content_type (text, truncated) = record {
    body =
        parsed_or
          (contains_word (codes "application/json") (or_else content_type [])
            && is_nonempty text
            && not truncated)
          text;
    body_text = text;
    truncated = truncated;
  }

  unfoldable pub read_body : Option Text → ResponseBody → Body
  unfolding read_chunks body_of
  read_body content_type (stream chunks) =
      let (bytes, truncated) = read_chunks 0 chunks in
      body_of content_type (to_utf8 bytes, truncated)
  read_body content_type (no_stream text) = body_of content_type (text, false)
