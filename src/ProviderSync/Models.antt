-- ===== src/ProviderSync/Models.antt =====
-- packages/opencode-provider-sync/src/model-normalization.ts and the reading of a response of
-- model-discovery.ts. `toLowerCase` and `toUpperCase` are parameters, as they follow Unicode.
pub mod Diff
use lightbridge_opencode_too.Common.{
  ℕ, Bool, true, false, not, ◌&&◌, ◌||◌, Option, none, some, List, [], ◌∷◌, ◌++◌, map, leb, ◌==◌,
  if◌then◌else◌, or_else,
}
use lightbridge_opencode_too.Common.Text.{
  all_of, span, push_front, Text, codes, text_eq, trim, is_digit,
}
use lightbridge_opencode_too.Common.Js.{
  Value, undefined, null, boolean, number, string, array, object, Items, Fields, get, items,
}
use lightbridge_opencode_too.Common.Maps.{Map, lookup, set, Text_eq}
use lightbridge_opencode_too.ProviderSync.{RawModel, NormalizedModel, Renamed, ModelDiff}

abbrev pub token_overrides : Map Text Text
token_overrides =
    (codes "ai", codes "AI")
    ∷ (codes "api", codes "API")
    ∷ (codes "cpu", codes "CPU")
    ∷ (codes "gpu", codes "GPU")
    ∷ (codes "glm", codes "GLM")
    ∷ (codes "gpt", codes "GPT")
    ∷ (codes "llm", codes "LLM")
    ∷ (codes "nlp", codes "NLP")
    ∷ (codes "ocr", codes "OCR")
    ∷ (codes "tts", codes "TTS")
    ∷ (codes "stt", codes "STT")
    ∷ []

-- `[a-z]` under the flag `i`.
unfoldable pub is_letter : ℕ → Bool
is_letter c = (leb b'a' c && leb c b'z') || (leb b'A' c && leb c b'Z')

abbrev pub is_empty : Text → Bool
is_empty [] = true
is_empty (c ∷ s) = false

-- `/^\d+$/`.
is_number : Text → Bool
unfolding is_digit all_of
is_number s = not (is_empty s) && all_of is_digit s

-- `/^\d+[a-z]$/i`, by the split of the text behind its digits.
is_suffixed : Text × Text → Bool
is_suffixed ((d ∷ ds), (c ∷ [])) = is_letter c
is_suffixed _ = false

-- `/^[a-z]+\d+[a-z0-9]*$/i`, by the split behind the letters.
is_lettered : Text × Text → Bool
unfolding is_digit is_letter all_of
is_lettered ((l ∷ ls), (c ∷ s)) = is_digit c && all_of (λ x. is_letter x || is_digit x) s
is_lettered _ = false

-- `/^\d+[a-z]+$/i`, by the split behind the digits.
is_digits_letters : Text × Text → Bool
unfolding is_letter all_of
is_digits_letters ((d ∷ ds), (c ∷ s)) = all_of is_letter (c ∷ s)
is_digits_letters _ = false

-- `["b", "k", "m", "g", "t"].includes(suffix)`.
is_unit : Text → Bool
is_unit s =
    text_eq s (codes "b")
    || text_eq s (codes "k")
    || text_eq s (codes "m")
    || text_eq s (codes "g")
    || text_eq s (codes "t")

is_separator : ℕ → Bool
is_separator c = c == b'-' || c == b'_' || c == b'/' || c == b':'

-- The parts between separators; a run of separators gives empty parts, which are dropped later.
split_parts : Text → List Text
unfolding is_separator push_front
split_parts [] = [] ∷ []
split_parts (c ∷ s) =
    let rest = split_parts s in if is_separator c then [] ∷ rest else push_front c rest

-- `.map(trim).filter(nonempty)`.
kept_parts : List Text → List Text
unfolding trim
kept_parts [] = []
kept_parts (p ∷ ps) = let rest = kept_parts ps in if is_empty (trim p) then rest else trim p ∷ rest

-- `tokens.join(" ")`.
join_spaces : List Text → Text
join_spaces [] = []
join_spaces (t ∷ []) = t
join_spaces (t ∷ u ∷ ts) = t ++ b' ' ∷ join_spaces (u ∷ ts)

module _ (to_lower to_upper : Text → Text) where
  title_case : Text → Text
  title_case [] = []
  title_case (c ∷ s) = to_upper (c ∷ []) ++ to_lower s

  with_suffix : Text × Text → Text
  unfolding is_unit
  with_suffix (digits, c) =
      digits ++ (if is_unit (to_lower c) then to_upper (to_lower c) else to_lower c)

  reshape : Text → Text
  unfolding is_number is_suffixed is_lettered is_digits_letters title_case with_suffix span
  reshape token =
      let by_digits = span is_digit token in
      if is_number token
      then token
      else if is_suffixed by_digits
      then with_suffix by_digits
      else if is_lettered (span is_letter token)
      then title_case token
      else if is_digits_letters by_digits
      then by_digits.0 ++ to_lower by_digits.1
      else title_case token

  unfoldable pub normalize_token : Text → Text
  unfolding reshape lookup
  normalize_token token = or_else (lookup (to_lower token) token_overrides) (reshape token)

  joined_or : Text → List Text → Text
  unfolding join_spaces
  joined_or model_id [] = model_id
  joined_or model_id (t ∷ ts) = join_spaces (t ∷ ts)

  overridden : Option Text → Text → Text
  overridden (some (c ∷ s)) normalized = c ∷ s
  overridden _ normalized = normalized

  unfoldable pub normalize_model_id : Text → Map Text Text → Text
  unfolding overridden joined_or normalize_token kept_parts split_parts
  normalize_model_id model_id overrides =
      overridden (lookup model_id overrides)
        (joined_or model_id (map normalize_token (kept_parts (split_parts model_id))))

  unfoldable pub normalize_model_list : List RawModel → Map Text Text → List NormalizedModel
  normalize_model_list [] overrides = []
  normalize_model_list (m ∷ ms) overrides =
      record { id = m.id; display_name = normalize_model_id m.id overrides }
      ∷ normalize_model_list ms overrides

-- `new Map(models.map((model) => [model.id, model.displayName]))`.
unfoldable pub names_from : List NormalizedModel → Map Text Text → Map Text Text
names_from [] m = m
names_from (n ∷ ns) m = names_from ns (set n.id n.display_name m)

unfoldable pub has : Text → Map Text Text → Bool
has id m = elim (lookup id m) [ none ↦ false | some name ↦ true ]

-- The ids of the first map that the second has not.
unfoldable pub ids_beyond : Map Text Text → Map Text Text → List Text
ids_beyond [] other = []
ids_beyond ((id, name) ∷ m) other =
    let rest = ids_beyond m other in if has id other then rest else id ∷ rest

-- A name that is empty before is not taken for a change.
unfoldable pub is_renamed : Option Text → Text → Bool
is_renamed none after = false
is_renamed (some []) after = false
is_renamed (some (c ∷ s)) after = not (text_eq (c ∷ s) after)

abbrev pub renaming : Text → Option Text → Text → Renamed
renaming id before after = record { id = id; before = or_else before []; after = after }

unfoldable pub renamed_in : Map Text Text → Map Text Text → List Renamed
unfolding is_renamed
renamed_in [] previous = []
renamed_in ((id, name) ∷ m) previous =
    let rest = renamed_in m previous in
    if is_renamed (lookup id previous) name
    then renaming id (lookup id previous) name ∷ rest
    else rest

unfoldable pub diff_models : List NormalizedModel → List NormalizedModel → ModelDiff
unfolding ids_beyond renamed_in names_from
diff_models previous next =
    let before = names_from previous [] in
    let after = names_from next [] in
    record {
      added = ids_beyond after before;
      removed = ids_beyond before after;
      renamed = renamed_in after before;
    }

items_of : Value → List Value
items_of (array vs) = items vs
items_of v = []

-- The candidates of a response of the models endpoint.
candidates : Value → List Value
unfolding get items_of
candidates (array vs) = items vs
candidates (object fs) = items_of (get "data" fs)
candidates v = []

raw_model : Fields → Value → List RawModel
raw_model fs (string (c ∷ s)) = record { id = c ∷ s; fields = fs } ∷ []
raw_model fs v = []

model_of : Value → List RawModel
unfolding raw_model get
model_of (object fs) = raw_model fs (get "id" fs)
model_of v = []

models_of : List Value → List RawModel
unfolding model_of
models_of [] = []
models_of (v ∷ vs) = model_of v ++ models_of vs

unfoldable pub parse_models_response : Value → List RawModel
unfolding candidates models_of
parse_models_response payload = models_of (candidates payload)
