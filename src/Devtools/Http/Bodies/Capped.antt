-- ===== src/Devtools/Http/Bodies/Capped.antt =====
-- packages/opencode-devtools/src/groups/http.ts: what `readBody` keeps of a response.
use lightbridge_opencode_too.Common.{
  ℕ, zero, suc, ◌+◌, ◌-◌, ◌≤◌, ◌≡◌, refl, sym, ap, ◌∙◌, Bool, true, false, not, ◌&&◌, Option,
  or_else, List, [], ◌∷◌, ◌++◌, arith, ltb, if◌then◌else◌, length, length-append, Bool-cases, inl,
  inr,
}
use lightbridge_opencode_too.Common.Text.{Text, codes}
use lightbridge_opencode_too.Common.Js.{Value, string}
use lightbridge_opencode_too.Devtools.Http.Bodies.{
  max_response_bytes, take, read_chunks, parsed_or, contains_word, is_nonempty, read_body, stream,
}

-- All the bytes that the reader would deliver.
unfoldable pub all_bytes : List (List ℕ) → List ℕ
all_bytes [] = []
all_bytes (value ∷ chunks) = value ++ all_bytes chunks

take-all : (n : ℕ) (bs : List ℕ) → length bs ≤ n → take n bs ≡ bs
unfolding take
take-all zero [] h = refl
take-all (suc n) [] h = refl
take-all zero (b ∷ bs) h = absurd (omega (arith, h))
take-all (suc n) (b ∷ bs) h = ap (λ x. b ∷ x) (take-all n bs (omega (arith, h)))

take-left : (n : ℕ) (bs cs : List ℕ) → n ≤ length bs → take n (bs ++ cs) ≡ take n bs
unfolding take
take-left zero bs cs h = refl
take-left (suc n) [] cs h = absurd (omega (arith, h))
take-left (suc n) (b ∷ bs) cs h = ap (λ x. b ∷ x) (take-left n bs cs (omega (arith, h)))

take-right : (n m : ℕ) (bs cs : List ℕ) → n ≡ length bs + m → take n (bs ++ cs) ≡ bs ++ take m cs
unfolding take
take-right n m [] cs h = ap (λ k. take k cs) (omega (arith, h))
take-right zero m (b ∷ bs) cs h = absurd (omega (arith, h))
take-right (suc n) m (b ∷ bs) cs h = ap (λ x. b ∷ x) (take-right n m bs cs (omega (arith, h)))

take-cong : (n m : ℕ) (bs : List ℕ) → n ≡ m → take n bs ≡ take m bs
take-cong n m bs h = ap (λ k. take k bs) h

read_chunks-take :
    (received : ℕ) (chunks : List (List ℕ))
    → received ≤ max_response_bytes
    → ((read_chunks received chunks).0 ≡ take (max_response_bytes - received) (all_bytes chunks))
      × ((read_chunks received chunks).1
          ≡ ltb max_response_bytes (received + length (all_bytes chunks)))
unfolding read_chunks all_bytes
read_chunks-take received [] h =
    (sym (take-all (max_response_bytes - received) [] (omega arith)), ground arith)
read_chunks-take received (value ∷ chunks) h =
    let total = received + length value in
    let left = max_response_bytes - received in
    let sizes = length-append value (all_bytes chunks) in
    elim (Bool-cases (ltb max_response_bytes total)) [
      | inl e ↦ rw e (
        take-cong (length value - (total - max_response_bytes)) left value (ground arith)
            ∙ sym (take-left left value (all_bytes chunks) (ground arith)),
        ground (arith, sizes),
      )
      | inr e ↦
          let (same, cut) = read_chunks-take total chunks (ground arith) in
          rw e (
            ap (λ bs. value ++ bs) same
                ∙ sym (
                    take-right left (max_response_bytes - total) value (all_bytes chunks)
                      (ground arith)),
            ground (arith, sizes, cut),
          )
    ]

ltb-cong : (n m : ℕ) → n ≡ m → ltb max_response_bytes n ≡ ltb max_response_bytes m
ltb-cong n m h = ap (λ k. ltb max_response_bytes k) h

parsed_or-text :
    (to_utf8 : List ℕ → Text) (parse_json : Text → Option Value) (a b cut : Bool) (text : Text)
    → parsed_or to_utf8 parse_json (a && b && not cut) text
      ≡ (if cut then string text else parsed_or to_utf8 parse_json (a && b && not cut) text)
unfolding parsed_or
parsed_or-text to_utf8 parse_json a b false text = refl
parsed_or-text to_utf8 parse_json true true true text = refl
parsed_or-text to_utf8 parse_json true false true text = refl
parsed_or-text to_utf8 parse_json false b true text = refl

-- The body that `http_request` returns of a response with a body stream is the decoded beginning of
-- the bytes of the response, of at most 10,000,000 of them. It is marked as truncated exactly where
-- the response has more; and then it is the text itself, whatever the content type.
pub read_body-IsCapped :
    (to_utf8 : List ℕ → Text) (parse_json : Text → Option Value) (content_type : Option Text)
    (chunks : List (List ℕ))
    → ((read_body to_utf8 parse_json content_type (stream chunks)).body_text
        ≡ to_utf8 (take max_response_bytes (all_bytes chunks)))
      × ((read_body to_utf8 parse_json content_type (stream chunks)).truncated
          ≡ ltb max_response_bytes (length (all_bytes chunks)))
      × ((read_body to_utf8 parse_json content_type (stream chunks)).body ≡ (
          if (read_body to_utf8 parse_json content_type (stream chunks)).truncated
          then string (read_body to_utf8 parse_json content_type (stream chunks)).body_text
          else (read_body to_utf8 parse_json content_type (stream chunks)).body))
unfolding read_body
read_body-IsCapped to_utf8 parse_json content_type chunks =
    let (same, cut) = read_chunks-take 0 chunks (omega arith) in
    (
      ap to_utf8 same,
      cut ∙ ltb-cong (0 + length (all_bytes chunks)) (length (all_bytes chunks)) (omega arith),
      parsed_or-text to_utf8 parse_json
          (contains_word (codes "application/json") (or_else content_type []))
          (is_nonempty (to_utf8 (read_chunks 0 chunks).0)) (read_chunks 0 chunks).1
          (to_utf8 (read_chunks 0 chunks).0),
    )
