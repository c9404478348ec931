-- ===== src/Devtools/Tests.antt =====
-- Runs of the tools' models, and the theorems at concrete inputs.
use lightbridge_opencode_too.Common.{
  ℕ, zero, ◌≡◌, refl, false, none, some, [], ◌∷◌, ltb, arith, if◌then◌else◌, length,
}
use lightbridge_opencode_too.Common.Int.{pos}
use lightbridge_opencode_too.Common.Text.{Text, codes, text_eq, trim}
use lightbridge_opencode_too.Common.Js.{finite, string}
use lightbridge_opencode_too.Devtools.Http.Hosts.{
  is_blocked_host, is_private_range, print_quad, is_hex, hex_from,
}
use lightbridge_opencode_too.Devtools.Http.Hosts.Private.{bracketed, is_blocked_host-spellings}
use lightbridge_opencode_too.Devtools.Http.Guarded.{Url, Web, http_request, failed, private_host}
use lightbridge_opencode_too.Devtools.Http.Guarded.Redirects.{IsBounded, http_request-IsBounded}
use lightbridge_opencode_too.Devtools.Http.Bodies.{take, max_response_bytes, read_body, stream}
use lightbridge_opencode_too.Devtools.Http.Bodies.Capped.{all_bytes, read_body-IsCapped}
use lightbridge_opencode_too.Devtools.Radix.{
  exact, Conversion, parse_in_radix, to_string, math_base,
}
use lightbridge_opencode_too.Devtools.Radix.RoundTrip.{math_base-returns}

is_blocked_host-spellings_example :
    (is_blocked_host (λ s. s) (print_quad 127 0 0 1) ≡ is_private_range 127 0)
    × (is_blocked_host (λ s. s) (bracketed (print_quad 127 0 0 1)) ≡ is_private_range 127 0)
    × (is_blocked_host (λ s. s) (bracketed (codes "7f00:1")) ≡ is_private_range 127 0)
unfolding is_hex hex_from
is_blocked_host-spellings_example =
    is_blocked_host-spellings (λ s. s) (λ s h. refl) 127 0 0 1 (codes "7f00") (codes "1")
      (omega arith) (omega arith) (omega arith) (omega arith) refl refl refl refl

-- A URL whose text is its host.
abbrev at_host : Text → Url
at_host host = record { protocol = codes "https:"; hostname = host; href = host }

-- A public host that redirects to a private one.
abbrev luring : Web
luring = record {
  to_lower = λ s. s;
  to_upper = λ s. s;
  parse_url = λ s. some (at_host s);
  resolve = λ s base. some (at_host s);
  fetch = λ n r. some (record { status = 302; location = some (codes "127.0.0.1") });
  allow_private_network = false;
}

luring_reparse :
    (location : Text) (base u : Url)
    → luring.resolve location base ≡ some u
    → luring.parse_url u.href ≡ some u
luring_reparse location base u h = ground arith

lured : http_request luring (codes "example.org") none (some (codes "x")) ≡ (
  record { url = at_host (codes "example.org"); method = codes "GET"; body = none } ∷ [],
  failed private_host,
)
unfolding http_request text_eq is_blocked_host
lured = refl

http_request-IsBounded_example :
    IsBounded luring 6 (http_request luring (codes "example.org") none (some (codes "x")))
http_request-IsBounded_example =
    http_request-IsBounded luring luring_reparse (codes "example.org") none (some (codes "x"))

read_body-IsCapped_example :
    ((read_body (λ bs. bs) (λ s. none) none (stream ((1 ∷ 2 ∷ []) ∷ (3 ∷ []) ∷ []))).body_text
      ≡ take max_response_bytes (all_bytes ((1 ∷ 2 ∷ []) ∷ (3 ∷ []) ∷ [])))
    × ((read_body (λ bs. bs) (λ s. none) none (stream ((1 ∷ 2 ∷ []) ∷ (3 ∷ []) ∷ []))).truncated
        ≡ ltb max_response_bytes (length (all_bytes ((1 ∷ 2 ∷ []) ∷ (3 ∷ []) ∷ []))))
    × ((read_body (λ bs. bs) (λ s. none) none (stream ((1 ∷ 2 ∷ []) ∷ (3 ∷ []) ∷ []))).body ≡ (
        if (read_body (λ bs. bs) (λ s. none) none (stream ((1 ∷ 2 ∷ []) ∷ (3 ∷ []) ∷ []))).truncated
        then string
            (read_body
              (λ bs. bs)
              (λ s. none)
              none
              (stream ((1 ∷ 2 ∷ []) ∷ (3 ∷ []) ∷ []))).body_text
        else (read_body (λ bs. bs) (λ s. none) none (stream ((1 ∷ 2 ∷ []) ∷ (3 ∷ []) ∷ []))).body))
read_body-IsCapped_example =
    read_body-IsCapped (λ bs. bs) (λ s. none) none ((1 ∷ 2 ∷ []) ∷ (3 ∷ []) ∷ [])

-- A Kelvin sign passes the check of the digits in radix 21, and ends the number that parseInt reads.
kelvin : parse_in_radix (49 ∷ 8490 ∷ []) 21 ≡ some (exact 1)
unfolding parse_in_radix trim
kelvin = refl

prefixed : parse_in_radix (codes " 0xff") 16 ≡ some (exact 255)
unfolding parse_in_radix trim
prefixed = refl

abbrev no_text : ℕ → ℕ → Text
no_text n radix = []

math_base-returns_example :
    (there back : Conversion) × (math_base no_text
        (to_string no_text (exact 255) 16)
        (finite (pos 16) zero)
        (finite (pos 2) zero)
      ≡ some there)
    × (math_base no_text there.result (finite (pos 2) zero) (finite (pos 16) zero) ≡ some back)
    × (there.decimal ≡ exact 255)
    × (there.binary ≡ to_string no_text (exact 255) 2)
    × (there.octal ≡ to_string no_text (exact 255) 8)
    × (there.hex ≡ to_string no_text (exact 255) 16)
    × (back.result ≡ to_string no_text (exact 255) 16)
unfolding to_string
math_base-returns_example =
    math_base-returns no_text 255 16 2 (omega arith) (omega arith) (omega arith) (omega arith)
      (omega arith) [] [] tt tt
