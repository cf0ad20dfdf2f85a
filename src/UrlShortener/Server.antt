-- ===== src/UrlShortener/Server.antt =====
-- url_shortener/main.go: shortenURL and redictToOriginal over the table urls, whose short codes are
-- UNIQUE.
pub mod Laws
use Prim.Native.String as Native
use system_design_implementa.Prelude.{
  ℕ, Bool, true, false, List, [], ◌∷◌, ◌++◌, Option, none, some, String, str_eq, if◌then◌else◌,
}

-- The rows in the order of their ids: the original URL and the short code.
abbrev pub Table : Type 0
Table = List (String × String)

-- What a handler answers: a status with one JSON field, or a redirect.
pub data Response : Type 0 where
  json : ℕ → String → String → Response
  redirect : ℕ → String → Response

-- SELECT short_code FROM urls WHERE original_url = ?: the first row.
unfoldable pub code_of : String → Table → Option String
code_of url [] = none
code_of url ((u, c) ∷ rows) = if str_eq u url then some c else code_of url rows

-- SELECT original_url FROM urls WHERE short_code = ?
unfoldable pub url_of : String → Table → Option String
url_of code [] = none
url_of code ((u, c) ∷ rows) = if str_eq c code then some u else url_of code rows

-- INSERT INTO urls; none where the short code is taken.
unfoldable pub insert_row : String → String → Table → Option Table
unfolding url_of
insert_row url code t = elim (url_of code t) [ none ↦ some (t ++ (url, code) ∷ []) | some u ↦ none ]

abbrev pub short_url : String → Response
short_url code = json 200 "short_url" (Native.◌++◌ "http://localhost:8181/" code)

-- The first half of shortenURL, up to the SELECT: an answer, or the URL to insert. `fails` is whether the
-- database fails, which is treated as a URL that is not there.
pub data Asked : Type 0 where
  answered : Response → Asked
  to_insert : String → Asked

unfoldable pub ask : (String → Option String) → Option String → Bool → Table → Asked
unfolding code_of
ask normalize_url body fails t = elim body [
  | none ↦ answered (json 400 "error" "invalid request")
  | some raw ↦ elim (normalize_url raw) [
    | none ↦ answered (json 400 "error" "invalid URL")
    | some url ↦
        if fails
        then to_insert url
        else elim (code_of url t) [ some c ↦ answered (short_url c) | none ↦ to_insert url ]
  ]
]

-- The second half: the INSERT of a new code, of which other requests may be ahead.
unfoldable pub save : Asked → String → Bool → Table → Table × Response
unfolding insert_row
save (answered r) code fails t = (t, r)
save (to_insert url) code fails t =
    if fails then (t, json 500 "error" "could not save") else elim (insert_row url code t) [
      | none ↦ (t, json 500 "error" "could not save")
      | some t' ↦ (t', short_url code)
    ]

-- shortenURL with no other request between its two statements. `code` is what getUniqueHash gives.
unfoldable pub shorten :
    (String → Option String) → Option String → Bool → Bool → String → Table → Table × Response
unfolding ask save
shorten normalize_url body select_fails insert_fails code t =
    save (ask normalize_url body select_fails t) code insert_fails t

unfoldable pub redirect_to_original : String → Bool → Table → Response
unfolding url_of
redirect_to_original code fails t =
    if fails then json 500 "error" "Database error" else elim (url_of code t) [
      | none ↦ json 404 "error" "URL not found"
      | some url ↦ redirect 302 url
    ]
