-- ===== src/UrlShortener/Examples.antt =====
-- The shortener's theorems at one URL.
use system_design_implementa.Prelude.{◌≡◌, refl, false, [], ◌∷◌, Option, some, String, str_eq_iff}
use system_design_implementa.UrlShortener.Normalize.{
  Url, Library, sort_values, normalize, strip_port, with_scheme, root_path, sorted_query, to_lower,
}
use system_design_implementa.UrlShortener.Server.{
  Table, redirect, short_url, code_of, url_of, ask, save, shorten, redirect_to_original,
}
use system_design_implementa.UrlShortener.Server.Laws.{shorten_correct, race_two_codes}

-- A library that reads no query and whose characters have no upper case.
abbrev plain : Library
plain = record { low = λ c. c; decode = λ s. []; encode = λ q. "" }

abbrev address : Url (Unit {0})
address = record {
  scheme = "";
  host = "go.dev:80";
  path = "/";
  raw_query = "a=1";
  fragment = "top";
  others = tt;
}

normalize_test :
    normalize plain address
    ≡ record address { scheme = "http"; host = "go.dev"; path = ""; raw_query = ""; fragment = "" }
unfolding normalize strip_port with_scheme root_path sorted_query sort_values to_lower
normalize_test = refl

-- The port of an IPv6 host is cut at the first colon of the address.
ipv6_cut : strip_port "http" "[::1]:80" ≡ "["
unfolding strip_port
ipv6_cut = refl

abbrev same : String → Option String
same = λ s. some s

shorten_correct_example :
    (c : String) × (t' : Table) × (shorten same (some "b") false false "c2" (("a", "c1") ∷ [])
      ≡ (t', short_url c))
    × (redirect_to_original c false t' ≡ redirect 302 "b")
    × ((code' : String) → shorten same (some "b") false false code' t' ≡ (t', short_url c))
shorten_correct_example =
    shorten_correct same "b" "b" "c2" (("a", "c1") ∷ []) refl (unfold url_of in refl)
      (unfold url_of in refl)

race_two_codes_example :
    (t1 t2 : Table) × (save (ask same (some "b") false []) "c1" false [] ≡ (t1, short_url "c1"))
    × (save (ask same (some "b") false []) "c2" false t1 ≡ (t2, short_url "c2"))
    × (redirect_to_original "c1" false t2 ≡ redirect 302 "b")
    × (redirect_to_original "c2" false t2 ≡ redirect 302 "b")
race_two_codes_example =
    race_two_codes same "b" "b" "c1" "c2" [] refl (unfold code_of in refl) (unfold url_of in refl)
      (unfold url_of in refl) (λ e. cc ((str_eq_iff "c1" "c2").1 e))
