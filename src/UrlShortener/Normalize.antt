-- ===== src/UrlShortener/Normalize.antt =====
-- url_shortener/main.go: normalizeURL, between url.Parse and String of net/url.
pub mod Order
pub mod Laws
use Prim.Native.Char.{Char, code}
use Prim.Native.Nat.{Ordering}
use Prim.Native.String as Native
use system_design_implementa.Prelude.{
  ℕ, Bool, true, false, ◌&&◌, ◌||◌, List, [], ◌∷◌, map, Option, none, some, String, str_eq,
  if◌then◌else◌, ◌==◌,
}

-- The parts of url.URL that the code reads or writes; `others` stands for the user, the raw path and the
-- flags.
pub record Url {ℓ} (Others : Type ℓ) : Type ℓ where
  pub scheme : String
  pub host : String
  pub path : String
  pub raw_query : String
  pub fragment : String
  pub others : Others

-- strings.ToLower, given unicode.ToLower.
unfoldable pub to_lower : (Char → Char) → String → String
to_lower low String.[] = ""
to_lower low (String.◌∷◌ c s) = String.◌∷◌ (low c) (to_lower low s)

unfoldable pub has_suffix : String → String → Bool
has_suffix String.[] t = str_eq "" t
has_suffix (String.◌∷◌ c s) t = str_eq (String.◌∷◌ c s) t || has_suffix s t

-- strings.Cut at the first colon: what stands before it.
unfoldable pub before_colon : String → String
before_colon String.[] = ""
before_colon (String.◌∷◌ c s) =
    let rest = before_colon s in if code c == 58 then "" else String.◌∷◌ c rest

unfoldable pub strip_port : String → String → String
unfolding has_suffix before_colon
strip_port scheme host =
    if (str_eq scheme "http" && has_suffix host ":80")
      || (str_eq scheme "https" && has_suffix host ":443")
    then before_colon host
    else host

-- The order of sort.Strings.
abbrev pub str_le : String → String → Bool
str_le s t = elim (Native.compare s t) [ Ordering.gt ↦ false | _ ↦ true ]

module _ {ℓ} {A : Type ℓ} (le : A → A → Bool) where
  unfoldable pub place : A → List A → List A
  place x [] = x ∷ []
  place x (y ∷ ys) = if le x y then x ∷ y ∷ ys else y ∷ place x ys

  unfoldable pub sort : List A → List A
  unfolding place
  sort [] = []
  sort (x ∷ xs) = place x (sort xs)

-- url.Values: the values of each key.
abbrev pub Values : Type 0
Values = List (String × List String)

-- The keys in order, and the values of each key in order.
unfoldable pub sort_values : Values → Values
unfolding sort
sort_values q = sort (λ a b. str_le a.0 b.0) (map (λ e. (e.0, sort str_le e.1)) q)

-- What net/url and unicode give: ToLower of a character, Query and Encode.
pub record Library : Type 0 where
  pub low : Char → Char
  pub decode : String → Values
  pub encode : Values → String

unfoldable pub with_scheme : (Char → Char) → String → String
unfolding to_lower
with_scheme low scheme = to_lower low (if str_eq scheme "" then "http" else scheme)

unfoldable pub root_path : String → String
root_path path = if str_eq path "/" then "" else path

unfoldable pub sorted_query : Library → String → String
unfolding sort_values
sorted_query l raw = if str_eq raw "" then "" else l.encode (sort_values (l.decode raw))

unfoldable pub normalize {ℓ} : {Others : Type ℓ} → Library → Url Others → Url Others
unfolding with_scheme to_lower strip_port root_path sorted_query
normalize l u =
    let scheme = with_scheme (l.low) u.scheme in
    record u {
      scheme = scheme;
      host = strip_port scheme (to_lower (l.low) u.host);
      fragment = "";
      path = root_path u.path;
      raw_query = sorted_query l u.raw_query;
    }

-- normalizeURL, given url.Parse and String; none is the error of Parse.
unfoldable pub normalize_url {ℓ} :
    {Others : Type ℓ}
    → Library
    → (String → Option (Url Others))
    → (Url Others → String)
    → String
    → Option String
unfolding normalize
normalize_url l parse print raw = elim (parse raw) [
  | none ↦ none
  | some u ↦ some (print (normalize l u))
]
