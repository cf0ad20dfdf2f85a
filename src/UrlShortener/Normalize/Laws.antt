-- ===== src/UrlShortener/Normalize/Laws.antt =====
-- Normalizing the parsed record of a URL twice is normalizing it once.
use Prim.Native.Char.{Char, code}
use mathlib.Core.Path.{ap₂}
use text.Mathlib.TextLemmas.{cons-ne-nil, head-eq_of_cons-eq, tail-eq_of_cons-eq}
use system_design_implementa.Prelude.{
  ◌≡◌, ◌∙◌, sym, ap, refl, Bool, true, false, ◌||◌, String, str_eq, str_eq_iff, if◌then◌else◌, ◌==◌,
  arith, Bool-cases, inl, inr,
}
use system_design_implementa.UrlShortener.Normalize.Order.{sort_values_twice}
use system_design_implementa.UrlShortener.Normalize.{
  Url, Library, to_lower, has_suffix, before_colon, strip_port, with_scheme, root_path,
  sorted_query, sort_values, normalize,
}

to_lower_twice :
    (low : Char → Char) (s : String)
    → ((c : Char) → low (low c) ≡ low c)
    → to_lower low (to_lower low s) ≡ to_lower low s
unfolding to_lower
to_lower_twice low String.[] h = refl
to_lower_twice low (String.◌∷◌ c s) h = ap₂ (λ d r. String.◌∷◌ d r) (h c) (to_lower_twice low s h)

-- What stands before a colon is in lower case where the whole is.
to_lower-before_colon :
    (low : Char → Char) (s : String)
    → to_lower low s ≡ s
    → to_lower low (before_colon s) ≡ before_colon s
unfolding to_lower before_colon
to_lower-before_colon low String.[] h = refl
to_lower-before_colon low (String.◌∷◌ c s) h = elim (Bool-cases (code c == 58)) [
  | inl e ↦ rw e refl
  | inr e ↦ rw e (
      ap₂ (λ d r. String.◌∷◌ d r) (head-eq_of_cons-eq h)
        (to_lower-before_colon low s (tail-eq_of_cons-eq h)))
]

abbrev has_colon : String → Bool
has_colon String.[] = false
has_colon (String.◌∷◌ c s) = code c == 58 || has_colon s

before_colon-none : (s : String) → has_colon (before_colon s) ≡ false
unfolding before_colon
before_colon-none String.[] = refl
before_colon-none (String.◌∷◌ c s) = elim (Bool-cases (code c == 58)) [
  | inl e ↦ rw e refl
  | inr e ↦ rw e (rw e (before_colon-none s))
]

has_suffix-colon : (s t : String) → has_colon t ≡ true → has_suffix s t ≡ true → has_colon s ≡ true
unfolding has_suffix
has_suffix-colon String.[] t k e = ap has_colon ((str_eq_iff "" t).0 e) ∙ k
has_suffix-colon (String.◌∷◌ c s) t k e = elim (Bool-cases (str_eq (String.◌∷◌ c s) t)) [
  | inl x ↦ ap has_colon ((str_eq_iff (String.◌∷◌ c s) t).0 x) ∙ k
  | inr x ↦ ground (arith, has_suffix-colon s t k, x)
]

strip_port_twice :
    (scheme host : String) → strip_port scheme (strip_port scheme host) ≡ strip_port scheme host
unfolding strip_port
strip_port_twice scheme host =
    let plain = before_colon-none host in
    ground (
      arith,
      plain,
      has_suffix-colon (before_colon host) ":80" refl,
      has_suffix-colon (before_colon host) ":443" refl,
    )

to_lower-strip_port :
    (low : Char → Char) (scheme host : String)
    → to_lower low host ≡ host
    → to_lower low (strip_port scheme host) ≡ strip_port scheme host
unfolding strip_port
to_lower-strip_port low scheme host h = ground (arith, to_lower-before_colon low host h)

module _ (l : Library) (lows : (c : Char) → l.low (l.low c) ≡ l.low c) where
  lower_some : (s : String) → str_eq s "" ≡ false → str_eq (to_lower (l.low) s) "" ≡ false
  unfolding to_lower
  lower_some String.[] e = e
  lower_some (String.◌∷◌ c s) e =
      elim (Bool-cases (str_eq (String.◌∷◌ (l.low c) (to_lower (l.low) s)) "")) [
        | inl x ↦ absurd (
            cons-ne-nil (l.low c) (to_lower (l.low) s)
              ((str_eq_iff (String.◌∷◌ (l.low c) (to_lower (l.low) s)) "").0 x))
        | inr x ↦ x
      ]

  with_scheme_twice :
      (scheme : String)
      → with_scheme (l.low) (with_scheme (l.low) scheme) ≡ with_scheme (l.low) scheme
  unfolding with_scheme
  with_scheme_twice scheme = elim (Bool-cases (str_eq scheme "")) [
    | inl e ↦ rw e (rw (lower_some "http" refl) (to_lower_twice (l.low) "http" lows))
    | inr e ↦ rw e (rw (lower_some scheme e) (to_lower_twice (l.low) scheme lows))
  ]

root_path_twice : (path : String) → root_path (root_path path) ≡ root_path path
unfolding root_path
root_path_twice path = ground arith

abbrev unless_empty : (String → String) → String → String
unless_empty f s = if str_eq s "" then "" else f s

unless_empty_twice :
    (f : String → String) (s : String)
    → f (f s) ≡ f s
    → unless_empty f (unless_empty f s) ≡ unless_empty f s
unless_empty_twice f s h = elim (Bool-cases (str_eq s "")) [
  | inl e ↦ rw e refl
  | inr e ↦ rw e (elim (Bool-cases (str_eq (f s) "")) [
    | inl g ↦ rw g (sym ((str_eq_iff (f s) "").0 g))
    | inr g ↦ rw g h
  ])
]

sorted_query_twice :
    (l : Library) (raw : String)
    → l.decode (l.encode (sort_values (l.decode raw))) ≡ sort_values (l.decode raw)
    → sorted_query l (sorted_query l raw) ≡ sorted_query l raw
unfolding sorted_query
sorted_query_twice l raw reads =
    let q = sort_values (l.decode raw) in
    let again : l.encode (sort_values (l.decode (l.encode q))) ≡ l.encode q =
      ap (λ v. l.encode (sort_values v)) reads ∙ ap (l.encode) (sort_values_twice (l.decode raw)) in
    unless_empty_twice (λ r. l.encode (sort_values (l.decode r))) raw again

-- Normalizing a normalized record changes nothing, for a character's lower case that is its own and a query
-- that Encode writes and Query reads back with its keys and values in order. A text
-- that is printed and parsed again need not give the same record.
normalize_idempotent {ℓ} :
    {Others : Type ℓ} (l : Library) (u : Url Others)
    → ((c : Char) → l.low (l.low c) ≡ l.low c)
    → ((raw : String)
        → l.decode (l.encode (sort_values (l.decode raw))) ≡ sort_values (l.decode raw))
    → normalize l (normalize l u) ≡ normalize l u
unfolding normalize
normalize_idempotent l u lows reads =
    let scheme = with_scheme_twice l lows u.scheme in
    let host = to_lower_twice (l.low) u.host lows in
    let port =
      ap₂ strip_port scheme
        (to_lower-strip_port (l.low) (with_scheme (l.low) u.scheme) (to_lower (l.low) u.host) host)
      ∙ strip_port_twice (with_scheme (l.low) u.scheme) (to_lower (l.low) u.host) in
    let path = root_path_twice u.path in
    let query = sorted_query_twice l u.raw_query (reads u.raw_query) in
    λ i. record u {
      scheme = scheme i;
      host = port i;
      fragment = "";
      path = path i;
      raw_query = query i;
    }
