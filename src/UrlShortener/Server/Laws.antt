-- ===== src/UrlShortener/Server/Laws.antt =====
-- What a code that was given out leads to.
use system_design_implementa.Prelude.{
  ◌≡◌, ◌≢◌, refl, Bool, true, false, [], ◌∷◌, ◌++◌, Option, none, some, String, str_eq, str_eq_iff,
  if◌then◌else◌, arith, Option-cases, inl, inr,
}
use system_design_implementa.UrlShortener.Server.{
  Table, redirect, code_of, url_of, short_url, Asked, answered, to_insert, ask, save, shorten,
  redirect_to_original,
}

-- No short code stands on two rows.
abbrev pub codes_unique : Table → Bool
codes_unique [] = true
codes_unique ((u, c) ∷ rows) = elim (url_of c rows) [ none ↦ codes_unique rows | some v ↦ false ]

url_of-append :
    (code url c : String) (t : Table)
    → url_of code (t ++ (url, c) ∷ [])
      ≡ elim (url_of code t) [ some u ↦ some u | none ↦ if str_eq c code then some url else none ]
unfolding url_of
url_of-append code url c [] = refl
url_of-append code url c ((u, d) ∷ t) = ground (arith, url_of-append code url c t)

code_of-append :
    (o url c : String) (t : Table)
    → code_of o (t ++ (url, c) ∷ [])
      ≡ elim (code_of o t) [ some d ↦ some d | none ↦ if str_eq url o then some c else none ]
unfolding code_of
code_of-append o url c [] = refl
code_of-append o url c ((u, d) ∷ t) = ground (arith, code_of-append o url c t)

unique-append :
    (url c : String) (t : Table)
    → url_of c t ≡ none
    → codes_unique t ≡ true
    → codes_unique (t ++ (url, c) ∷ []) ≡ true
unfolding url_of
unique-append url c [] e k = refl
unique-append url c ((u, d) ∷ t) e k =
    ground (arith, unique-append url c t, url_of-append d url c t, str_eq_iff d c, str_eq_iff c d)

-- With unique codes, the code of a URL leads back to it.
url_of-code_of :
    (url c : String) (t : Table)
    → codes_unique t ≡ true
    → code_of url t ≡ some c
    → url_of c t ≡ some url
unfolding code_of url_of
url_of-code_of url c [] k e = absurd (cc)
url_of-code_of url c ((u, d) ∷ t) k e =
    ground (arith, url_of-code_of url c t, str_eq_iff u url, str_eq_iff d c)

-- Whatever a request saves, short codes stay unique, and each code that led to a URL leads to it still.
pub save-keeps :
    (a : Asked) (code : String) (fails : Bool) (t : Table)
    → codes_unique t ≡ true
    → (codes_unique (save a code fails t).0 ≡ true)
      × ((c u : String) → url_of c t ≡ some u → url_of c (save a code fails t).0 ≡ some u)
unfolding save
save-keeps (answered r) code fails t k = (k, λ c u e. e)
save-keeps (to_insert url) code fails t k = (
  ground (arith, unique-append url code t),
  λ c u e. ground (arith, url_of-append c url code t, e),
)

-- In a table with unique codes, with no database failure and a new code that is not taken, shortening a
-- URL that can be normalized answers with a code; redirecting that code leads to the normalized URL, and
-- shortening it again, with whatever new code, gives the same answer and leaves the table as it is.
pub shorten_correct :
    (normalize_url : String → Option String) (raw url code : String) (t : Table)
    → normalize_url raw ≡ some url
    → codes_unique t ≡ true
    → url_of code t ≡ none
    → (c : String) × (t' : Table) × (shorten normalize_url (some raw) false false code t
        ≡ (t', short_url c))
      × (redirect_to_original c false t' ≡ redirect 302 url)
      × ((code' : String)
          → shorten normalize_url (some raw) false false code' t' ≡ (t', short_url c))
unfolding shorten redirect_to_original
shorten_correct normalize_url raw url code t n k fresh = elim (Option-cases (code_of url t)) [
  | inl missing ↦ (
    code,
    t ++ (url, code) ∷ [],
    ground (arith, n, missing, fresh),
    ground (arith, url_of-append code url code t, fresh, str_eq_iff code code),
    λ code'. ground (arith, n, code_of-append url url code t, missing, str_eq_iff url url),
  )
  | inr (c, there) ↦ (
    c,
    t,
    ground (arith, n, there),
    ground (arith, url_of-code_of url c t),
    λ code'. ground (arith, n, there),
  )
]

-- Two requests for one new URL whose SELECTs both run before the INSERTs get two codes, if these differ
-- and neither is taken; both lead to the URL.
pub race_two_codes :
    (normalize_url : String → Option String) (raw url c d : String) (t : Table)
    → normalize_url raw ≡ some url
    → code_of url t ≡ none
    → url_of c t ≡ none
    → url_of d t ≡ none
    → c ≢ d
    → (t1 t2 : Table) × (save (ask normalize_url (some raw) false t) c false t ≡ (t1, short_url c))
      × (save (ask normalize_url (some raw) false t) d false t1 ≡ (t2, short_url d))
      × (redirect_to_original c false t2 ≡ redirect 302 url)
      × (redirect_to_original d false t2 ≡ redirect 302 url)
unfolding save ask redirect_to_original
race_two_codes normalize_url raw url c d t n m fc fd ne =
    let t1 = t ++ (url, c) ∷ [] in
    let c1 = url_of-append c url c t in
    let d1 = url_of-append d url c t in
    (
      t1,
      t1 ++ (url, d) ∷ [],
      ground (arith, n, m, fc),
      ground (arith, n, m, fd, d1, str_eq_iff c d),
      ground (arith, c1, fc, url_of-append c url d t1, str_eq_iff c c),
      ground (arith, d1, fd, url_of-append d url d t1, str_eq_iff c d, str_eq_iff d d),
    )
