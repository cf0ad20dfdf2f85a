-- ===== src/SearchAutocomplete/Api/Laws.antt =====
-- HandleSuggest answers from what MongoDB has, trimmed, capped, and never more.
use system_design_implementa.Prelude.{
  ℕ, ◌≡◌, ◌⊎◌, Bool, true, false, List, [], take, Option, none, some,
}
use system_design_implementa.Prelude.Int.{ℤ, pos, negsuc}
use system_design_implementa.SearchAutocomplete.Text.{is_empty, atoi}
use system_design_implementa.SearchAutocomplete.Cache.{words}
use system_design_implementa.SearchAutocomplete.Tiers.{Tiers, Source}
use system_design_implementa.SearchAutocomplete.Tiers.Laws.{IsCoherent, stored}
use system_design_implementa.SearchAutocomplete.Api.{Reply, missing_query, suggested}

-- At most as many as the parameter k says, where it is a number that is not negative.
abbrev pub at_most : Option ℤ → List (List ℕ) → List (List ℕ)
at_most none res = res
at_most (some (negsuc n)) res = res
at_most (some (pos n)) res = take n res

-- What a request gets from tiers: the error where its text is blank, or the completions that MongoDB has
-- under its text, at most as many as it asks for, or none where MongoDB fails.
abbrev pub RepliesAsStored : Bool → List ℕ → List ℕ → Tiers → Tiers × Reply → Type 0
RepliesAsStored mongo_ok text k t (t', missing_query) = (is_empty text ≡ true) × (t' ≡ t)
RepliesAsStored mongo_ok text k t (t', suggested prefix res source) =
    (is_empty text ≡ false)
    × (prefix ≡ text)
    × ((res ≡ at_most (atoi k) (words (stored text t)))
        ⊎ ((res ≡ []) × (source ≡ Source.nowhere) × (mongo_ok ≡ false)))
    × IsCoherent t'
    × (t'.mongo ≡ t.mongo)
