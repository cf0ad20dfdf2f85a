-- ===== src/SearchAutocomplete/Api.antt =====
-- search_autocomplete/cmd/api/main.go: HandleSuggest over the suggester of internal/store. A parameter
-- of the query that is missing is the empty text; the time that a reply carries is left out.
pub mod Laws
use system_design_implementa.Prelude.{
  ℕ, ◌≡◌, Bool, true, false, ◌&&◌, List, [], ◌∷◌, take, length, Option, none, some, ltb,
  if◌then◌else◌,
}
use system_design_implementa.Prelude.Int.{ℤ, pos, negsuc}
use system_design_implementa.SearchAutocomplete.Text.{is_empty, trim_space, atoi}
use system_design_implementa.SearchAutocomplete.Tiers.{Tiers, Source, answer}

-- errorResponse with status 400, or suggestResponse with status 200.
pub data Reply : Type 0 where
  missing_query : Reply
  suggested : List ℕ → List (List ℕ) → Source → Reply

-- The parameter q, or its alias search.
unfoldable pub query_text : List ℕ → List ℕ → List ℕ
unfolding trim_space
query_text q search = trim_space (if is_empty q then search else q)

-- The cap by the parameter k.
unfoldable pub cut_to : Option ℤ → List (List ℕ) → List (List ℕ)
cut_to none res = res
cut_to (some (negsuc n)) res = res
cut_to (some (pos n)) res = if ltb n (length res) then take n res else res

unfoldable pub capped : List ℕ → List (List ℕ) → List (List ℕ)
unfolding cut_to atoi
capped k res = if is_empty k then res else cut_to (atoi k) res

unfoldable pub handle_suggest :
    Bool → Bool → Bool → List ℕ → List ℕ → List ℕ → Tiers → Tiers × Reply
unfolding query_text capped answer
handle_suggest redis_ok mongo_ok set_ok q search k t =
    let text = query_text q search in
    if is_empty text
    then (t, missing_query)
    else let (t', res, source) = answer redis_ok mongo_ok set_ok text t in
      (t', suggested text (capped k res) source)
