-- ===== src/SearchAutocomplete/Tiers/Examples.antt =====
-- The tiers' theorems at one prefix.
use system_design_implementa.Prelude.{[], ◌∷◌}
use system_design_implementa.Prelude.Int.{pos}
use system_design_implementa.SearchAutocomplete.Tiers.{Entries, Tiers}

abbrev to_word : Entries
to_word = (116 ∷ [], record { word = 116 ∷ 111 ∷ []; freq = pos 3 } ∷ []) ∷ []

-- Empty caches over one record.
abbrev cold : Tiers
cold = record { memory = []; redis = []; mongo = to_word }
