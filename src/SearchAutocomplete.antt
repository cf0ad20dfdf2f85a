-- ===== src/SearchAutocomplete.antt =====
-- search_autocomplete: the trie of phrases.
pub mod Trie
pub mod Suggest
pub mod Examples
pub mod Heap
pub mod Ranking
pub mod TopK
pub mod Merge
pub mod Cache
pub mod Seeder
pub mod Tiers
pub mod Scan
pub mod PrefixIndex
pub mod Text
pub mod Files
pub mod Aol
pub mod Graph
pub mod Splitting
pub mod Api
pub mod Ngrams
