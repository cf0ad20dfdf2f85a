-- ===== src/SearchAutocomplete/Aol/Voting.antt =====
-- What processFile counts, against a count of users and of lines.
use system_design_implementa.Prelude.{
  ℕ, ◌+◌, ◌≡◌, refl, sym, ap, Bool, true, false, not, ◌&&◌, ◌||◌, List, [], ◌∷◌, Option, none, some,
  if◌then◌else◌, arith, Bool-cases, Option-cases, inl, inr,
}
use system_design_implementa.SearchAutocomplete.Seeder.{same}
use system_design_implementa.SearchAutocomplete.Seeder.Index.{find-put, same-eq}
use system_design_implementa.SearchAutocomplete.Aol.{
  Row, Counts, count, bump, Votes, bump_all, queries, flush_user, member, see, change_user, vote,
}

abbrev pub one_if : Bool → ℕ
one_if b = if b then 1 else 0

pub count-bump : (p q : List ℕ) (m : Counts) → count p (bump q m) ≡ one_if (same q p) + count p m
unfolding bump
count-bump p q m = elim (Bool-cases (same q p)) [
  | inl e ↦
      let at = same-eq q p e in
      ground (arith, find-put p q (count q m + 1) m, e, ap (λ z. count z m) at)
  | inr e ↦ ground (arith, find-put p q (count q m + 1) m, e)
]

abbrev pub is_set : List (List ℕ) → Bool
is_set [] = true
is_set (q ∷ qs) = not (member q qs) && is_set qs

member-same : (p q : List ℕ) (qs : List (List ℕ)) → same p q ≡ true → member p qs ≡ member q qs
member-same p q qs e = ap (λ z. member z qs) (same-eq p q e)

pub count-bump_all :
    (p : List ℕ) (qs : List (List ℕ)) (m : Counts)
    → is_set qs ≡ true
    → count p (bump_all qs m) ≡ one_if (member p qs) + count p m
unfolding bump_all
count-bump_all p [] m e = omega arith
count-bump_all p (q ∷ qs) m e =
    let rest = count-bump_all p qs (bump q m) (ground arith) in
    let first = count-bump p q m in
    elim (Bool-cases (same q p)) [
      | inl y ↦ ground (arith, rest, first, y, member-same q p qs y)
      | inr n ↦ ground (arith, rest, first, n)
    ]

-- Whether a user asks for a query, and whether a user has a row.
abbrev pub asks : List ℕ → List ℕ → List Row → Bool
asks u q [] = false
asks u q (r ∷ rs) = (same r.user u && same r.query q) || asks u q rs

abbrev pub has_user : List ℕ → List Row → Bool
has_user u [] = false
has_user u (r ∷ rs) = same r.user u || has_user u rs

has_user-asks : (u q : List ℕ) (rs : List Row) → has_user u rs ≡ false → asks u q rs ≡ false
has_user-asks u q [] e = refl
has_user-asks u q (r ∷ rs) e = ground (arith, has_user-asks u q rs)

-- How many users ask for a query, each counted at the last of its rows, and how many rows do.
abbrev pub voters : List ℕ → List Row → ℕ
voters q [] = 0
voters q (r ∷ rs) = (if same r.query q && not (asks r.user q rs) then 1 else 0) + voters q rs

abbrev pub askings : List ℕ → List Row → ℕ
askings q [] = 0
askings q (r ∷ rs) = (if same r.query q then 1 else 0) + askings q rs

-- The rows of each user stand together: after the rows of `u` no row of `u` follows.
abbrev pub grouped_from : List ℕ → List Row → Bool
grouped_from u [] = true
grouped_from u (r ∷ rs) = (same r.user u || not (has_user u rs)) && grouped_from r.user rs

abbrev pub is_grouped : List Row → Bool
is_grouped [] = true
is_grouped (r ∷ rs) = grouped_from r.user rs

-- The set has been made, or its user is still to come.
abbrev pub ready : List ℕ → Option (List (List ℕ)) → List Row → Bool
ready u none rs = same u [] && not (has_user [] rs)
ready u (some qs) rs = is_set qs

abbrev pub pending : List ℕ → Votes → List Row → ℕ
pending q v rs = one_if (member q (queries v.seen) && not (asks v.user q rs))

module _ (q : List ℕ) (r : Row) (rs : List Row) where
  same_user-voters :
      (qs : List (List ℕ)) (u : List ℕ)
      → same r.user u ≡ true
      → voters q rs + one_if ((same r.query q || member q qs) && not (asks u q rs))
        ≡ voters q (r ∷ rs) + one_if (member q qs && not (asks u q (r ∷ rs)))
  same_user-voters qs u e =
      let at = ap (λ z. asks z q rs) (same-eq r.user u e) in
      elim (Bool-cases (same r.query q)) [
        | inl y ↦ ground (arith, e, at, y)
        | inr n ↦ ground (arith, e, at, n)
      ]

  other_user-voters :
      (qs : List (List ℕ)) (u : List ℕ)
      → same r.user u ≡ false
      → has_user u rs ≡ false
      → one_if (member q qs)
          + voters q rs
          + one_if ((same r.query q || false) && not (asks r.user q rs))
        ≡ voters q (r ∷ rs) + one_if (member q qs && not (asks u q (r ∷ rs)))
  other_user-voters qs u e alone =
      let never = has_user-asks u q rs alone in
      elim (Bool-cases (same r.query q)) [
        | inl y ↦ ground (arith, e, never, y)
        | inr n ↦ ground (arith, e, never, n)
      ]

member-see :
    (p q : List ℕ) (qs : List (List ℕ))
    → member q (if member p qs then qs else p ∷ qs) ≡ (same p q || member q qs)
member-see p q qs = elim (Bool-cases (member p qs)) [
  | inl y ↦ elim (Bool-cases (same p q)) [
    | inl e ↦ ground (arith, y, e, member-same p q qs e)
    | inr e ↦ ground (arith, y, e)
  ]
  | inr n ↦ ground (arith, n)
]

set-see :
    (p : List ℕ) (qs : List (List ℕ))
    → is_set qs ≡ true
    → is_set (if member p qs then qs else p ∷ qs) ≡ true
set-see p qs e = elim (Bool-cases (member p qs)) [
  | inl y ↦ ground (arith, y, e)
  | inr n ↦ ground (arith, n, e)
]

-- One row in the mode "user": it does not panic, and moves a vote from the rows to the counts.
pub vote-user :
    (r : Row) (rs : List Row) (v : Votes)
    → ready v.user v.seen (r ∷ rs) ≡ true
    → grouped_from v.user (r ∷ rs) ≡ true
    → (v' : Votes) × (vote false r v ≡ some v')
      × (ready v'.user v'.seen rs ≡ true)
      × (v'.user ≡ r.user)
      × ((q : List ℕ)
          → count q v'.global + voters q rs + pending q v' rs
            ≡ count q v.global + voters q (r ∷ rs) + pending q v (r ∷ rs))
unfolding vote see change_user flush_user
vote-user r rs v ok g = elim (Bool-cases (same r.user v.user)) [
  | inl y ↦ elim (Option-cases (v.seen)) [
    | inl e ↦
        let empty : same v.user [] ≡ true = ground (arith, e, ok) in
        let at = ap (λ z. same r.user z) (same-eq v.user [] empty) in
        absurd (ground (arith, e, ok, at, y))
    | inr (qs, e) ↦ (
      record v { seen = some (if member r.query qs then qs else r.query ∷ qs) },
      ground (arith, e, y),
      set-see r.query qs (ground (arith, e, ok)),
      sym (same-eq r.user v.user y),
      λ q. ground (arith, e, member-see r.query q qs, same_user-voters q r rs qs v.user y),
    )
  ]
  | inr n ↦
      let qs = queries v.seen in
      let alone : has_user v.user rs ≡ false = ground (arith, g, n) in
      let set : is_set qs ≡ true = elim (Option-cases (v.seen)) [
        | inl e ↦ ground (arith, e)
        | inr (qs', e) ↦ ground (arith, e, ok)
      ] in
      (
        record { global = bump_all qs v.global; user = r.user; seen = some (r.query ∷ []) },
        ground (arith, n),
        refl,
        refl,
        λ q.
            ground
              (arith, count-bump_all q qs v.global set, other_user-voters q r rs qs v.user n alone),
      )
]
