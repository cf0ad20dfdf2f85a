-- ===== src/FileSearcher/Steps.antt =====
-- Each step keeps the invariant and leaves one step less to do.
use system_design_implementa.Prelude.{
  ℕ, ◌+◌, ◌≡◌, refl, ◌∙◌, sym, ap, false, List, [], ◌∷◌, ◌++◌, arith, ltb, ◌==◌, Bool-cases, inl,
  inr,
}
use system_design_implementa.Prelude.Runes.{contains}
use system_design_implementa.Prelude.Bags.{total, total-append}
use system_design_implementa.FileSearcher.{
  Dir, unreadable, dir, Entries, no_entry, file, folder, Task, waiting, walking, released, State,
  entries_of, turn,
}
use system_design_implementa.FileSearcher.Invariant.{
  found_below, found_among, left, steps_below, steps_among, steps_left, holds_slot, one_each,
  total-middle, total-middle_two, IsSound, LeadsOn,
}

steps_of-entries : (d : Dir) → steps_below d ≡ 3 + steps_among (entries_of d)
unfolding steps_below
steps_of-entries unreadable = refl
steps_of-entries (dir es) = refl

module _ (join : List ℕ → List ℕ → List ℕ) (query : List ℕ) where
  found_of-entries :
      (path : List ℕ) (d : Dir)
      → found_below join query path d ≡ found_among join query path (entries_of d)
  unfolding found_below
  found_of-entries path unreadable = refl
  found_of-entries path (dir es) = refl

  module _ (all : List (List ℕ)) (before after : List Task) (s : State) where
    abbrev At : Task → Type 0
    At t = s.tasks ≡ before ++ t ∷ after

    At-total :
        (w : Task → ℕ) (t : Task) → At t → total w s.tasks ≡ w t + (total w before + total w after)
    At-total w t e = ap (total w) e ∙ total-middle w before after t

    -- While a goroutine is there, nothing is closed.
    not_over : (t : Task) → At t → IsSound join query all s → s.closed ≡ false
    not_over t e i = elim (Bool-cases (s.closed)) [
      | inl y ↦ absurd (omega (arith, i.over y, i.counted, At-total one_each t e))
      | inr n ↦ n
    ]

    waiting-LeadsOn :
        (path : List ℕ) (d : Dir)
        → At (waiting path d)
        → IsSound join query all s
        → LeadsOn join query all s (turn join query before (waiting path d) after s)
    unfolding turn holds_slot steps_left left
    waiting-LeadsOn path d e i = elim (Bool-cases (ltb s.used 100)) [
      | inr full ↦ rw full tt
      | inl room ↦
          let was = λ (w : Task → ℕ). At-total w (waiting path d) e in
          let now = λ (w : Task → ℕ). total-middle w before after (walking path (entries_of d)) in
          let same = λ (w : List ℕ → ℕ). ap (total w) (found_of-entries path d) in
          rw room (
            record {
              counted = omega (arith, i.counted, was one_each, now one_each);
              slots = omega (arith, i.slots, was holds_slot, now holds_slot);
              few = ground (arith, i.few);
              over = i.over;
              last = i.last;
              found = λ w.
                  omega
                    (arith, i.found w, was (left join query w), now (left join query w), same w);
            },
            omega (arith, was steps_left, now steps_left, steps_of-entries d),
          )
    ]

    release-LeadsOn :
        (path : List ℕ)
        → At (walking path no_entry)
        → IsSound join query all s
        → LeadsOn join query all s (turn join query before (walking path no_entry) after s)
    unfolding turn holds_slot steps_left steps_below left found_below total
    release-LeadsOn path e i =
        let was = λ (w : Task → ℕ). At-total w (walking path no_entry) e in
        let now = λ (w : Task → ℕ). total-middle w before after released in
        (
          record {
            counted = omega (arith, i.counted, was one_each, now one_each);
            slots = omega (arith, i.slots, was holds_slot, now holds_slot);
            few = omega (arith, i.few);
            over = i.over;
            last = i.last;
            found = λ w. omega (arith, i.found w, was (left join query w), now (left join query w));
          },
          omega (arith, was steps_left, now steps_left),
        )

    folder-LeadsOn :
        (path name : List ℕ) (d : Dir) (es : Entries)
        → At (walking path (folder name d es))
        → IsSound join query all s
        → LeadsOn join query all s
            (turn join query before (walking path (folder name d es)) after s)
    unfolding turn holds_slot steps_left steps_below left found_below
    folder-LeadsOn path name d es e i =
        let was = λ (w : Task → ℕ). At-total w (walking path (folder name d es)) e in
        let now = λ (w : Task → ℕ).
          total-middle_two w before after (walking path es) (waiting (join path name) d) in
        let both = λ (w : List ℕ → ℕ).
          total-append w (found_below join query (join path name) d)
            (found_among join query path es) in
        let open_yet = not_over (walking path (folder name d es)) e i in
        (
          record {
            counted = omega (arith, i.counted, was one_each, now one_each);
            slots = omega (arith, i.slots, was holds_slot, now holds_slot);
            few = i.few;
            over = λ y. absurd (cc);
            last = i.last;
            found = λ w.
                omega (arith, i.found w, was (left join query w), now (left join query w), both w);
          },
          omega (arith, was steps_left, now steps_left),
        )

    file-LeadsOn :
        (path name : List ℕ) (es : Entries)
        → At (walking path (file name es))
        → IsSound join query all s
        → LeadsOn join query all s (turn join query before (walking path (file name es)) after s)
    unfolding turn holds_slot steps_left steps_below left found_below total
    file-LeadsOn path name es e i =
        let was = λ (w : Task → ℕ). At-total w (walking path (file name es)) e in
        let now = λ (w : Task → ℕ). total-middle w before after (walking path es) in
        let open_yet = not_over (walking path (file name es)) e i in
        let counts : s.wg ≡ total one_each (before ++ walking path es ∷ after) =
          omega (arith, i.counted, was one_each, now one_each) in
        let holds : s.used ≡ total holds_slot (before ++ walking path es ∷ after) =
          omega (arith, i.slots, was holds_slot, now holds_slot) in
        elim (Bool-cases (contains query name)) [
          | inl y ↦
              rw (y, open_yet)
                (
                  record {
                    counted = counts;
                    slots = holds;
                    few = i.few;
                    over = λ z. absurd (cc);
                    last = λ z. sym open_yet ∙ i.last z;
                    found = λ w. ground (
                      arith,
                      i.found w,
                      was (left join query w),
                      now (left join query w),
                      total-append w s.printed (join path name ∷ []),
                      y,
                    );
                  },
                  omega (arith, was steps_left, now steps_left),
                )
          | inr n ↦ rw n (
            record {
              counted = counts;
              slots = holds;
              few = i.few;
              over = i.over;
              last = i.last;
              found = λ w.
                  ground (arith, i.found w, was (left join query w), now (left join query w), n);
            },
            omega (arith, was steps_left, now steps_left),
          )
        ]

    done-LeadsOn :
        At released
        → IsSound join query all s
        → LeadsOn join query all s (turn join query before released after s)
    unfolding turn holds_slot steps_left left
    done-LeadsOn e i =
        let was = λ (w : Task → ℕ). At-total w released e in
        let now = λ (w : Task → ℕ). total-append w before after in
        let some_left : (s.wg == 0) ≡ false = ground (arith, i.counted, was one_each) in
        rw some_left (
          record {
            counted = omega (arith, i.counted, was one_each, now one_each);
            slots = omega (arith, i.slots, was holds_slot, now holds_slot);
            few = i.few;
            over = λ y. let z = i.over y in omega (arith, z);
            last = i.last;
            found = λ w. omega (arith, i.found w, was (left join query w), now (left join query w));
          },
          omega (arith, was steps_left, now steps_left),
        )

    pub turn-LeadsOn :
        (t : Task)
        → At t
        → IsSound join query all s
        → LeadsOn join query all s (turn join query before t after s)
    turn-LeadsOn (waiting path d) = waiting-LeadsOn path d
    turn-LeadsOn (walking path no_entry) = release-LeadsOn path
    turn-LeadsOn (walking path (file name es)) = file-LeadsOn path name es
    turn-LeadsOn (walking path (folder name d es)) = folder-LeadsOn path name d es
    turn-LeadsOn released = done-LeadsOn
