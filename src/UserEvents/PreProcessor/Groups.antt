-- ===== src/UserEvents/PreProcessor/Groups.antt =====
-- The text that stands for a group in PreProcessor.cpp.
use mathlib.Core.List.{append_assoc, append-nil}
use nimble_sdk.Prelude.{
  ℕ, ◌≡◌, ◌≢◌, ◌∙◌, refl, Bool, true, Option, none, some, Option-cases, inl, inr, List, [], ◌∷◌,
  ◌++◌, Text, codes, get_elem?, ◌>>=◌, All, >>=-eq-some,
}
use nimble_sdk.UserEvents.PreProcessor.{join_group, join_filled}

-- The group columns of a row.
unfoldable pub selected : List ℕ → List Text → Option (List Text)
selected [] row = some []
selected (id ∷ ids) row = do cell ← get_elem? row id; rest ← selected ids row; some (cell ∷ rest)

-- Every group column of the row was given.
abbrev pub Filled : List Bool → List ℕ → Type 0
Filled columns_filled = All (λ id. get_elem? columns_filled id ≡ some true)

regroup :
    (group cell : Text) (o : Option Text)
    → (do rest ← o; some ((group ++ cell ++ codes "+") ++ rest))
      ≡ (do rest ← (do r ← o; some (cell ++ codes "+" ++ r)); some (group ++ rest))
regroup group cell none = refl
regroup group cell (some rest) = simp append_assoc

join_filled-join_group :
    (ids : List ℕ) (row : List Text) (columns_filled : List Bool) (group : Text)
    → Filled columns_filled ids
    → join_filled ids row columns_filled group
      ≡ (do rest ← join_group ids row; some (group ++ rest))
unfolding join_filled join_group
join_filled-join_group [] row columns_filled group h = rw (append-nil group) refl
join_filled-join_group (id ∷ ids) row columns_filled group (f, h) =
    elim (Option-cases (get_elem? row id)) [
      | inl e ↦ rw (f, e) refl
      | inr (cell, e) ↦
          rw (f, e)
            (join_filled-join_group ids row columns_filled (group ++ cell ++ codes "+") h
              ∙ regroup group cell (join_group ids row))
    ]

-- A row of an inference request whose group columns are all given has the group that an event with
-- the same cells has.
pub group_of_row-eq-group_of_event :
    (ids : List ℕ) (row : List Text) (columns_filled : List Bool)
    → Filled columns_filled ids
    → join_filled ids row columns_filled [] ≡ join_group ids row
group_of_row-eq-group_of_event ids row columns_filled h =
    join_filled-join_group ids row columns_filled [] h ∙ unchanged (join_group ids row)
  where
    unchanged : (o : Option Text) → (do rest ← o; some ([] ++ rest)) ≡ o
    unchanged none = refl
    unchanged (some rest) = refl

-- Two different pairs of group values with a plus sign between them form one and the same group.
join_group_collides :
    (a b c : Text)
    → join_group (0 ∷ 1 ∷ []) ((a ++ codes "+" ++ b) ∷ c ∷ [])
      ≡ join_group (0 ∷ 1 ∷ []) (a ∷ (b ++ codes "+" ++ c) ∷ [])
unfolding join_group
join_group_collides a b c = simp append_assoc

abbrev pub NoPlus : Text → Type 0
NoPlus = All (λ c. c ≢ b'+')

-- A cell without a plus sign can be read off the front of a group.
front_of_group :
    (a b x y : Text)
    → NoPlus a
    → NoPlus b
    → a ++ codes "+" ++ x ≡ b ++ codes "+" ++ y
    → (a ≡ b) × (x ≡ y)
front_of_group [] [] x y p q e = (refl, cc)
front_of_group [] (d ∷ b) x y p q e = absurd (q.0 (cc))
front_of_group (c ∷ a) [] x y p q e = absurd (p.0 (cc))
front_of_group (c ∷ a) (d ∷ b) x y p q e =
    let (f, g) = front_of_group a b x y p.1 q.1 (cc) in (cc, g)

-- The group columns of the row hold no plus sign.
abbrev pub PlainCells : List ℕ → List Text → Type 0
PlainCells ids row = All (λ id. (cell : Text) → get_elem? row id ≡ some cell → NoPlus cell) ids

-- Rows whose group columns hold no plus sign form the same group only if they agree there.
pub join_group-injective :
    (ids : List ℕ) (row row' : List Text) (group : Text)
    → PlainCells ids row
    → PlainCells ids row'
    → join_group ids row ≡ some group
    → join_group ids row' ≡ some group
    → selected ids row ≡ selected ids row'
unfolding join_group selected
join_group-injective [] row row' group p p' h h' = refl
join_group-injective (id ∷ ids) row row' group p p' h h' =
    let (cell, e, k) = >>=-eq-some (get_elem? row id) _ h in
    let (cell', e', k') = >>=-eq-some (get_elem? row' id) _ h' in
    let (rest, f, l) = >>=-eq-some (join_group ids row) _ k in
    let (rest', f', l') = >>=-eq-some (join_group ids row') _ k' in
    let same : cell ++ codes "+" ++ rest ≡ cell' ++ codes "+" ++ rest' = cc in
    let (c, r) = front_of_group cell cell' rest rest' (p.0 cell e) (p'.0 cell' e') same in
    let again = join_group-injective ids row row' rest p.1 p'.1 f (rw r f') in
    rw (e, e', c, again) refl
