-- ===== src/Ranking/Order.antt =====
-- The order and the rows of the ranking, beside the comparison and the loop of
-- backend/usecase/ranking.go.
use num_duel.Prelude.{
  ℕ, ◌<◌, ◌≡◌, refl, ◌⊎◌, inl, inr, Bool, true, false, none, some, List, [], ◌∷◌, map, All, arith,
  Bool-cases, ◌==◌, if◌then◌else◌,
}
use num_duel.Model.{Text, User, user, master, is_deleted, is_master}
use num_duel.Ranking.{RankingRebuildRow, text_lt, ranks_before, rebuild_rows}

-- What sort.Slice asks of a comparison.
pub record StrictWeak (less : RankingRebuildRow → RankingRebuildRow → Bool) : Type 0 where
  pub asym : (x y : RankingRebuildRow) → less x y ≡ true → less y x ≡ false
  pub incomparable :
      (x y z : RankingRebuildRow) → less x y ≡ false → less y z ≡ false → less x z ≡ false

-- No row is less than one that stands in front of it.
abbrev pub Sorted : (RankingRebuildRow → RankingRebuildRow → Bool) → List RankingRebuildRow → Type 0
Sorted less [] = Unit
Sorted less (r ∷ rs) = All (λ later. less later r ≡ false) rs × Sorted less rs

-- One name is not after the other one, byte by byte.
pub data NotAfter : Text → Text → Type 0 where
  ends : {ys : Text} → NotAfter [] ys
  differs : {x y : ℕ} {xs ys : Text} → x < y → NotAfter (x ∷ xs) (y ∷ ys)
  agrees : {x : ℕ} {xs ys : Text} → NotAfter xs ys → NotAfter (x ∷ xs) (x ∷ ys)

-- More wins, or as many and a name that is not after the other one.
abbrev pub NotBehind : RankingRebuildRow → RankingRebuildRow → Type 0
NotBehind r later =
    (later.win_count < r.win_count)
    ⊎ ((later.win_count ≡ r.win_count) × NotAfter r.username later.username)

abbrev pub InRankOrder : List RankingRebuildRow → Type 0
InRankOrder [] = Unit
InRankOrder (r ∷ rs) = All (NotBehind r) rs × InRankOrder rs

-- The users who are neither deleted nor masters.
abbrev pub plays : User → Bool
plays u = elim u.deleted_at [ some _ ↦ false | none ↦ elim u.role [ user ↦ true | master ↦ false ] ]

abbrev pub players : List User → List User
players [] = []
players (u ∷ us) = let rest = players us in if plays u then u ∷ rest else rest

abbrev pub entry : User → RankingRebuildRow
entry u = record { user_id = u.id; username = u.username; win_count = u.win_count }

pub rebuild_rows-players : (us : List User) → rebuild_rows us ≡ map entry (players us)
unfolding rebuild_rows is_deleted is_master
rebuild_rows-players [] = refl
rebuild_rows-players (u ∷ us) = ground (arith, rebuild_rows-players us)

text_lt-asym : (x y : Text) → text_lt x y ≡ true → text_lt y x ≡ false
unfolding text_lt
text_lt-asym [] [] h = refl
text_lt-asym [] (b ∷ y) h = refl
text_lt-asym (a ∷ x) [] h = cc
text_lt-asym (a ∷ x) (b ∷ y) h = ground (arith, text_lt-asym x y)

text_lt-incomparable :
    (x y z : Text) → text_lt x y ≡ false → text_lt y z ≡ false → text_lt x z ≡ false
unfolding text_lt
text_lt-incomparable [] [] z h k = k
text_lt-incomparable [] (b ∷ y) z h k = cc
text_lt-incomparable (a ∷ x) y [] h k = refl
text_lt-incomparable (a ∷ x) [] (c ∷ z) h k = cc
text_lt-incomparable (a ∷ x) (b ∷ y) (c ∷ z) h k = ground (arith, text_lt-incomparable x y z)

pub ranks_before-StrictWeak : StrictWeak ranks_before
unfolding ranks_before
ranks_before-StrictWeak = record {
  asym = λ x y h. ground (arith, text_lt-asym x.username y.username);
  incomparable = λ x y z h k. ground (arith, text_lt-incomparable x.username y.username z.username);
}

text_lt-NotAfter : (x y : Text) → text_lt y x ≡ false → NotAfter x y
unfolding text_lt
text_lt-NotAfter [] y h = ends
text_lt-NotAfter (a ∷ x) [] h = cc
text_lt-NotAfter (a ∷ x) (b ∷ y) h = elim (Bool-cases (b == a)) [
  | inl same ↦ let e : a ≡ b = ground arith in rw e (agrees (text_lt-NotAfter x y (ground arith)))
  | inr other ↦ differs (ground arith)
]

ranks_before-NotBehind :
    (r later : RankingRebuildRow) → ranks_before later r ≡ false → NotBehind r later
unfolding ranks_before
ranks_before-NotBehind r later h = elim (Bool-cases (later.win_count == r.win_count)) [
  | inl same ↦ inr (ground arith, text_lt-NotAfter r.username later.username (ground arith))
  | inr other ↦ inl (ground arith)
]

All-map :
    (r : RankingRebuildRow) (rs : List RankingRebuildRow)
    → All (λ later. ranks_before later r ≡ false) rs
    → All (NotBehind r) rs
All-map r [] h = tt
All-map r (x ∷ xs) (h, hs) = (ranks_before-NotBehind r x h, All-map r xs hs)

pub Sorted-InRankOrder :
    (rows : List RankingRebuildRow) → Sorted ranks_before rows → InRankOrder rows
Sorted-InRankOrder [] h = tt
Sorted-InRankOrder (r ∷ rs) (h, hs) = (All-map r rs h, Sorted-InRankOrder rs hs)
