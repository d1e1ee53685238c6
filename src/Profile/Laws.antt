-- ===== src/Profile/Laws.antt =====
-- The pages of a history.
use native.Mathlib.Nat.{suc-mul, zero-mul}
use num_duel.Prelude.{
  ℕ, zero, suc, ◌+◌, ◌*◌, ◌≤◌, ◌≡◌, refl, sym, ap, ◌∙◌, List, [], ◌++◌, map, take, drop, length,
  take-add, take-all, arith,
}
use mathlib.Core.List.{map-append}
use num_duel.Prelude.{Option-cases, inl, inr}
use num_duel.Prelude.Int.{ℤ, pos}
use num_duel.Model.{Uuid, MatchHistory, ok, is_deleted}
use num_duel.World.{Env, World, Reads, Reads-ok, >>=-eq-ok}
use num_duel.Repository.Users.{user_has_id}
use num_duel.Repository.Pages.{
  paginate_page, skip, page_rows, history_of, list_histories_by_user_id,
}
use num_duel.Profile.{
  MatchHistoryItem, match_history_item, present_user, items_of, get_match_history,
}

-- The first pages, one after the other.
unfoldable pub first_pages : {Row : Type 0} → ℕ → ℕ → List Row → List Row
first_pages zero limit rows = []
first_pages (suc n) limit rows = first_pages n limit rows ++ page_rows (suc n) limit rows

-- The limit and the offset of a page, where 64 bits hold the offset.
paginated :
    (n limit : ℕ)
    → 1 ≤ limit
    → n * limit ≤ 9223372036854775807
    → paginate_page (suc n) limit ≡ (limit, pos (n * limit))
paginated n limit positive small = ground arith

module _ {Row : Type 0} (limit : ℕ) (positive : 1 ≤ limit) (rows : List Row) where
  first_pages-take :
      (n : ℕ) → n * limit ≤ 9223372036854775807 → first_pages n limit rows ≡ take (n * limit) rows
  unfolding first_pages page_rows
  first_pages-take zero small = let e : 0 * limit ≡ 0 = zero-mul limit in rw e refl
  first_pages-take (suc n) small =
      let e : suc n * limit ≡ n * limit + limit = suc-mul n limit in
      let less : n * limit ≤ 9223372036854775807 = omega arith in
      let page : page_rows (suc n) limit rows ≡ take limit (drop (n * limit) rows) =
        ap (λ (p : ℕ × ℤ). take p.0 (skip p.1 rows)) (paginated n limit positive less) in
      rw e (
        ap (λ xs. xs ++ page_rows (suc n) limit rows) (first_pages-take n less)
        ∙ ap (λ xs. take (n * limit) rows ++ xs) page
        ∙ take-add (n * limit) limit rows)

  pub first_pages-cover :
      (n : ℕ)
      → n * limit ≤ 9223372036854775807
      → length rows ≤ n * limit
      → first_pages n limit rows ≡ rows
  first_pages-cover n small h = first_pages-take n small ∙ take-all (n * limit) rows h

-- What is shown page by page, one after the other.
unfoldable pub join : {Item : Type 0} → (ℕ → List Item) → ℕ → List Item
join shown zero = []
join shown (suc n) = join shown n ++ shown n

join-map :
    {Row Item : Type 0} (f : Row → Item) (limit : ℕ) (rows : List Row) (shown : ℕ → List Item)
    → ((k : ℕ) → shown k ≡ map f (page_rows (suc k) limit rows))
    → (n : ℕ) → join shown n ≡ map f (first_pages n limit rows)
unfolding join first_pages
join-map f limit rows shown h zero = refl
join-map f limit rows shown h (suc n) =
    ap (λ xs. xs ++ shown n) (join-map f limit rows shown h n)
    ∙ ap (λ xs. map f (first_pages n limit rows) ++ xs) (h n)
    ∙ sym (map-append f (first_pages n limit rows) (page_rows (suc n) limit rows))

module _ (env : Env) where
  present_user-Reads : (user : Uuid) → Reads (present_user env user)
  unfolding present_user is_deleted
  present_user-Reads user w = elim (Option-cases (env.users.first (user_has_id user) w.db.users)) [
    | inl missing ↦ ground arith
    | inr (u, found) ↦ ground arith
  ]

  page-ok :
      (user : Uuid) (page limit : ℕ) (w w' : World) (items : List MatchHistoryItem) (total : ℕ)
      → items_of env match_history_item (list_histories_by_user_id env user page limit) w
        ≡ (ok (items, total), w')
      → let all = env.histories.find_latest (λ h. h.finished_at) (history_of user) w.db.histories in
        (total ≡ length all) × (items ≡ map match_history_item (page_rows page limit all))
  page-ok user page limit w w' items total h = (ground arith, ground arith)

  get_match_history-ok :
      (user : Uuid) (page limit : ℕ) (w w' : World) (items : List MatchHistoryItem) (total : ℕ)
      → get_match_history env user page limit w ≡ (ok (items, total), w')
      → let all = env.histories.find_latest (λ h. h.finished_at) (history_of user) w.db.histories in
        (total ≡ length all) × (items ≡ map match_history_item (page_rows page limit all))
  unfolding get_match_history
  get_match_history-ok user page limit w w' items total h =
      let rest = items_of env match_history_item (list_histories_by_user_id env user page limit) in
      let (_, v, there, h1) = >>=-eq-ok (present_user env user) (λ _. rest) w h in
      let same = Reads-ok (present_user env user) w (present_user-Reads user) there in
      rw same at (page-ok user page limit v w' items total h1)

  -- While the table of histories stays the same, the first pages of a user's match history, of a
  -- positive limit, joined in their order, are the whole history from the latest match on, as
  -- soon as they have room for the number of matches that the first page tells, and as long as
  -- the room of the pages is a number of 63 bits.
  pub get_match_history-pages :
      (user limit : Uuid) (t : List MatchHistory) (v v' : ℕ → World)
      (shown : ℕ → List MatchHistoryItem) (totals : ℕ → ℕ)
      → ((k : ℕ) → (v k).db.histories ≡ t)
      → ((k : ℕ) → get_match_history env user (suc k) limit (v k) ≡ (ok (shown k, totals k), v' k))
      → 1 ≤ limit
      → (n : ℕ) → totals 0 ≤ n * limit
      → n * limit ≤ 9223372036854775807
      → join shown n
        ≡ map match_history_item
            (env.histories.find_latest (λ h. h.finished_at) (history_of user) t)
  get_match_history-pages user limit t v v' shown totals same called positive n enough small =
      let all = env.histories.find_latest (λ h. h.finished_at) (history_of user) t in
      let first =
        rw (same 0) at
          (get_match_history-ok user 1 limit (v 0) (v' 0) (shown 0) (totals 0) (called 0)) in
      let pages : (k : ℕ) → shown k ≡ map match_history_item (page_rows (suc k) limit all) = λ k.
        rw (same k) at
          (get_match_history-ok user (suc k) limit (v k) (v' k) (shown k) (totals k)
            (called k)).1 in
      join-map match_history_item limit all shown pages n
      ∙ ap (map match_history_item)
          (first_pages-cover limit positive all n small (rw first.0 at enough))
