-- ===== src/Game/Invariant/Setup.antt =====
-- Setting a secret, and the timeout of the setup, against the lifecycle of a game.
use num_duel.Prelude.{
  ℕ, suc, ◌≡◌, ap, refl, inl, inr, Bool, true, false, some, List, [], ◌∷◌, ◌++◌, arith,
  Option-cases, Bool-cases, ◌==◌,
}
use num_duel.Model.{
  Uuid, Time, Text, Four, Game, ok, Result-cases, both_secrets_set, is_empty, waiting_secret,
}
use num_duel.World.{Env, World, Tables}
use num_duel.Repository.Games.{game_has_id}
use num_duel.Crypto.Secret.{hash, join_colon}
use num_duel.Game.Rules.{set_game_secret_hash, start_game}
use num_duel.Game.Rules.Lifecycle.{IsValid, Step-IsValid}
use num_duel.Game.Rules.Lifecycle
use num_duel.Game.Invariant.{KeyedGames, AllValid, save-AllValid}
use mathlib.Core.Option.{some-injective as some_injective}
use num_duel.Game.Play.{secret_tx, own_slot}

-- A stored hash is never the empty text.
append-not_empty : (p r : Text) (c : ℕ) → is_empty (p ++ c ∷ r) ≡ false
append-not_empty [] r c = refl
append-not_empty (x ∷ p) r c = refl

pub hash-not_empty :
    (hmac : Text → List ℕ) (uuid_text : Uuid → Text) (s : Four ℕ) (game : Uuid) (slot : ℕ)
    → is_empty (hash hmac uuid_text s game slot) ≡ false
unfolding hash join_colon
hash-not_empty hmac uuid_text s game slot = append-not_empty _ _ 58

module _ (env : Env) (user game_id : Uuid) (d : Four ℕ) (w w' : World) (started : Bool)
    (game : Game) (found : env.games.first (game_has_id game_id) w.db.games ≡ some game)
    (h : secret_tx env user game_id d w ≡ (ok started, w')) where
  abbrev stored_hash : Text
  stored_hash = hash env.hmac env.uuid_text d game_id (own_slot game user)

  secret_tx-changed :
      (changed : Game) × (set_game_secret_hash game user stored_hash ≡ ok changed)
      × (game.status ≡ waiting_secret)
  unfolding secret_tx
  secret_tx-changed = elim (Result-cases (set_game_secret_hash game user stored_hash)) [
    | inr (x, e) ↦ absurd (ground arith)
    | inl (changed, e) ↦ (changed, e, ground arith)
  ]

  module _ (changed : Game) (set : set_game_secret_hash game user stored_hash ≡ ok changed) where
    abbrev stamped : Game
    stamped = record changed { updated_at = env.now (suc w.calls) }

    secret_tx-waits :
        both_secrets_set changed ≡ false
        → (started ≡ false) × (w'.db ≡ record w.db { games = env.games.save stamped w.db.games })
    unfolding secret_tx both_secrets_set
    secret_tx-waits e = ground arith

    secret_tx-starts :
        both_secrets_set changed ≡ true
        → (after : Game) × (start_game stamped (env.now (suc (suc (suc w.calls)))) ≡ ok after)
          × (started ≡ true)
          × (w'.db
              ≡ record w.db { games = env.games.save after (env.games.save stamped w.db.games) })
    unfolding secret_tx both_secrets_set
    secret_tx-starts e =
        elim (Result-cases (start_game stamped (env.now (suc (suc (suc w.calls)))))) [
          | inr (x, e') ↦ absurd (ground arith)
          | inl (after, e') ↦ (after, e', ground arith, ground arith)
        ]

start_game-id : (g g' : Game) (now : Time) → start_game g now ≡ ok g' → g'.id ≡ g.id
unfolding start_game
start_game-id g g' now h = ground arith

resave-AllValid :
    (env : Env) (first_row after : Game) (db db' : Tables)
    → KeyedGames env
    → after.id ≡ first_row.id
    → db'.games ≡ env.games.save after (env.games.save first_row db.games)
    → IsValid after
    → AllValid env db
    → AllValid env db'
resave-AllValid env first_row after db db' laws same e v all id g h =
    let once = laws.first-save id first_row db.games in
    let twice = laws.first-save id after (env.games.save first_row db.games) in
    let saved = rw (e, twice, once) at h in
    elim (Bool-cases (after.id == id)) [
      | inl hit ↦ rw (some_injective after g (rw hit at saved)) at v
      | inr other ↦ all id g (rw (other, ← same, other) at saved)
    ]

pub secret_tx-AllValid :
    (env : Env) (user game_id : Uuid) (d : Four ℕ) (w w' : World) (started : Bool)
    → KeyedGames env
    → secret_tx env user game_id d w ≡ (ok started, w')
    → AllValid env w.db
    → AllValid env w'.db
unfolding secret_tx
secret_tx-AllValid env user game_id d w w' started laws h all =
    elim (Option-cases (env.games.first (game_has_id game_id) w.db.games)) [
      | inl gone ↦ absurd (ground arith)
      | inr (game, found) ↦
          let (changed, set, waits) =
            secret_tx-changed env user game_id d w w' started game found h in
          let text = hash env.hmac env.uuid_text d game_id (own_slot game user) in
          let full = hash-not_empty env.hmac env.uuid_text d game_id (own_slot game user) in
          let now = env.now (suc w.calls) in
          elim (Bool-cases (both_secrets_set changed)) [
            | inl both ↦
                let (after, starts, _, saved) =
                  secret_tx-starts env user game_id d w w' started game found h changed set both in
                resave-AllValid env (record changed { updated_at = now }) after w.db w'.db laws
                  (start_game-id _ after _ starts) (ap (λ (db : Tables). db.games) saved)
                  (Step-IsValid
                    (Lifecycle.last_secret game changed after user text now _ full set starts)
                    (all game_id game found))
                  all
            | inr one ↦
                save-AllValid env (record changed { updated_at = now }) w.db w'.db laws
                  (ap (λ (db : Tables). db.games)
                    (secret_tx-waits env user game_id d w w' started game found h changed set
                      one).1)
                  (Step-IsValid
                    (Lifecycle.first_secret game changed user text now full waits set one)
                    (all game_id game found))
                  all
          ]
    ]
