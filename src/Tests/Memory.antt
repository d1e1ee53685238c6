-- ===== src/Tests/Memory.antt =====
-- A database in memory, a server, a clock and a keyed hash for the examples.
use mathlib.Core.List.{reverse}
use num_duel.Prelude.{
  zero, ℕ, suc, ◌+◌, ◌≡◌, refl, Bool, true, false, not, Option, none, some, List, [], ◌∷◌, ◌++◌,
  ◌==◌, leb, if◌then◌else◌, arith, text_eq,
}
use num_duel.Model.{Uuid, Text, Four, Game, User, ok, waiting_secret, in_progress, user}
use num_duel.World.{Gorm, Server, Env, RollsBack, Tables, World, mark}
use num_duel.Repository.Games.{game_has_id}
use num_duel.Crypto.Secret.{hash}
use num_duel.Game.UseCase.{GameUseCase}
use num_duel.Game.Invariant.{KeyedGames}

module _ {Row : Type 0} where
  abbrev pub first_row : (Row → Bool) → List Row → Option Row
  first_row p [] = none
  first_row p (r ∷ rs) = if p r then some r else first_row p rs

  abbrev pub find_rows : (Row → Bool) → List Row → List Row
  find_rows p [] = []
  find_rows p (r ∷ rs) = let rest = find_rows p rs in if p r then r ∷ rest else rest

  abbrev pub insert_row : (Row → ℕ) → Row → List Row → List Row
  insert_row f r [] = r ∷ []
  insert_row f r (x ∷ xs) =
      let rest = insert_row f r xs in if leb (f r) (f x) then r ∷ x ∷ xs else x ∷ rest

  abbrev pub sort_rows : (Row → ℕ) → List Row → List Row
  sort_rows f [] = []
  sort_rows f (r ∷ rs) = insert_row f r (sort_rows f rs)

  abbrev update_rows : (Row → Bool) → (Row → Row) → List Row → ℕ × List Row
  update_rows p f [] = (0, [])
  update_rows p f (r ∷ rs) =
      let (n, rest) = update_rows p f rs in if p r then (suc n, f r ∷ rest) else (n, r ∷ rest)

  -- At most so many of the rows that meet the condition, from the front.
  abbrev pub drop_rows : ℕ → (Row → Bool) → List Row → ℕ × List Row
  drop_rows zero p t = (0, t)
  drop_rows (suc n) p [] = (0, [])
  drop_rows (suc n) p (r ∷ rs) =
      let (k, fewer) = drop_rows n p rs in
      let (k', rest) = drop_rows (suc n) p rs in if p r then (suc k, fewer) else (k', r ∷ rest)

  module _ (key : Row → Uuid) where
    abbrev pub save_row : Row → List Row → List Row
    save_row r [] = r ∷ []
    save_row r (x ∷ xs) = let rest = save_row r xs in if key x == key r then r ∷ xs else x ∷ rest

    abbrev pub memory : Gorm Row
    memory = record {
      first = first_row;
      find = find_rows;
      find_in_order = λ f p t. sort_rows f (find_rows p t);
      create = λ r t. some (t ++ r ∷ []);
      save = save_row;
      updates = update_rows;
      delete = λ p t. find_rows (λ r. not (p r)) t;
      find_latest = λ f p t. reverse (sort_rows f (find_rows p t));
      delete_some = drop_rows;
      create_all = λ rs t. some (t ++ rs);
    }

-- Every lock is free and every key is missing.
abbrev pub free_server : Server
free_server = record {
  get = λ n k r. none;
  set = λ n k v ttl r. (k, v) ∷ r;
  set_nx = λ n k ttl r. (true, (k, mark) ∷ r);
  del = λ n k r. r;
  turn_keys = λ n r. [] ∷ [];
}

abbrev pub same_text : Text → List ℕ
same_text t = t

abbrev pub no_text : Uuid → Text
no_text u = []

abbrev pub env : Env
env = record {
  users = memory (λ r. r.id);
  games = memory (λ r. r.id);
  guesses = memory (λ r. r.id);
  histories = memory (λ r. r.id);
  queue = memory (λ r. r.id);
  rankings = memory (λ r. r.user_id);
  tokens = memory (λ r. r.id);
  activity_logs = memory (λ r. r.id);
  login_logs = memory (λ r. r.id);
  ws_logs = memory (λ r. r.id);
  game_fits = λ g. true;
  rollback = λ before after. before;
  server = free_server;
  fails = λ n. false;
  now = λ n. 1000 + n;
  fresh = λ n. 100 + n;
  hmac = same_text;
  uuid_text = no_text;
  rand = λ n call bound. ok 0;
  ilike = λ pattern t. text_eq pattern (37 ∷ t ++ 37 ∷ []);
  distinct_in_order = λ ts. ts;
  marshal = λ j. [];
  rfc3339 = λ t. t ∷ [];
}

pub env-RollsBack : RollsBack env
env-RollsBack = record { rollback_restores = λ before after. refl }

first-id_memory :
    (id : Uuid) (g : Game) (t : List Game) → first_row (game_has_id id) t ≡ some g → g.id ≡ id
first-id_memory id g [] h = cc
first-id_memory id g (x ∷ xs) h = ground (arith, first-id_memory id g xs)

first-save_memory :
    (id : Uuid) (g : Game) (t : List Game)
    → first_row (game_has_id id) (save_row (λ r. r.id) g t)
      ≡ (if g.id == id then some g else first_row (game_has_id id) t)
first-save_memory id g [] = refl
first-save_memory id g (x ∷ xs) = ground (arith, first-save_memory id g xs)

pub env-KeyedGames : KeyedGames env
env-KeyedGames = record { first-id = first-id_memory; first-save = first-save_memory }

abbrev pub player : Uuid → User
player id = record {
  id = id;
  username = 65 ∷ [];
  email = 97 ∷ [];
  password_hash = 1 ∷ [];
  role = user;
  win_count = 3;
  deleted_at = none;
  deleted_by = none;
  last_activity_at = 5;
  created_at = 5;
  updated_at = 5;
}

abbrev pub digits : ℕ → ℕ → ℕ → ℕ → Four ℕ
digits a b c d = record { d0 = a; d1 = b; d2 = c; d3 = d }

abbrev pub stored : Four ℕ → ℕ → Text
stored secret slot = hash same_text no_text secret 10 slot

-- The players 1 and 2 in the game 10; the first has the turn, the secrets are 1234 and 5678.
abbrev pub playing : Game
playing = record {
  id = 10;
  status = in_progress;
  player1_id = 1;
  player2_id = 2;
  player1_secret = stored (digits 1 2 3 4) 1;
  player2_secret = stored (digits 5 6 7 8) 2;
  current_turn_player_id = some 1;
  current_turn = 1;
  winner_id = none;
  started_at = some 6;
  finished_at = none;
  created_at = 5;
  updated_at = 6;
}

-- The same game before the secrets.
abbrev pub waiting : Game
waiting = record playing {
  status = waiting_secret;
  player1_secret = [];
  player2_secret = [];
  current_turn_player_id = none;
  started_at = none;
}

abbrev pub tables : List User → Game → Tables
tables users game = record {
  users = users;
  games = game ∷ [];
  guesses = [];
  histories = [];
  queue = [];
  rankings = [];
  tokens = [];
  activity_logs = [];
  login_logs = [];
  ws_logs = [];
}

abbrev pub world : Game → World
world game = record {
  db = tables (player 1 ∷ player 2 ∷ []) game;
  redis = [];
  sent = [];
  calls = 0;
}

abbrev pub use_case : GameUseCase
use_case = record {
  locks = true;
  turns = true;
  random = true;
  notifier = true;
  turn_duration = 30;
  secret_setup = 60;
  game_lock_ttl = 10;
}
