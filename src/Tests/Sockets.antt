-- ===== src/Tests/Sockets.antt =====
-- Examples: connections of the players 1 and 2.
use num_duel.Prelude.{◌≡◌, ◌≢◌, refl, true, false, none, [], ◌∷◌, contains, arith}
use num_duel.Model.{ok, is_deleted}
use num_duel.World.{World}
use num_duel.Session.Access.{authenticate, authenticate_claims, known_user, record_connection}
use num_duel.Socket.Hub.{Hub, Server, new_hub, register}
use num_duel.Socket.Hub.Laws.{
  IsSound, HubReach, registers, start, more, new_hub-IsSound, HubReach-IsSound,
}
use num_duel.Socket.Handler.{
  Handler, ClientMsg, Conn, State, auth, on_message, on_stranger, enter, on_read_error,
}
use num_duel.Socket.Handler.Laws.{on_message-authenticates, on_read_error-cuts}
use num_duel.Tests.Memory.{env, playing, world, use_case}
use num_duel.Tests.Admins.{gate}

abbrev handler : Handler
handler = record { auth = gate; game = use_case; redis = true; jwt_min = 15 }

-- The connection 7 of the player 2, before AUTH.
abbrev stranger : Conn
stranger = record {
  conn = 7;
  conn_id = 70 ∷ [];
  cookie = 1 ∷ [];
  user_id = 0;
  ws_log_id = 0;
  authed = false;
}

abbrev hello : ClientMsg
hello = record { msg_type = auth; game_id = none; secret_number = []; guess_number = [] }

abbrev joined : State
joined = on_message env handler hello (stranger, (new_hub, world playing))

joined-user : joined.0.user_id ≡ 2
unfolding on_message on_stranger enter authenticate authenticate_claims known_user record_connection
    is_deleted
joined-user = refl

joined-known : joined.0.user_id ≢ 0
joined-known e = absurd (ground (arith, joined-user))

on_message-authenticates_example :
    (auth ≡ auth)
    × ((v : World) × (authenticate env gate (1 ∷ []) (world playing) ≡ (ok joined.0.user_id, v)))
on_message-authenticates_example =
    on_message-authenticates env handler hello stranger (new_hub, world playing) refl joined-known

abbrev old : Conn
old = record stranger { user_id = 2; ws_log_id = 5; authed = true }

-- The player 2 has come back over the connection 8 when reading the connection 7 fails.
abbrev left_over : Server
left_over =
    on_read_error env handler
      (old, (register 2 (80 ∷ []) 8 (register 2 (70 ∷ []) 7 new_hub), world playing))

on_read_error-cuts_example : (left_over.0.clients 2 ≡ none) × (contains 8 left_over.0.closed ≡ true)
on_read_error-cuts_example =
    on_read_error-cuts env handler old (80 ∷ []) 8 (register 2 (70 ∷ []) 7 new_hub) (world playing)
      (λ e. absurd (ground arith))

abbrev two : Hub
two = register 2 (80 ∷ []) 8 (register 2 (70 ∷ []) 7 new_hub)

two-HubReach : HubReach new_hub two
unfolding register
two-HubReach =
    more (more start (registers new_hub 2 (70 ∷ []) 7 refl (λ v e. cc)))
      (registers (register 2 (70 ∷ []) 7 new_hub) 2 (80 ∷ []) 8 refl (λ v e. absurd (ground arith)))

HubReach-IsSound_example : IsSound two
HubReach-IsSound_example = HubReach-IsSound two-HubReach new_hub-IsSound
