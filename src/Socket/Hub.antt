-- ===== src/Socket/Hub.antt =====
-- backend/websocket/hub.go: who is connected, and what is written to whom. A connection is a number.
pub mod Laws
use num_duel.Prelude.{
  ℕ, Bool, true, false, Option, none, some, List, [], ◌∷◌, ◌++◌, contains, ◌==◌, if◌then◌else◌,
}
use num_duel.Model.{Uuid, Text, Err}
use num_duel.World.{M, Env, World, Event, Payload, done, ◌>>=◌}
use num_duel.RedisStore.{delete_ws_user}
use num_duel.Api.Errors.{Code}

-- `clientConn`; the connection may be absent.
pub record ClientConn : Type 0 where
  pub user_id : Uuid
  pub conn_id : Text
  pub conn : Option ℕ

-- What is written: the types of the messages. The text of a wrong message is a number.
pub data Frame : Type 0 where
  event : Payload → Frame
  failure : Code → Err → Frame
  pong : Frame
  auth_ok : Uuid → Frame

-- The map of the hub, the connections that the server has closed, and what has been written.
pub record Hub : Type 0 where
  pub clients : Uuid → Option ClientConn
  pub closed : List ℕ
  pub written : List (ℕ × Frame)

abbrev pub new_hub : Hub
new_hub = record { clients = λ u. none; closed = []; written = [] }

abbrev pub set_client : Uuid → Option ClientConn → Hub → Hub
set_client user c h = record h { clients = λ u. if u == user then c else h.clients u }

-- `conn.Close()`
abbrev pub close : Option ℕ → Hub → Hub
close none h = h
close (some k) h = record h { closed = k ∷ h.closed }

abbrev pub conn_of : Option ClientConn → Option ℕ
conn_of none = none
conn_of (some c) = c.conn

-- `conn.WriteMessage`; a write to a closed connection is an error that nobody looks at.
unfoldable pub write : ℕ → Frame → Hub → Hub
write k f h = if contains k h.closed then h else record h { written = h.written ++ (k, f) ∷ [] }

abbrev pub write_to : Option ℕ → Frame → Hub → Hub
write_to none f h = h
write_to (some k) f h = write k f h

unfoldable pub register : Uuid → Text → ℕ → Hub → Hub
register user conn_id k h =
    set_client user (some (record { user_id = user; conn_id = conn_id; conn = some k }))
      (close (conn_of (h.clients user)) h)

unfoldable pub disconnect : Uuid → Hub → Hub
disconnect user h = set_client user none (close (conn_of (h.clients user)) h)

-- `SendRaw` and, with an event, `SendToUser`.
unfoldable pub send_raw : Uuid → Frame → Hub → Hub
unfolding write
send_raw user f h = write_to (conn_of (h.clients user)) f h

abbrev pub send_to_user : Event → Hub → Hub
send_to_user e h = send_raw e.to (event e.payload) h

abbrev pub send_error : Uuid → Code → Err → Hub → Hub
send_error user code message h = send_raw user (failure code message) h

abbrev pub send_pong : Uuid → Hub → Hub
send_pong user h = send_raw user pong h

-- The hub beside the rest of the state.
abbrev pub Server : Type 0
Server = Hub × World

-- `DeleteUser` of SessionStore, where Redis may be absent; its error is the caller's.
abbrev pub delete_user_session : Env → Bool → Uuid → Server → Server
delete_user_session env redis user (h, w) =
    (disconnect user h, if redis then (delete_ws_user env user w).1 else w)

-- `DisconnectWithError`
abbrev pub disconnect_with_error : Env → Bool → Uuid → Code → Err → Server → Server
disconnect_with_error env redis user code message (h, w) =
    delete_user_session env redis user (send_error user code message h, w)
