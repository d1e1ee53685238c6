-- ===== src/Socket/Handler.antt =====
-- backend/websocket/handler.go: one connection, from its first message to its end. A message is what
-- remains of the JSON text: its type without blanks and in capitals, the identity of the game where it
-- parses, and the numbers.
pub mod Laws
use num_duel.Prelude.{
  ℕ, ◌*◌, Bool, true, false, Option, none, some, List, [], ◌∷◌, ◌==◌, if◌then◌else◌, length,
}
use num_duel.Model.{Uuid, Text, Result, ok, err, Err, unauthorized, other}
use num_duel.World.{M, Env, World, Event}
use num_duel.RedisStore.{second, set_ws_user, delete_ws_user}
use num_duel.Api.Errors.{Code, ws_error_code}
use num_duel.Api.Errors
use num_duel.Session.Access.{
  WsAuthUseCase, authenticate, record_connection, notify_opponent, touch_activity,
  close_connection_log,
}
use num_duel.Game.UseCase.{GameUseCase, sync_game_state}
use num_duel.Game.Play.{set_secret_number, submit_guess}
use num_duel.Socket.Hub.{
  Hub, Server, Frame, failure, pong, auth_ok, write, register, disconnect, send_to_user, send_error,
}

pub record Handler : Type 0 where
  pub auth : WsAuthUseCase
  pub game : GameUseCase
  pub redis : Bool
  pub jwt_min : ℕ

pub data MsgType : Type 0 where
  auth ping set_secret guess sync_request unknown : MsgType

-- `clientMsg`
pub record ClientMsg : Type 0 where
  pub msg_type : MsgType
  pub game_id : Option Uuid
  pub secret_number : Text
  pub guess_number : Text

-- The variables of Handle: the connection, its identity, the cookie of the request, and the user and
-- the log, which are `uuid.Nil` at first; `authed` is the message in the channel `authCh`.
pub record Conn : Type 0 where
  pub conn : ℕ
  pub conn_id : Text
  pub cookie : Text
  pub user_id : Uuid
  pub ws_log_id : Uuid
  pub authed : Bool

abbrev pub State : Type 0
State = Conn × Server

-- The events of a use case go to the users' connections.
abbrev pub deliver : List Event → Hub → Hub
deliver [] h = h
deliver (e ∷ es) h = deliver es (send_to_user e h)

-- The events that were sent after the first ones.
abbrev pub since : {A : Type 0} → List A → List A → List A
since [] new = new
since (x ∷ old) [] = []
since (x ∷ old) (y ∷ new) = since old new

-- A call of a use case: the new state, with what it sent delivered, and the result.
abbrev pub call : {A : Type 0} → M A → Server → Result A × Server
call m (h, w) = let (r, w') = m w in (r, (deliver (since w.sent w'.sent) h, w'))

-- `writeUseCaseError` and `sendUseCaseError`
abbrev pub write_use_case_error : ℕ → Err → Hub → Hub
write_use_case_error k e h =
    let (code, message) = ws_error_code e in write k (failure code message) h

abbrev pub send_use_case_error : Uuid → Err → Hub → Hub
send_use_case_error user e h =
    let (code, message) = ws_error_code e in send_error user code message h

abbrev pub report : {A : Type 0} → Uuid → Result A × Server → Server
report user (ok a, s) = s
report user (err e, (h, w)) = (send_use_case_error user e h, w)

abbrev pub run_call : {A : Type 0} → M A → Server → Server
run_call m s = (call m s).1

module _ (env : Env) (h : Handler) where
  -- The rest of AUTH, once the connection is in the log.
  unfoldable pub enter : Conn → Server → State
  enter c (hub, w) =
      let hub1 = register c.user_id c.conn_id c.conn hub in
      let w1 =
        if h.redis
        then (set_ws_user env c.user_id c.conn_id (h.jwt_min * (60 * second)) w).1
        else w in
      let hub2 = write c.conn (auth_ok c.user_id) hub1 in
      (record c { authed = true }, run_call (notify_opponent env h.auth true c.user_id) (hub2, w1))

  -- AUTH after Authenticate: the user is set before the connection is in the log.
  abbrev pub after_record : Conn → Result Uuid × Server → State
  after_record c (err e, (hub, w)) =
      (record c { ws_log_id = 0 }, (write_use_case_error c.conn e hub, w))
  after_record c (ok log, s) = enter (record c { ws_log_id = log }) s

  abbrev pub after_authenticate : Conn → Result Uuid × Server → State
  after_authenticate c (err e, (hub, w)) = (c, (write_use_case_error c.conn e hub, w))
  after_authenticate c (ok user, s) =
      let c1 : Conn = record c { user_id = user } in
      after_record c1 (call (record_connection env h.auth user c.conn_id) s)

  -- A message before the user is known.
  unfoldable pub on_stranger : MsgType → State → State
  on_stranger auth (c, s) = after_authenticate c (call (authenticate env h.auth c.cookie) s)
  on_stranger t (c, (hub, w)) = (c, (write c.conn (failure Errors.unauthorized (other 8)) hub, w))

  -- `uuid.Parse` and the call of the game.
  abbrev pub in_game : {A : Type 0} → Uuid → Option Uuid → (Uuid → M A) → Server → Server
  in_game user none m (hub, w) = (send_error user Errors.validation_error (other 9) hub, w)
  in_game user (some game) m s = report user (call (m game) s)

  -- A message of a known user.
  unfoldable pub on_user : ClientMsg → State → State
  on_user m (c, s) =
      let user = c.user_id in
      let s1 = run_call (touch_activity env h.auth user) s in
      elim m.msg_type [
        | ping ↦ (c, (write c.conn pong s1.0, s1.1))
        | set_secret ↦ (
          c,
          in_game user m.game_id (λ g. set_secret_number env h.game user g m.secret_number) s1,
        )
        | guess ↦ (
          c,
          in_game user m.game_id (λ g. submit_guess env h.game user g m.guess_number false) s1,
        )
        | sync_request ↦ (c, in_game user m.game_id (λ g. sync_game_state env h.game user g) s1)
        | _ ↦ (c, (send_error user Errors.validation_error (other 10) s.0, s.1))
      ]

  unfoldable pub on_message : ClientMsg → State → State
  on_message m (c, s) = if c.user_id == 0 then on_stranger m.msg_type (c, s) else on_user m (c, s)

  unfoldable pub on_disconnect : Uuid → Uuid → Server → Server
  on_disconnect user log (hub, w) =
      let w1 = if h.redis then (delete_ws_user env user w).1 else w in
      let s1 = run_call (close_connection_log env h.auth log) (disconnect user hub, w1) in
      run_call (notify_opponent env h.auth false user) s1

  -- The end of the loop, when reading fails; the connection is closed on the way out.
  unfoldable pub on_read_error : State → Server
  on_read_error (c, s) =
      let (hub, w) = if c.user_id == 0 then s else on_disconnect c.user_id c.ws_log_id s in
      (record hub { closed = c.conn ∷ hub.closed }, w)

  -- The timer of five seconds.
  unfoldable pub on_timer : State → State
  on_timer (c, (hub, w)) =
      (c, (if c.authed then hub else record hub { closed = c.conn ∷ hub.closed }, w))
