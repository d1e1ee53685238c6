-- ===== src/Socket/Handler/Laws.antt =====
-- Who may act over a connection, and what the end of one does to the others.
use num_duel.Prelude.{
  ℕ, ◌≡◌, ◌≢◌, refl, sym, ap, ◌∙◌, true, false, none, List, [], ◌∷◌, contains, arith, if◌then◌else◌,
}
use num_duel.Model.{Uuid, Text, Result, ok, err}
use num_duel.World.{M, Env, World, Event}
use num_duel.Session.Access.{authenticate, record_connection, close_connection_log, notify_opponent}
use num_duel.RedisStore.{delete_ws_user}
use num_duel.Socket.Hub.{Hub, Server, Frame, write, register, disconnect, send_raw, send_to_user}
use num_duel.Socket.Handler.{
  Handler, ClientMsg, MsgType, auth, ping, set_secret, guess, sync_request, unknown, Conn, deliver,
  since, call, run_call, enter, after_record, after_authenticate, on_stranger, on_message,
  on_disconnect, on_read_error,
}

-- What writing leaves alone.
abbrev pub SameClients : Hub → Hub → Type 0
SameClients h h' = (h'.clients ≡ h.clients) × (h'.closed ≡ h.closed)

send_raw-SameClients : (u : Uuid) (f : Frame) (h : Hub) → SameClients h (send_raw u f h)
unfolding send_raw write
send_raw-SameClients u f h = (ground arith)

write-SameClients : (k : ℕ) (f : Frame) (h : Hub) → SameClients h (write k f h)
unfolding write
write-SameClients k f h = (ground arith)

deliver-SameClients : (es : List Event) (h : Hub) → SameClients h (deliver es h)
deliver-SameClients [] h = (refl, refl)
deliver-SameClients (e ∷ es) h =
    let (cs, cl) = deliver-SameClients es (send_to_user e h) in
    let (cs', cl') = send_raw-SameClients e.to (Frame.event e.payload) h in (cs ∙ cs', cl ∙ cl')

run_call-SameClients :
    {A : Type 0} (m : M A) (hub : Hub) (w : World) → SameClients hub (run_call m (hub, w)).0
run_call-SameClients m hub w = deliver-SameClients (since w.sent (m w).1.sent) hub

module _ (env : Env) (h : Handler) where
  -- The end of a user's connection, whichever it is.
  on_disconnect-clients :
      (user log : Uuid) (hub : Hub) (w : World)
      → SameClients (disconnect user hub) (on_disconnect env h user log (hub, w)).0
  unfolding on_disconnect
  on_disconnect-clients user log hub w =
      let w1 = if h.redis then (delete_ws_user env user w).1 else w in
      let m = close_connection_log env h.auth log in
      let s1 = run_call m (disconnect user hub, w1) in
      let (cs, cl) = run_call-SameClients m (disconnect user hub) w1 in
      let (cs', cl') = run_call-SameClients (notify_opponent env h.auth false user) s1.0 s1.1 in
      (cs' ∙ cs, cl' ∙ cl)

  -- When reading a user's connection fails after the user has come back over another connection,
  -- the other one is closed and the user is no longer in the hub.
  pub on_read_error-cuts :
      (c : Conn) (id : Text) (k : ℕ) (hub : Hub) (w : World)
      → c.user_id ≢ 0
      → ((on_read_error env h (c, (register c.user_id id k hub, w))).0.clients c.user_id ≡ none)
        × (contains k (on_read_error env h (c, (register c.user_id id k hub, w))).0.closed ≡ true)
  unfolding on_read_error register disconnect
  on_read_error-cuts c id k hub w known =
      let (cs, cl) = on_disconnect-clients c.user_id c.ws_log_id (register c.user_id id k hub) w in
      let gone : (on_disconnect env h c.user_id c.ws_log_id
              (register c.user_id id k hub, w)).0.clients
            c.user_id
          ≡ none =
        ground (arith, ap (λ f. f c.user_id) cs) in
      let cut : contains k
            (on_disconnect env h c.user_id c.ws_log_id (register c.user_id id k hub, w)).0.closed
          ≡ true =
        ap (contains k) cl ∙ ground arith in
      (ground arith, ground arith)

  call-ok :
      {A : Type 0} (m : M A) (s : Server) (a : A)
      → (call m s).0 ≡ ok a
      → (v : World) × (m s.1 ≡ (ok a, v))
  call-ok m (hub, w) a e = ((m w).1, ap (λ r. (r, (m w).1)) e)

  after_record-user :
      (c : Conn) (r : Result Uuid × Server) → (after_record env h c r).0.user_id ≡ c.user_id
  unfolding enter
  after_record-user c (err e, (hub, w)) = refl
  after_record-user c (ok log, (hub, w)) = refl

  after_authenticate-user :
      (c : Conn) (r : Result Uuid) (s : Server)
      → c.user_id ≡ 0
      → (after_authenticate env h c (r, s)).0.user_id ≢ 0
      → r ≡ ok ((after_authenticate env h c (r, s)).0.user_id)
  after_authenticate-user c (err e) (hub, w) zero set = absurd (set zero)
  after_authenticate-user c (ok user) s zero set = ap ok (
      sym (
        after_record-user (record c { user_id = user })
          (call (record_connection env h.auth user c.conn_id) s)))

  on_stranger-refuses :
      (t : MsgType) (c : Conn) (s : Server)
      → t ≢ auth
      → ((on_stranger env h t (c, s)).0 ≡ c)
        × ((on_stranger env h t (c, s)).1.1 ≡ s.1)
        × SameClients s.0 (on_stranger env h t (c, s)).1.0
  unfolding on_stranger
  on_stranger-refuses auth c s other = absurd (other refl)
  on_stranger-refuses ping c (hub, w) other = (refl, refl, write-SameClients c.conn _ hub)
  on_stranger-refuses set_secret c (hub, w) other = (refl, refl, write-SameClients c.conn _ hub)
  on_stranger-refuses guess c (hub, w) other = (refl, refl, write-SameClients c.conn _ hub)
  on_stranger-refuses sync_request c (hub, w) other = (refl, refl, write-SameClients c.conn _ hub)
  on_stranger-refuses unknown c (hub, w) other = (refl, refl, write-SameClients c.conn _ hub)

  on_stranger-authenticates :
      (t : MsgType) (c : Conn) (s : Server)
      → c.user_id ≡ 0
      → (on_stranger env h t (c, s)).0.user_id ≢ 0
      → (t ≡ auth)
        × ((v : World) × (authenticate env h.auth c.cookie s.1
              ≡ (ok (on_stranger env h t (c, s)).0.user_id, v)))
  unfolding on_stranger
  on_stranger-authenticates auth c s zero set =
      let m = authenticate env h.auth c.cookie in
      (refl, call-ok m s _ (after_authenticate-user c (call m s).0 (call m s).1 zero set))
  on_stranger-authenticates ping c (hub, w) zero set = absurd (set zero)
  on_stranger-authenticates set_secret c (hub, w) zero set = absurd (set zero)
  on_stranger-authenticates guess c (hub, w) zero set = absurd (set zero)
  on_stranger-authenticates sync_request c (hub, w) zero set = absurd (set zero)
  on_stranger-authenticates unknown c (hub, w) zero set = absurd (set zero)

  on_message-new :
      (m : ClientMsg) (c : Conn) (s : Server)
      → c.user_id ≡ 0
      → on_message env h m (c, s) ≡ on_stranger env h m.msg_type (c, s)
  unfolding on_message
  on_message-new m c s zero = rw zero refl

  -- A connection without a user gets one only by a message AUTH, and the user is the one that
  -- Authenticate returns for the cookie of the connection.
  pub on_message-authenticates :
      (m : ClientMsg) (c : Conn) (s : Server)
      → c.user_id ≡ 0
      → (on_message env h m (c, s)).0.user_id ≢ 0
      → (m.msg_type ≡ auth)
        × ((v : World) × (authenticate env h.auth c.cookie s.1
              ≡ (ok (on_message env h m (c, s)).0.user_id, v)))
  on_message-authenticates m c s zero set =
      let set' = rw (on_message-new m c s zero) at set in
      rw (on_message-new m c s zero) (on_stranger-authenticates m.msg_type c s zero set')

  -- Any other message of a connection without a user changes nothing but what is written.
  pub on_message-stranger :
      (m : ClientMsg) (c : Conn) (s : Server)
      → c.user_id ≡ 0
      → m.msg_type ≢ auth
      → ((on_message env h m (c, s)).0 ≡ c)
        × ((on_message env h m (c, s)).1.1 ≡ s.1)
        × SameClients s.0 (on_message env h m (c, s)).1.0
  on_message-stranger m c s zero other =
      rw (on_message-new m c s zero) (on_stranger-refuses m.msg_type c s other)
