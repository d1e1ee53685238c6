-- ===== src/Socket/Hub/Laws.antt =====
-- The registry of connections, whatever is registered, cut and written.
use num_duel.Prelude.{ℕ, ◌≡◌, ◌≢◌, false, some, [], ◌∷◌, ◌++◌, contains, arith}
use num_duel.Model.{Uuid, Text}
use num_duel.Socket.Hub.{Frame, Hub, new_hub, conn_of, write, register, disconnect, send_raw}

-- A connection in the hub is open, and stands for one user.
pub record IsSound (h : Hub) : Type 0 where
  pub opened : (u : Uuid) (k : ℕ) → conn_of (h.clients u) ≡ some k → contains k h.closed ≡ false
  pub single :
      (u v : Uuid) (k : ℕ) → conn_of (h.clients u) ≡ some k → conn_of (h.clients v) ≡ some k → u ≡ v

-- What happens to the hub. A connection that is registered is open and new to the hub.
pub data HubStep : Hub → Hub → Type 0 where
  registers :
      (h : Hub) (u : Uuid) (id : Text) (k : ℕ)
      → contains k h.closed ≡ false
      → ((v : Uuid) → conn_of (h.clients v) ≢ some k)
      → HubStep h (register u id k h)
  disconnects : (h : Hub) (u : Uuid) → HubStep h (disconnect u h)
  sends : (h : Hub) (u : Uuid) (f : Frame) → HubStep h (send_raw u f h)

pub data HubReach (h : Hub) : Hub → Type 0 where
  start : HubReach h h
  more : {h1 h2 : Hub} → HubReach h h1 → HubStep h1 h2 → HubReach h h2

register-IsSound :
    (h : Hub) (u : Uuid) (id : Text) (k : ℕ)
    → contains k h.closed ≡ false
    → ((v : Uuid) → conn_of (h.clients v) ≢ some k)
    → IsSound h
    → IsSound (register u id k h)
unfolding register
register-IsSound h u id k fresh new s = record {
  opened = λ v j e. grind arith;
  single = λ v v' j e e'. grind arith;
}

disconnect-IsSound : (h : Hub) (u : Uuid) → IsSound h → IsSound (disconnect u h)
unfolding disconnect
disconnect-IsSound h u s = record {
  opened = λ v j e. grind arith;
  single = λ v v' j e e'. grind arith;
}

send_raw-IsSound : (h : Hub) (u : Uuid) (f : Frame) → IsSound h → IsSound (send_raw u f h)
unfolding send_raw write
send_raw-IsSound h u f s = record {
  opened = λ v j e. grind arith;
  single = λ v v' j e e'. grind arith;
}

-- Whatever is registered, cut or written, given that a connection which is registered is open and
-- new to the hub, every connection in a sound hub stays open, and stands for one user only.
pub HubReach-IsSound : {h h' : Hub} → HubReach h h' → IsSound h → IsSound h'
HubReach-IsSound start s = s
HubReach-IsSound (more r (registers h u id k fresh new)) s =
    register-IsSound h u id k fresh new (HubReach-IsSound r s)
HubReach-IsSound (more r (disconnects h u)) s = disconnect-IsSound h u (HubReach-IsSound r s)
HubReach-IsSound (more r (sends h u f)) s = send_raw-IsSound h u f (HubReach-IsSound r s)

pub new_hub-IsSound : IsSound new_hub
new_hub-IsSound = record { opened = λ u k e. cc; single = λ u v k e e'. cc }

-- In a sound hub what is sent to a connected user is written, and on a connection of nobody else.
pub send_raw-reaches :
    (h : Hub) (u v : Uuid) (f : Frame) (k : ℕ)
    → IsSound h
    → conn_of (h.clients u) ≡ some k
    → (send_raw u f h ≡ record h { written = h.written ++ (k, f) ∷ [] })
      × (conn_of (h.clients v) ≡ some k → v ≡ u)
unfolding send_raw write
send_raw-reaches h u v f k s e = (ground (arith, s.opened u k e), λ e'. s.single v u k e' e)
