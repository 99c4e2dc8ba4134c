-- ===== src/Server/Clients.antt =====
-- The number of clients that ParameterServer.cpp shows, and the connections that websocketServer.h
-- keeps.
use rcp_flext.Prelude.{
  ℕ, suc, ◌+◌, ◌≡◌, true, false, pos, List, [], ◌∷◌, length, arith, ltb, Bool-cases, inl, inr,
  le→not-ltb,
}
use rcp_flext.WsServer.Sets.{mem, insert, erase, length-insert, length-erase}
use rcp_flext.WsServer.Defs.{WsServer, Action, subscribe, unsubscribe, message, Callback, perform}
use rcp_flext.Server.Port.{PortState, connected, disconnected}

module _ (A : Type 0) where
  -- What a callback of the websocket server does to the object.
  abbrev pub called : PortState → List Callback → PortState
  called s [] = s
  called s (Callback.connected ∷ calls) = called (connected A s).0 calls
  called s (Callback.disconnected ∷ calls) = called (disconnected A s).0 calls
  called s (_ ∷ calls) = called s calls

  -- The actions of the queue one after the other, and the object that is called.
  unfoldable pub work_off : PortState → WsServer → List Action → PortState × WsServer
  unfolding perform connected disconnected
  work_off s ws [] = (s, ws)
  work_off s ws (a ∷ rest) =
      let (ws', calls) = perform ws a true in work_off (called s calls) ws' rest

  -- A connection opens when it is not there, and closes when it is.
  abbrev pub IsProper : List ℕ → List Action → Type 0
  IsProper conns [] = Unit
  IsProper conns (subscribe h ∷ rest) = (mem h conns ≡ false) × IsProper (insert h conns) rest
  IsProper conns (unsubscribe h ∷ rest) = (mem h conns ≡ true) × IsProper (erase h conns) rest
  IsProper conns (message h msg ∷ rest) = IsProper conns rest

  abbrev pub IsCounted : PortState → WsServer → Type 0
  IsCounted s ws = s.client_count ≡ pos (length ws.connections)

  connected-count :
      (s : PortState) (n k : ℕ)
      → s.client_count ≡ pos n
      → k ≡ n + 1
      → (connected A s).0.client_count ≡ pos k
  unfolding connected
  connected-count s n k e h = rw (e, h)

  disconnected-count :
      (s : PortState) (n k : ℕ)
      → s.client_count ≡ pos n
      → k + 1 ≡ n
      → (disconnected A s).0.client_count ≡ pos k
  unfolding disconnected
  disconnected-count s n k e h =
      let e' : n ≡ suc k = omega arith in
      let z : ltb (k + 0) 0 ≡ false = le→not-ltb (k + 0) 0 (omega arith) in rw (e, e', z)

  -- If the count of clients is the number of connections, it is so after any sequence of
  -- actions in which a connection opens only when it is not there and closes only when it is.
  pub work_off-IsCounted :
      (s : PortState) (ws : WsServer) (actions : List Action)
      → IsProper ws.connections actions
      → IsCounted s ws
      → let (s', ws') = work_off s ws actions in IsCounted s' ws'
  unfolding work_off
  work_off-IsCounted s ws [] proper e = e
  work_off-IsCounted s ws (subscribe h ∷ rest) proper e =
      work_off-IsCounted (connected A s).0 (record ws { connections = insert h ws.connections })
        rest proper.1
        (connected-count s (length ws.connections) _ e (length-insert h ws.connections proper.0))
  work_off-IsCounted s ws (unsubscribe h ∷ rest) proper e =
      work_off-IsCounted (disconnected A s).0 (record ws { connections = erase h ws.connections })
        rest proper.1
        (disconnected-count s (length ws.connections) _ e (length-erase h ws.connections proper.0))
  work_off-IsCounted s ws (message h msg ∷ rest) proper e = elim (Bool-cases msg.is_binary) [
    | inl b ↦ rw b (work_off-IsCounted s ws rest proper e)
    | inr b ↦ rw b (work_off-IsCounted s ws rest proper e)
  ]
