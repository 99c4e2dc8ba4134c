-- ===== src/WsClient/Defs.antt =====
-- websocketClient.cpp and websocketClient.h: the two connection pointers, and the handlers. The
-- connections themselves belong to websocketpp (a git submodule): one is named by a number, and what
-- websocketpp says of it is an argument.
use rcp_flext.Prelude.{
  ℕ, ◌+◌, Bool, true, false, not, Text, text, has_prefix, List, [], ◌∷◌, Option, none, some, ◌==◌,
  if◌then◌else◌, wrap, pos,
}
use rcp_flext.WsServer.Sets.{mem}

-- `deaf` are the connections whose open, fail and message handlers were cleared, `closing` those that
-- were asked to close, `made` counts the connections that were made.
pub record WsClient : Type 0 where
  pub con : Option ℕ
  pub ssl_con : Option ℕ
  pub deaf : List ℕ
  pub closing : List ℕ
  pub made : ℕ

abbrev pub new_client : WsClient
new_client = record { con = none; ssl_con = none; deaf = []; closing = []; made = 0 }

-- What websocketpp answers to one call of `connect`: whether the program has TLS, and whether
-- get_connection makes a connection. An exception of its `connect` is only printed.
pub record Setup : Type 0 where
  pub has_ssl : Bool
  pub is_made : Bool

-- One of the two blocks of `disconnect`: the handlers are cleared, and an open connection is asked
-- to close; `is_open` is get_state() == open.
abbrev pub give_up : Option ℕ → List ℕ → List ℕ
give_up none deaf = deaf
give_up (some n) deaf = n ∷ deaf

abbrev pub close_if : (ℕ → Bool) → Option ℕ → List ℕ → List ℕ
close_if is_open none closing = closing
close_if is_open (some n) closing = if is_open n then n ∷ closing else closing

unfoldable pub disconnect : (ℕ → Bool) → WsClient → WsClient
disconnect is_open c = record {
  con = none;
  ssl_con = none;
  deaf = give_up c.con (give_up c.ssl_con c.deaf);
  closing = close_if is_open c.con (close_if is_open c.ssl_con c.closing);
  made = c.made;
}

-- The connection that get_connection gives, or nothing.
abbrev pub make_con : Bool → WsClient → WsClient
make_con true c = record c { con = some c.made; made = c.made + 1 }
make_con false c = c

abbrev pub make_ssl_con : Bool → WsClient → WsClient
make_ssl_con true c = record c { ssl_con = some c.made; made = c.made + 1 }
make_ssl_con false c = c

abbrev pub is_no_uri : Text → Bool
is_no_uri [] = true
is_no_uri (a ∷ l) = false

unfoldable pub connect : (ℕ → Bool) → Setup → Text → WsClient → WsClient
unfolding disconnect
connect is_open setup uri c =
    let c' = disconnect is_open c in
    if is_no_uri uri
    then c'
    else (if not (has_prefix (text "ws") uri)
        then c'
        else (if has_prefix (text "wss") uri
            then (if setup.has_ssl then make_ssl_con setup.is_made c' else c')
            else make_con setup.is_made c'))

unfoldable pub is_open_client : (ℕ → Bool) → WsClient → Bool
is_open_client is_open c = elim c.ssl_con [
  | some n ↦ is_open n
  | none ↦ elim c.con [ some n ↦ is_open n | none ↦ false ]
]

-- The connections that `send` passes the data to.
unfoldable pub send : WsClient → List ℕ
send c =
    let plain : List ℕ = elim c.con [ some n ↦ n ∷ [] | none ↦ [] ] in
    elim c.ssl_con [ some n ↦ n ∷ plain | none ↦ plain ]

-- What websocketpp reports of a connection, with the code of the response or of the remote close.
pub data Report : Type 0 where
  opened : ℕ → Report
  failed closed : ℕ → ℕ → Report
  got_bytes got_text : ℕ → List ℕ → Report

-- The calls of IWebsocketClientListener.
pub data Callback : Type 0 where
  connected : Callback
  on_failed on_disconnected : ℕ → Callback
  received received_text : List ℕ → Callback

abbrev pub is_it : Option ℕ → ℕ → Bool
is_it none n = false
is_it (some k) n = k == n

-- `_getResponseCode` and `_getCloseCode`, as an `uint16_t`.
unfoldable pub code_of : WsClient → ℕ → ℕ → ℕ
code_of c n code =
    if is_it c.con n
    then wrap 65536 (pos code)
    else (if is_it c.ssl_con n then wrap 65536 (pos code) else 0)

-- on_open, on_fail, on_close and on_message, where the handler is set.
unfoldable pub handle : WsClient → Report → List Callback
unfolding code_of
handle c (opened n) = if mem n c.deaf then [] else connected ∷ []
handle c (failed n code) = if mem n c.deaf then [] else on_failed (code_of c n code) ∷ []
handle c (closed n code) = on_disconnected (code_of c n code) ∷ []
handle c (got_bytes n bs) = if mem n c.deaf then [] else received bs ∷ []
handle c (got_text n t) = if mem n c.deaf then [] else received_text t ∷ []
