-- ===== src/Server/Rabbithole.antt =====
-- RabbitholeServerTransporter.cpp: the connection to a rabbithole, and its reconnect timer. The
-- websocket client and the timer (flext) are asked by the `Ask`s of a call, in their order.
use rcp_flext.Prelude.{
  ℕ, Bool, true, false, ◌&&◌, ◌||◌, not, ℤ, pos, ltb_ℤ, leb_ℤ, Text, text, has_prefix, List, [],
  ◌∷◌, ◌++◌, drop, if◌then◌else◌, ◌==◌,
}

-- What a call asks for: a connection, a disconnection, a delay of the timer, a reset of it, a line on
-- the console by `error` or `post`, one on the standard output.
pub data Ask : Type 0 where
  connect_to : Text → Ask
  disconnect reset_timer failure notice unhandled : Ask
  delay : ℤ → Ask

pub record Rabbithole : Type 0 where
  pub uri : Text
  pub interval : ℤ
  pub do_try_connect : Bool
  pub one_time_error : Bool

-- `m_uri.find(t) != npos`
pub contains : Text → Text → Bool
contains t [] = has_prefix t []
contains t (c ∷ s) = has_prefix t (c ∷ s) || contains t s

abbrev pub is_empty : Text → Bool
is_empty [] = true
is_empty (c ∷ s) = false

unfoldable pub try_connect : Rabbithole → Rabbithole × List Ask
try_connect r =
    (r, (if ltb_ℤ (pos 0) r.interval && not (is_empty r.uri) then delay r.interval ∷ [] else []))

abbrev pub retry : Rabbithole → Rabbithole × List Ask
retry r = if r.do_try_connect then try_connect r else (r, [])

unfoldable pub unbind : Rabbithole → Rabbithole × List Ask
unbind r = (record r { do_try_connect = false }, reset_timer ∷ disconnect ∷ [])

unfoldable pub connected : Rabbithole → Rabbithole × List Ask
connected r = (record r { one_time_error = true }, [])

-- The `switch` on the code.
abbrev pub report : ℕ → Ask
report code = if (code == 400) || (code == 412) || (code == 423) then failure else unhandled

unfoldable pub failed : Rabbithole → ℕ → Rabbithole × List Ask
unfolding try_connect
failed r code =
    if not (code == 200) && r.one_time_error
    then (let (r', asks) = retry (record r { one_time_error = false }) in (r', report code ∷ asks))
    else retry r

unfoldable pub disconnected : Rabbithole → ℕ → Rabbithole × List Ask
unfolding try_connect
disconnected r code =
    let (r', asks) = retry r in
    if (code == 4500) && contains (text "/public/rcpserver/connect") r.uri
    then (r', notice ∷ asks)
    else (r', asks)

unfoldable pub rewrite_uri : Text → Text
rewrite_uri uri =
    if has_prefix (text "https") uri
    then text "wss" ++ drop 5 uri
    else (if has_prefix (text "http") uri then text "ws" ++ drop 4 uri else uri)

unfoldable pub connect : Rabbithole → Text → Rabbithole × List Ask
unfolding rewrite_uri
connect r uri =
    let target = rewrite_uri uri in
    let r' : Rabbithole = record r { uri = target } in
    if has_prefix (text "ws") target
    then (record r' { do_try_connect = true; one_time_error = true }, connect_to target ∷ [])
    else (r', [])

unfoldable pub set_interval : Rabbithole → ℤ → Rabbithole × List Ask
unfolding try_connect
set_interval r i =
    let start_after = ltb_ℤ (pos 0) r.interval in
    let r' : Rabbithole = record r { interval = i } in
    let asks = (if start_after then (try_connect r').1 else []) in
    (r', asks ++ (if leb_ℤ i (pos 0) then disconnect ∷ [] else []))

unfoldable pub try_connect_timer_timeout : Rabbithole → Rabbithole × List Ask
try_connect_timer_timeout r = (r, (if is_empty r.uri then [] else connect_to r.uri ∷ []))

-- The constructor; the flags' first values stand in the header.
abbrev pub new_rabbithole : Rabbithole
new_rabbithole = record {
  uri = [];
  interval = pos 2;
  do_try_connect = false;
  one_time_error = true;
}

-- What can happen to a transporter.
pub data Event : Type 0 where
  connects : Text → Event
  opened timer_fires : Event
  fails closes : ℕ → Event
  sets_interval : ℤ → Event

unfoldable pub happen : Rabbithole → Event → Rabbithole × List Ask
unfolding connect connected failed disconnected set_interval try_connect_timer_timeout
happen r (connects uri) = connect r uri
happen r opened = connected r
happen r timer_fires = try_connect_timer_timeout r
happen r (fails code) = failed r code
happen r (closes code) = disconnected r code
happen r (sets_interval i) = set_interval r i

unfoldable pub happen_all : Rabbithole → List Event → Rabbithole × List Ask
unfolding happen
happen_all r [] = (r, [])
happen_all r (e ∷ es) =
    let (r', asks) = happen r e in let (r'', more) = happen_all r' es in (r'', asks ++ more)
