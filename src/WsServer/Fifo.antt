-- ===== src/WsServer/Fifo.antt =====
-- websocketServer.h: what the service thread calls for what the network thread has put in the queue.
use rcp_flext.Prelude.{
  ℕ, ◌≡◌, refl, Bool, true, false, not, ◌||◌, List, [], ◌∷◌, ◌++◌, if◌then◌else◌, Bool-cases, inl,
  inr, arith, append_assoc, append-nil, ◌∙◌, sym, ap,
}
use rcp_flext.WsServer.Defs.{
  Message, Action, subscribe, unsubscribe, message, Callback, connected, disconnected, printed,
  received, WsServer, push, on_open, on_close, on_message, perform, take_front, process_round,
}
use rcp_flext.WsServer.Order.{
  Event, opens, closes, sends, round, happen, happen_all, effects, effects-append, arrivals,
  arrivals-cons,
}

-- The calls for a list of actions, in their order; whether a message may be lost, because its
-- connection has ended.
pub data Served (may_lose : Bool) : List Action → List Callback → Type 0 where
  nothing : Served may_lose [] []
  came :
      {done : List Action} {cs : List Callback} (h : ℕ)
      → Served may_lose done cs
      → Served may_lose (subscribe h ∷ done) (connected ∷ cs)
  went :
      {done : List Action} {cs : List Callback} (h : ℕ)
      → Served may_lose done cs
      → Served may_lose (unsubscribe h ∷ done) (disconnected ∷ cs)
  shown :
      {done : List Action} {cs : List Callback} (h : ℕ) (msg : Message)
      → msg.is_binary ≡ false
      → Served may_lose done cs
      → Served may_lose (message h msg ∷ done) (printed ∷ cs)
  delivered :
      {done : List Action} {cs : List Callback} (h : ℕ) (msg : Message)
      → msg.is_binary ≡ true
      → Served may_lose done cs
      → Served may_lose (message h msg ∷ done) (received msg.payload h ∷ cs)
  lost :
      {done : List Action} {cs : List Callback} (h : ℕ) (msg : Message)
      → msg.is_binary ≡ true
      → may_lose ≡ true
      → Served may_lose done cs
      → Served may_lose (message h msg ∷ done) cs

-- Whether some round finds that the connection of its message has ended.
abbrev pub some_ended : List Event → Bool
some_ended [] = false
some_ended (round alive ∷ es) = not alive || some_ended es
some_ended (_ ∷ es) = some_ended es

serve_more :
    (b c : Bool) {done : List Action} {cs : List Callback}
    → (b ≡ true → c ≡ true)
    → Served b done cs
    → Served c done cs
serve_more b c h nothing = nothing
serve_more b c h (came n r) = came n (serve_more b c h r)
serve_more b c h (went n r) = went n (serve_more b c h r)
serve_more b c h (shown n msg e r) = shown n msg e (serve_more b c h r)
serve_more b c h (delivered n msg e r) = delivered n msg e (serve_more b c h r)
serve_more b c h (lost n msg e k r) = lost n msg e (h k) (serve_more b c h r)

serve_both :
    (b : Bool) {done done' : List Action} {cs cs' : List Callback}
    → Served b done cs
    → Served b done' cs'
    → Served b (done ++ done') (cs ++ cs')
serve_both b nothing s = s
serve_both b (came n r) s = came n (serve_both b r s)
serve_both b (went n r) s = went n (serve_both b r s)
serve_both b (shown n msg e r) s = shown n msg e (serve_both b r s)
serve_both b (delivered n msg e r) s = delivered n msg e (serve_both b r s)
serve_both b (lost n msg e k r) s = lost n msg e k (serve_both b r s)

-- From one state to a later one: what was worked off, and what is left.
pub record Run (s : WsServer) (es : List Event) (s' : WsServer) (calls : List Callback)
    : Type 0 where
  pub worked_off : List Action
  pub in_order : s.actions ++ arrivals es ≡ worked_off ++ s'.actions
  pub is_served : Served (some_ended es) worked_off calls
  pub settles : s'.connections ≡ effects s.connections worked_off

waits :
    (s : WsServer) (es : List Event) (a : Action)
    → arrivals es ≡ a ∷ []
    → some_ended es ≡ false
    → Run s es (push s a) []
unfolding push
waits s es a e f = record {
  worked_off = [];
  in_order = rw e refl;
  is_served = nothing;
  settles = refl;
}

one_round :
    (s : WsServer) (queue : List Action) (alive : Bool)
    → queue ≡ s.actions
    → Run s (round alive ∷ []) (take_front s queue alive).0 (take_front s queue alive).1
unfolding take_front perform
one_round s [] alive e = record {
  worked_off = [];
  in_order = append-nil s.actions;
  is_served = nothing;
  settles = refl;
}
one_round s (subscribe h ∷ rest) alive e = record {
  worked_off = subscribe h ∷ [];
  in_order = rw (append-nil, ← e) refl;
  is_served = came h nothing;
  settles = refl;
}
one_round s (unsubscribe h ∷ rest) alive e = record {
  worked_off = unsubscribe h ∷ [];
  in_order = rw (append-nil, ← e) refl;
  is_served = went h nothing;
  settles = refl;
}
one_round s (message h msg ∷ rest) alive e = elim (Bool-cases msg.is_binary) [
  | inr b ↦ rw b (record {
    worked_off = message h msg ∷ [];
    in_order = rw (append-nil, ← e) refl;
    is_served = shown h msg b nothing;
    settles = refl;
  })
  | inl b ↦ rw b (record {
    worked_off = message h msg ∷ [];
    in_order = rw (append-nil, ← e) refl;
    is_served = binary alive b;
    settles = refl;
  })
]
  where
    binary :
        (alive : Bool)
        → msg.is_binary ≡ true
        → Served
            (not alive || false)
            (message h msg ∷ [])
            (if alive then received msg.payload h ∷ [] else [])
    binary true b = delivered h msg b nothing
    binary false b = lost h msg b refl nothing

round_or_not :
    (s : WsServer) (alive b : Bool)
    → Run s
        (round alive ∷ [])
        (if b then take_front s s.actions alive else (s, [])).0
        (if b then take_front s s.actions alive else (s, [])).1
round_or_not s alive true = one_round s s.actions alive refl
round_or_not s alive false = record {
  worked_off = [];
  in_order = append-nil s.actions;
  is_served = nothing;
  settles = refl;
}

one_event : (s : WsServer) (e : Event) → Run s (e ∷ []) (happen s e).0 (happen s e).1
unfolding happen on_open on_close on_message process_round
one_event s (opens h) = waits s (opens h ∷ []) (subscribe h) refl refl
one_event s (closes h) = waits s (closes h ∷ []) (unsubscribe h) refl refl
one_event s (sends h msg) = waits s (sends h msg ∷ []) (message h msg) refl refl
one_event s (round alive) = round_or_not s alive s.run_flag

some_ended-cons :
    (e : Event) (es : List Event) → some_ended (e ∷ es) ≡ some_ended (e ∷ []) || some_ended es
some_ended-cons (opens h) es = refl
some_ended-cons (closes h) es = refl
some_ended-cons (sends h msg) es = refl
some_ended-cons (round alive) es = ground arith

then-Run :
    {s s' s'' : WsServer} {calls calls' : List Callback} (e : Event) (es : List Event)
    → Run s (e ∷ []) s' calls
    → Run s' es s'' calls'
    → Run s (e ∷ es) s'' (calls ++ calls')
then-Run e es r t = record {
  worked_off = r.worked_off ++ t.worked_off;
  in_order = rw (arrivals-cons e es) (
      sym (append_assoc _ (arrivals (e ∷ [])) (arrivals es))
      ∙ ap (λ l. l ++ arrivals es) r.in_order
      ∙ append_assoc r.worked_off _ (arrivals es)
      ∙ ap (λ l. r.worked_off ++ l) t.in_order
      ∙ sym (append_assoc r.worked_off t.worked_off _));
  is_served =
      serve_both (some_ended (e ∷ es))
        (serve_more (some_ended (e ∷ [])) (some_ended (e ∷ es))
          (λ h. ground (arith, some_ended-cons e es)) r.is_served)
        (serve_more (some_ended es) (some_ended (e ∷ es))
          (λ h. ground (arith, some_ended-cons e es)) t.is_served);
  settles = rw (effects-append, ← r.settles) t.settles;
}

-- In whatever order the events of the network and the rounds of the service thread come, the
-- actions come out of the queue in the order in which they were put in, none lost or doubled. For
-- each that came out, in that order, the service thread calls `connected`, `disconnected`, prints
-- the text or passes on the data; only data can be missing, and only if some round found that a
-- connection had ended. The connections are those to which these actions lead.
pub happen_all-Run :
    (s : WsServer) (es : List Event) → Run s es (happen_all s es).0 (happen_all s es).1
unfolding happen_all
happen_all-Run s [] = record {
  worked_off = [];
  in_order = append-nil s.actions;
  is_served = nothing;
  settles = refl;
}
happen_all-Run s (e ∷ es) = then-Run e es (one_event s e) (happen_all-Run (happen s e).0 es)
