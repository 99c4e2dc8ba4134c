-- ===== src/Client/Stale.antt =====
-- The manager that `rcp.client` goes on using when a connection is lost.
use rcp_flext.Prelude.{
  ◌≡◌, refl, Bool, true, false, not, ◌&&◌, ◌||◌, List, [], ◌∷◌, ◌++◌, Option, none, some, ◌>>=◌,
  arith, if◌then◌else◌, inl, inr, Option-cases, subst,
}
use rcp_flext.Flext.{Flext, Out}
use rcp_flext.Bytes.{Read, bytes, refused, raw_data, raw_data_lem}
use rcp_flext.Manager.{Manager}
use rcp_flext.Base.Messages.{BaseMessage, receive_base}
use rcp_flext.WsClient.Defs.{Report, opened, failed, closed, got_bytes, got_text, handle}
use rcp_flext.Client.Object.{ClientObject, on_report, on_callback}
use rcp_flext.Client.Messages.{
  ClientMessage, open_to, close, reported, on_base, raw_list, called_back, looks_up, tells_lost,
  told, ClientState, Effects, receive_client, receive_client_all, on_parameters, on_raw,
}

-- The reports of a connection that fails or closes.
abbrev pub loses : Report → Bool
loses (opened n) = false
loses (failed n code) = true
loses (closed n code) = true
loses (got_bytes n bs) = false
loses (got_text n t) = false

pub both : (a b : Bool) → a && b ≡ true → (a ≡ true) × (b ≡ true)
both a b h = ground arith

module _ (fx : Flext) (m : Manager fx) where
  pub quiet_report :
      (o : ClientObject) (r : Report) → loses r ≡ false → tells_lost (told fx m o r).0 ≡ false
  unfolding on_report on_callback handle
  quiet_report o (opened n) h = ground arith
  quiet_report o (failed n code) h = cc
  quiet_report o (closed n code) h = cc
  quiet_report o (got_bytes n bs) h = ground arith
  quiet_report o (got_text n t) h = ground arith

  -- A message that may come when a connection was lost, or was not.
  abbrev pub allowed : Bool → ClientMessage fx.Atom m.State m.Param → Bool
  allowed lost (on_base msg) = not (lost && looks_up fx m msg)
  allowed lost _ = true

  -- Whether a connection was lost, after a message, where that makes the library re-create its manager.
  abbrev pub after : Bool → Bool → ClientMessage fx.Atom m.State m.Param → Bool
  after recreates lost (reported r) = lost || (recreates && loses r)
  after recreates lost _ = lost

  -- Where the library re-creates its manager, nothing is looked up any more once a connection has
  -- failed or closed.
  abbrev pub is_timely : Bool → Bool → List (ClientMessage fx.Atom m.State m.Param) → Bool
  is_timely recreates lost [] = true
  is_timely recreates lost (x ∷ xs) =
      allowed lost x && is_timely recreates (after recreates lost x) xs

  -- A result that is none, or in which the manager is the freed one.
  abbrev IsStale : Option (ClientState fx m × Effects fx.Atom) → Type 0
  IsStale none = Unit
  IsStale (some (s, effects)) = s.is_current ≡ false

  on_parameters-IsStale :
      (s : ClientState fx m) (r : Option (m.State × List (Out fx.Atom)))
      → s.is_current ≡ false
      → IsStale (on_parameters fx m s r)
  on_parameters-IsStale s none h = tt
  on_parameters-IsStale s (some r) h = h

  on_raw-IsStale :
      (s : ClientState fx m) (st : m.State) (r : Read)
      → s.is_current ≡ false
      → IsStale (some (on_raw fx m s st r))
  on_raw-IsStale s st refused h = h
  on_raw-IsStale s st (bytes []) h = h
  on_raw-IsStale s st (bytes (b ∷ bs)) h = h

  raw_list-IsStale :
      (s : ClientState fx m) (argv : List fx.Atom) (st : m.State) (raw : Bool)
      → s.is_current ≡ false
      → IsStale
          (if raw then (do r ← raw_data fx argv; some (on_raw fx m s st r)) else some (s, ([], [])))
  raw_list-IsStale s argv st true h = rw (raw_data_lem fx argv) (on_raw-IsStale s st _ h)
  raw_list-IsStale s argv st false h = h

  on_base-IsStale :
      (s : ClientState fx m) (msg : BaseMessage fx.Atom) (b : Bool)
      → s.is_current ≡ false
      → IsStale (if b then none else on_parameters fx m s (receive_base fx m s.parameters msg))
  on_base-IsStale s msg true h = tt
  on_base-IsStale s msg false h = on_parameters-IsStale s _ h

  -- Nothing brings the manager back.
  receive_client-IsStale :
      (recreates : Bool) (s : ClientState fx m) (x : ClientMessage fx.Atom m.State m.Param)
      → s.is_current ≡ false
      → IsStale (receive_client fx m recreates s x)
  unfolding receive_client
  receive_client-IsStale recreates s (open_to is_open setup address) h = h
  receive_client-IsStale recreates s (close is_open) h = h
  receive_client-IsStale recreates s (reported r) h = ground (arith, h)
  receive_client-IsStale recreates s (on_base msg) h =
      on_base-IsStale s msg (not s.is_current && looks_up fx m msg) h
  receive_client-IsStale recreates s (raw_list argv st) h =
      raw_list-IsStale s argv st s.object.raw h
  receive_client-IsStale recreates s (called_back st c) h = on_parameters-IsStale s _ h

  reads_freed :
      (recreates : Bool) (s : ClientState fx m) (msg : BaseMessage fx.Atom)
      → s.is_current ≡ false
      → looks_up fx m msg ≡ true
      → receive_client fx m recreates s (on_base msg) ≡ none
  unfolding receive_client
  reads_freed recreates s msg h k = rw (receive_client, h, k) refl

  stale_run :
      (recreates : Bool) (s : ClientState fx m)
      (xs ys : List (ClientMessage fx.Atom m.State m.Param)) (msg : BaseMessage fx.Atom)
      → s.is_current ≡ false
      → looks_up fx m msg ≡ true
      → receive_client_all fx m recreates s (xs ++ on_base msg ∷ ys) ≡ none
  unfolding receive_client_all
  stale_run recreates s [] ys msg h k = rw (reads_freed recreates s msg h k) refl
  stale_run recreates s (x ∷ xs) ys msg h k =
      elim (Option-cases (receive_client fx m recreates s x)) [
        | inl e ↦ rw e refl
        | inr (r, e) ↦
            let stale = subst IsStale e (receive_client-IsStale recreates s x h) in
            rw (e, stale_run recreates r.0 xs ys msg stale k) refl
      ]

  -- Once the library has been told that a connection is lost, and has made a new manager, any
  -- later message that looks a parameter up reads the freed manager, whatever comes in between,
  -- also when the object has connected again.
  pub receive_client_all_faults :
      (s : ClientState fx m) (r : Report) (xs ys : List (ClientMessage fx.Atom m.State m.Param))
      (msg : BaseMessage fx.Atom)
      → tells_lost (told fx m s.object r).0 ≡ true
      → looks_up fx m msg ≡ true
      → receive_client_all fx m true s (reported r ∷ (xs ++ on_base msg ∷ ys)) ≡ none
  unfolding receive_client_all receive_client
  receive_client_all_faults s r xs ys msg lost k =
      let s' : ClientState fx m = record s {
        is_current = s.is_current && not (tells_lost (told fx m s.object r).0);
      } in
      rw (stale_run true s' xs ys msg (ground (arith, lost)) k) refl
