-- ===== src/Client/Handled.antt =====
-- Each message to `rcp.client` is handled, one after the other.
use rcp_flext.Prelude.{
  ℕ, ◌≡◌, ◌≢◌, refl, Bool, true, false, Text, List, [], ◌∷◌, ◌++◌, All, Option, none, some, ◌>>=◌,
  Option-cases, inl, inr, subst, if◌then◌else◌, not, ◌&&◌, arith,
}
use rcp_flext.Flext.{Flext, Out}
use rcp_flext.Manager.{Manager}
use rcp_flext.Base.Closed.{Within, Managed}
use rcp_flext.Base.Messages.{IsReadable, asked, rounds_of}
use rcp_flext.Base.Readable.{groups_around, updated_total}
use rcp_flext.Client.Reports.{parameter_added_total, parameter_removed_total}
use rcp_flext.Base.Handled.{receive_base_within}
use rcp_flext.WsClient.Defs.{WsClient, new_client, Setup}
use rcp_flext.WsClient.Single.{
  IsSingle, connects, disconnects, call, call-IsSingle, new_client-IsSingle,
}
use rcp_flext.Bytes.{Read, bytes, refused, raw_data, raw_data_lem}
use rcp_flext.Client.Object.{ClientObject, create_client, m_open, m_close}
use rcp_flext.Client.Stale.{quiet_report, allowed, after, is_timely, both}
use rcp_flext.Client.Messages.{
  looks_up, on_raw, raw_list, new_object, ClientMessage, open_to, close, reported, on_base, Called,
  added, removed, updated, called_back, call_back, is_complete, Effects, ClientState, on_parameters,
  receive_client, receive_client_all,
}

-- One connection at most, and none for raw data.
pub record IsClient (o : ClientObject) : Type 0 where
  pub single : IsSingle o.client
  pub no_connection : o.raw ≡ true → o.client ≡ new_client

module _ (fx : Flext) where
  create_client-IsClient : (argv : List fx.Atom) → IsClient (create_client fx argv)
  unfolding create_client
  create_client-IsClient argv = record { single = new_client-IsSingle; no_connection = λ e. refl }

  changed-IsClient :
      (o : ClientObject) (c : WsClient) (raw : Bool)
      → o.raw ≡ raw
      → IsClient o
      → IsSingle c
      → IsClient (if raw then o else record o { client = c })
  changed-IsClient o c true e k s = k
  changed-IsClient o c false e k s = record { single = s; no_connection = λ raw. cc }

  m_open-IsClient :
      (is_open : ℕ → Bool) (setup : Setup) (address : Text) (o : ClientObject)
      → IsClient o
      → IsClient (m_open fx is_open setup address o)
  unfolding m_open call
  m_open-IsClient is_open setup address o k =
      changed-IsClient o _ o.raw refl k
        (call-IsSingle o.client (connects is_open setup address) k.single)

  m_close-IsClient :
      (is_open : ℕ → Bool) (o : ClientObject) → IsClient o → IsClient (m_close fx is_open o)
  unfolding m_close call
  m_close-IsClient is_open o k =
      changed-IsClient o _ o.raw refl k (call-IsSingle o.client (disconnects is_open) k.single)

call_back_total :
    (fx : Flext) (m : Manager fx) (st : m.State)
    → IsReadable m st
    → (c : Called m.Param) → call_back fx m st c ≢ none
unfolding call_back
call_back_total fx m st readable (added p) =
    let (groups, around) = groups_around fx m st readable p in
    parameter_added_total fx m st (rounds_of fx m st) p groups around
call_back_total fx m st readable (removed p) =
    let (groups, around) = groups_around fx m st readable p in
    parameter_removed_total fx m st (rounds_of fx m st) p groups around
call_back_total fx m st readable (updated p) = updated_total fx m st readable p

module _ (fx : Flext) (m : Manager fx) {P : m.State → Type 0}
    (readable : (st : m.State) → P st → IsReadable m st)
    (managed : Managed m (λ st st'. P st → P st')) where
  -- The result of a run, in which the library and the connection are as they should be.
  abbrev pub IsServed : Option (ClientState fx m × Effects fx.Atom) → Type 0
  IsServed none = ¬ Unit
  IsServed (some (s, effects)) = P s.parameters × IsClient s.object

  -- The manager is the library's unless a connection was lost.
  abbrev IsStep : Bool → Option (ClientState fx m × Effects fx.Atom) → Type 0
  IsStep lost none = ¬ Unit
  IsStep lost (some (s, effects)) =
      P s.parameters × IsClient s.object × (lost ≡ false → s.is_current ≡ true)

  IsStep-IsServed :
      (lost : Bool) (r : Option (ClientState fx m × Effects fx.Atom)) → IsStep lost r → IsServed r
  IsStep-IsServed lost none h = h
  IsStep-IsServed lost (some r) h = (h.0, h.1)

  on_parameters-IsStep :
      (lost : Bool) (s : ClientState fx m) (r : Option (m.State × List (Out fx.Atom)))
      → Within (λ st st'. P st → P st') s.parameters r
      → IsStep lost (some (s, ([], [])))
      → IsStep lost (on_parameters fx m s r)
  on_parameters-IsStep lost s none w k = w
  on_parameters-IsStep lost s (some r) w k = (w k.0, k.1, k.2)

  -- A callback of the library, whose report is written.
  called-IsStep :
      (lost : Bool) (s : ClientState fx m) (st : m.State) (q : Option (List (Out fx.Atom)))
      → q ≢ none
      → P st
      → IsStep lost (some (s, ([], [])))
      → IsStep lost (on_parameters fx m s (asked fx m st q))
  called-IsStep lost s st none h p k = absurd (h refl)
  called-IsStep lost s st (some outs) h p k = (p, k.1, k.2)

  on_raw-IsStep :
      (lost : Bool) (s : ClientState fx m) (st : m.State) (r : Read)
      → P st
      → IsStep lost (some (s, ([], [])))
      → IsStep lost (some (on_raw fx m s st r))
  on_raw-IsStep lost s st refused p k = k
  on_raw-IsStep lost s st (bytes []) p k = k
  on_raw-IsStep lost s st (bytes (b ∷ bs)) p k = (p, k.1, k.2)

  raw_list-IsStep :
      (lost : Bool) (s : ClientState fx m) (argv : List fx.Atom) (st : m.State) (raw : Bool)
      → P st
      → IsStep lost (some (s, ([], [])))
      → IsStep lost
          (if raw then (do r ← raw_data fx argv; some (on_raw fx m s st r)) else some (s, ([], [])))
  raw_list-IsStep lost s argv st true p k =
      rw (raw_data_lem fx argv) (on_raw-IsStep lost s st _ p k)
  raw_list-IsStep lost s argv st false p k = k

  -- A message has its arguments, and the library calls back in a state with the property, and
  -- makes such a state of raw data.
  abbrev pub IsFit : ClientMessage fx.Atom m.State m.Param → Type 0
  IsFit (called_back st c) = P st
  IsFit (raw_list argv st) = P st
  IsFit x = is_complete x ≡ true

  not_stale :
      (lost current looks : Bool)
      → (lost ≡ false → current ≡ true)
      → not (lost && looks) ≡ true
      → not current && looks ≡ false
  not_stale lost current looks h k = ground (arith, h)

  receive_client-IsStep :
      (recreates lost : Bool) (s : ClientState fx m) (x : ClientMessage fx.Atom m.State m.Param)
      → IsFit x
      → allowed fx m lost x ≡ true
      → IsStep lost (some (s, ([], [])))
      → IsStep (after fx m recreates lost x) (receive_client fx m recreates s x)
  unfolding receive_client is_complete
  receive_client-IsStep recreates lost s (open_to is_open setup address) h a (p, k, c) =
      (p, m_open-IsClient fx is_open setup address s.object k, c)
  receive_client-IsStep recreates lost s (close is_open) h a (p, k, c) =
      (p, m_close-IsClient fx is_open s.object k, c)
  receive_client-IsStep recreates lost s (reported r) h a (p, k, c) =
      (p, k, λ e. ground (arith, c, quiet_report fx m s.object r))
  receive_client-IsStep recreates lost s (on_base msg) h a (p, k, c) =
      rw (not_stale lost s.is_current (looks_up fx m msg) c a) (
        on_parameters-IsStep lost s _
          (receive_base_within fx m managed s.parameters (readable s.parameters p) msg h) (p, k, c))
  receive_client-IsStep recreates lost s (raw_list argv st) h a k =
      raw_list-IsStep lost s argv st s.object.raw h k
  receive_client-IsStep recreates lost s (called_back st c) h a k =
      called-IsStep lost s st _ (call_back_total fx m st (readable st h) c) h k

  then-IsServed :
      (told : Effects fx.Atom) (r : Option (ClientState fx m × Effects fx.Atom))
      → IsServed r
      → IsServed (do (s, (more, later)) ← r; some (s, (told.0 ++ more, told.1 ++ later)))
  then-IsServed told none h = h
  then-IsServed told (some r) h = h

  receive_client_all-IsServed :
      (recreates lost : Bool) (s : ClientState fx m)
      (xs : List (ClientMessage fx.Atom m.State m.Param))
      → All IsFit xs
      → is_timely fx m recreates lost xs ≡ true
      → IsStep lost (some (s, ([], [])))
      → IsServed (receive_client_all fx m recreates s xs)
  unfolding receive_client_all
  receive_client_all-IsServed recreates lost s [] h t k = (k.0, k.1)
  receive_client_all-IsServed recreates lost s (x ∷ xs) h t k =
      let (a, later) = both (allowed fx m lost x) _ t in
      let w = receive_client-IsStep recreates lost s x h.0 a k in
      let lost' = after fx m recreates lost x in
      elim (Option-cases (receive_client fx m recreates s x)) [
        | inl e ↦ absurd (subst (IsStep lost') e w tt)
        | inr (r, e) ↦
            let g = subst (IsStep lost') e w in
            rw e
              (then-IsServed r.1 _ (receive_client_all-IsServed recreates lost' r.0 xs h.1 later g))
      ]

  -- After the constructor, any sequence of messages to rcp.client, of reports of its
  -- connections, of lists at the inlet for raw data, and of callbacks of the library for a
  -- parameter that comes, goes or changes is handled to its end without a read or write out of
  -- bounds. Then one of the two connection pointers is null, every connection that was made and
  -- is not in use has its handlers cleared, and an object for raw data never made a connection.
  -- Given that a list has two atoms at least and any word that is in no table has one; that,
  -- where the library makes a new manager when a connection is lost, no parameter is looked up
  -- after a connection has failed or closed; and that a property of the library's states, which
  -- the library's calls keep, holds before and makes the parameters a tree no deeper than they
  -- are many, with parameters of the four value types as value parameters and no text or label
  -- a null pointer, also in the states in which the library calls back and in those that it
  -- makes of raw data; the property holds after too.
  pub receive_client_all_total :
      (recreates : Bool) (argv : List fx.Atom) (st : m.State)
      (xs : List (ClientMessage fx.Atom m.State m.Param))
      → P st
      → All IsFit xs
      → is_timely fx m recreates false xs ≡ true
      → IsServed (receive_client_all fx m recreates (new_object fx m argv st) xs)
  receive_client_all_total recreates argv st xs p h t =
      receive_client_all-IsServed recreates false (new_object fx m argv st) xs h t
        (p, create_client-IsClient fx argv, λ e. refl)
