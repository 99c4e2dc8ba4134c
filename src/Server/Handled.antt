-- ===== src/Server/Handled.antt =====
-- Each message to `rcp.server` is handled, one after the other.
use rcp_flext.Prelude.{
  ◌≡◌, ◌≢◌, refl, inl, inr, true, ℤ, List, [], ◌∷◌, ◌++◌, All, Option, none, some, ◌>>=◌,
  Option-cases, subst, Bool, false, if◌then◌else◌,
}
use rcp_flext.Flext.{Flext, Out}
use rcp_flext.Manager.{Manager}
use rcp_flext.Base.Closed.{Within, Managed}
use rcp_flext.Base.Messages.{IsReadable, asked}
use rcp_flext.Base.Readable.{updated_total}
use rcp_flext.Base.Handled.{receive_base_within}
use rcp_flext.Bytes.{Read, bytes, refused, raw_data, raw_data_lem}
use rcp_flext.Slip.Decoder.{created}
use rcp_flext.Server.Expose.{ServerLib}
use rcp_flext.Server.Library.{Exposing}
use rcp_flext.Server.Limits.{remove_parameter_list}
use rcp_flext.Server.Object.{Object, create_object}
use rcp_flext.Server.Registry.{IsRegistered, message-IsRegistered, create-IsRegistered}
use rcp_flext.Server.Messages.{
  ServerMessage, on_object, expose, remove_list, setreadonly, setorder, setmin, setmax, setminmax,
  remove, on_base, raw_list, on_raw, updated, value_updated, has_value, ServerState, on_parameters,
  receive_server, receive_all,
}
use rcp_flext.Server.Within.{
  expose_within, remove_within, on_found_within, readonly_within, order_within, min_within,
  max_within, min_max_within,
}

module _ (fx : Flext) (m : Manager fx) (lib : ServerLib fx m) {R : m.State → m.State → Type 0}
    (exposing : Exposing m lib R) (managed : Managed m R)
    (at_remove : (st : m.State) (i : ℤ) → R st (lib.remove_parameter_id st i).0) where
  open fx use {Atom}
  open m use {State, Param}
  open exposing use {values}
  open values use {stays}

  -- The parameters are related, and the transporters stay registered.
  abbrev pub Goes : ServerState fx m lib → ServerState fx m lib → Type 0
  Goes s s' = R s.parameters s'.parameters × (IsRegistered s.object → IsRegistered s'.object)

  on_parameters_within :
      (s : ServerState fx m lib) (r : Option (State × List (Out Atom)))
      → Within R s.parameters r
      → Within Goes s (on_parameters fx m lib s r)
  on_parameters_within s none w = w
  on_parameters_within s (some r) w = (w, λ k. k)

  -- A message has its value, and the library a good state when it calls back.
  abbrev pub Fits : State → ServerMessage Atom State Param → Type 0
  Fits st (updated st' p) = R st st' × IsReadable m st'
  Fits st (raw_list argv st') = R st st'
  Fits st x = has_value x ≡ true

  on_raw_within :
      (s : ServerState fx m lib) (st : State) (r : Read)
      → R s.parameters st
      → Within Goes s (some (on_raw fx m lib s st r))
  on_raw_within s st refused h = (stays s.parameters, λ k. k)
  on_raw_within s st (bytes []) h = (stays s.parameters, λ k. k)
  on_raw_within s st (bytes (b ∷ bs)) h = (h, λ k. k)

  raw_list_within :
      (s : ServerState fx m lib) (argv : List Atom) (st : State) (raw : Bool)
      → R s.parameters st
      → Within Goes s
          (if raw then (do r ← raw_data fx argv; some (on_raw fx m lib s st r)) else some (s, []))
  raw_list_within s argv st true h = rw (raw_data_lem fx argv) (on_raw_within s st _ h)
  raw_list_within s argv st false h = (stays s.parameters, λ k. k)

  updated_within :
      (st st' : State) (q : Option (List (Out Atom)))
      → q ≢ none
      → R st st'
      → Within R st (asked fx m st' q)
  updated_within st st' none h k = absurd (h refl)
  updated_within st st' (some outs) h k = k

  pub receive_server_within :
      (s : ServerState fx m lib) (x : ServerMessage Atom State Param)
      → IsReadable m s.parameters
      → Fits s.parameters x
      → Within Goes s (receive_server fx m lib s x)
  unfolding receive_server has_value remove_parameter_list value_updated
  receive_server_within s (on_object x) readable h =
      (stays s.parameters, message-IsRegistered Atom s.object x)
  receive_server_within s (expose argv) readable h =
      on_parameters_within s _ (expose_within fx m lib exposing at_remove s.parameters argv)
  receive_server_within s (remove_list argv) readable h = (
    on_found_within fx m lib exposing at_remove s.parameters _ _
        (λ p. remove_within fx m lib exposing at_remove s.parameters _),
    λ k. k,
  )
  receive_server_within s (remove i) readable h =
      (remove_within fx m lib exposing at_remove s.parameters i, λ k. k)
  receive_server_within s (setreadonly []) readable h = cc
  receive_server_within s (setreadonly (a ∷ l)) readable h =
      on_parameters_within s _ (readonly_within fx m lib exposing at_remove s.parameters a l)
  receive_server_within s (setorder []) readable h = cc
  receive_server_within s (setorder (a ∷ l)) readable h =
      on_parameters_within s _ (order_within fx m lib exposing at_remove s.parameters a l)
  receive_server_within s (setmin argv) readable h =
      on_parameters_within s _ (min_within fx m lib exposing at_remove s.parameters argv)
  receive_server_within s (setmax argv) readable h =
      on_parameters_within s _ (max_within fx m lib exposing at_remove s.parameters argv)
  receive_server_within s (setminmax argv) readable h =
      on_parameters_within s _ (min_max_within fx m lib exposing at_remove s.parameters argv)
  receive_server_within s (on_base msg) readable h =
      on_parameters_within s _ (receive_base_within fx m managed s.parameters readable msg h)
  receive_server_within s (raw_list argv st) readable h =
      raw_list_within s argv st s.object.port.raw h
  receive_server_within s (updated st p) readable h =
      on_parameters_within s _ (updated_within s.parameters st _ (updated_total fx m st h.1 p) h.0)

-- What holds of the library's states and is kept by all that the object calls.
pub record Sound {fx : Flext} (m : Manager fx) (lib : ServerLib fx m) (P : m.State → Type 0)
    : Type 0 where
  pub readable : (st : m.State) → P st → IsReadable m st
  pub exposing : Exposing m lib (λ st st'. P st → P st')
  pub managed : Managed m (λ st st'. P st → P st')
  pub at_remove : (st : m.State) (i : ℤ) → P st → P (lib.remove_parameter_id st i).0

module _ (fx : Flext) (m : Manager fx) (lib : ServerLib fx m) {P : m.State → Type 0}
    (sound : Sound m lib P) where
  open sound use {readable, exposing, managed, at_remove}

  -- A message has its value, and the library calls back in a state with the property.
  abbrev pub IsFit : ServerMessage fx.Atom m.State m.Param → Type 0
  IsFit (updated st p) = P st
  IsFit (raw_list argv st) = P st
  IsFit x = has_value x ≡ true

  IsFit-Fits :
      (st : m.State) (x : ServerMessage fx.Atom m.State m.Param)
      → IsFit x
      → Fits fx m lib exposing managed at_remove st x
  IsFit-Fits st (updated st' p) h = (λ k. h, readable st' h)
  IsFit-Fits st (raw_list argv st') h = λ k. h
  IsFit-Fits st (on_object x) h = h
  IsFit-Fits st (on_base msg) h = h
  IsFit-Fits st _ h = h

  -- The result of a run, in which the library and the transporters are as they should be.
  abbrev pub IsRun : Option (ServerState fx m lib × List (Out fx.Atom)) → Type 0
  IsRun none = ¬ Unit
  IsRun (some (s, outs)) = P s.parameters × IsRegistered s.object

  then-IsRun :
      (outs : List (Out fx.Atom)) (r : Option (ServerState fx m lib × List (Out fx.Atom)))
      → IsRun r
      → IsRun (do (s, more) ← r; some (s, outs ++ more))
  then-IsRun outs none h = h
  then-IsRun outs (some r) h = h

  receive_all-IsRun :
      (s : ServerState fx m lib) (xs : List (ServerMessage fx.Atom m.State m.Param))
      → All IsFit xs
      → P s.parameters
      → IsRegistered s.object
      → IsRun (receive_all fx m lib s xs)
  unfolding receive_all
  receive_all-IsRun s [] h p k = (p, k)
  receive_all-IsRun s (x ∷ xs) h p k = elim (Option-cases (receive_server fx m lib s x)) [
    | inl e ↦ absurd (subst (Within (Goes fx m lib exposing managed at_remove) s) e w tt)
    | inr (r, e) ↦
        let g = subst (Within (Goes fx m lib exposing managed at_remove) s) e w in
        rw e (then-IsRun r.1 _ (receive_all-IsRun r.0 xs h.1 (g.0 p) (g.1 k)))
  ]
    where
      w : Within (Goes fx m lib exposing managed at_remove) s (receive_server fx m lib s x)
      w =
          receive_server_within fx m lib exposing managed at_remove s x (readable s.parameters p)
            (IsFit-Fits s.parameters x h.0)

  -- After the constructor, any sequence of messages to rcp.server, of clients that come or go,
  -- of reports to the rabbithole transporter, of lists at the inlet for raw data, and of
  -- callbacks of the library for a parameter that a client has set, is handled to its end
  -- without a read or write out of bounds. Then the rcp server has exactly the transporters
  -- that the object holds. Given that a list has two atoms at least, and `setreadonly`,
  -- `setorder` and any word that is in no table have one, and that a property of the library's
  -- states, which the library's calls keep, holds before and makes the parameters a tree no
  -- deeper than they are many, with parameters of the four value types as value parameters and
  -- no text or label a null pointer, also in the states in which the library calls back and in
  -- those that it makes of raw data; the property holds after too.
  pub receive_all_total :
      (argv : List fx.Atom) (o : Object) (st : m.State)
      (xs : List (ServerMessage fx.Atom m.State m.Param))
      → create_object fx true argv ≡ created o
      → P st
      → All IsFit xs
      → IsRun (receive_all fx m lib (record { object = o; parameters = st }) xs)
  receive_all_total argv o st xs e p h =
      receive_all-IsRun (record { object = o; parameters = st }) xs h p
        (create-IsRegistered fx argv o e)
