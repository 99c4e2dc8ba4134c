-- ===== src/Server/Faults.antt =====
-- Which messages of the table of ParameterServer.h read beyond their arguments.
use rcp_flext.Prelude.{
  ◌≡◌, refl, ◌↔◌, Bool, true, false, List, [], ◌∷◌, Option, none, some, Bool-cases, inl, inr,
}
use rcp_flext.Flext.{Flext, Out}
use rcp_flext.Manager.{Manager}
use rcp_flext.Base.Closed.{Within}
use rcp_flext.Bytes.{raw_data_lem}
use rcp_flext.Server.Expose.{ServerLib}
use rcp_flext.Server.Library.{Exposing}
use rcp_flext.Server.Limits.{parameter_set_readonly, parameter_set_order}
use rcp_flext.Server.Within.{
  expose_within, readonly_within, order_within, min_within, max_within, min_max_within,
}
use rcp_flext.Server.Messages.{
  ServerMessage, on_object, expose, remove_list, setreadonly, setorder, setmin, setmax, setminmax,
  remove, on_base, raw_list, updated, has_value, ServerState, on_parameters, receive_server,
}

-- The messages of the server's own table, and what concerns its transporters and raw data.
abbrev pub is_own : {A S P : Type 0} → ServerMessage A S P → Bool
is_own (on_base msg) = false
is_own (updated st p) = false
is_own _ = true

module _ (fx : Flext) (m : Manager fx) (lib : ServerLib fx m) where
  open fx use {Atom}
  open m use {State, Param}

  -- Of what is left, nothing is asked.
  abbrev Any : State → State → Type 0
  Any st st' = Unit

  Any-Exposing : Exposing m lib Any
  Any-Exposing = record {
    values = record {
      stays = λ st. tt;
      joins = λ {st} {st'} {st''} h k. tt;
      at_bool = λ st p b. tt;
      at_int32 = λ st p i. tt;
      at_float = λ st p f. tt;
      at_string = λ st p t. tt;
    };
    at_create_group = λ st n g. tt;
    at_expose = λ st type n g. tt;
    at_update = λ st. tt;
    at_watch = λ st p. tt;
    at_min_float = λ st p f. tt;
    at_max_float = λ st p f. tt;
    at_min_int32 = λ st p i. tt;
    at_max_int32 = λ st p i. tt;
    at_order = λ st p i. tt;
    at_readonly = λ st p b. tt;
  }

  handled :
      (s : ServerState fx m lib) (r : Option (State × List (Out Atom)))
      → Within Any s.parameters r
      → (on_parameters fx m lib s r ≡ none) ↔ (true ≡ false)
  handled s none w = absurd (w tt)
  handled s (some r) w = (λ e. cc, λ e. cc)

  -- Of the messages of the server's own table and to its inlet for raw data, whatever their
  -- arguments and the state, `setreadonly` and `setorder` without an argument read beyond their
  -- arguments, and no other message does.
  pub receive_server-faults :
      (s : ServerState fx m lib) (x : ServerMessage Atom State Param)
      → is_own x ≡ true
      → (receive_server fx m lib s x ≡ none) ↔ (has_value x ≡ false)
  unfolding receive_server has_value parameter_set_readonly parameter_set_order
  receive_server-faults s (on_object x) h = (λ e. cc, λ e. cc)
  receive_server-faults s (expose argv) h =
      handled s _ (expose_within fx m lib Any-Exposing (λ st i. tt) s.parameters argv)
  receive_server-faults s (remove_list argv) h = (λ e. cc, λ e. cc)
  receive_server-faults s (remove i) h = (λ e. cc, λ e. cc)
  receive_server-faults s (setreadonly []) h = (λ e. refl, λ e. refl)
  receive_server-faults s (setreadonly (a ∷ l)) h =
      handled s _ (readonly_within fx m lib Any-Exposing (λ st i. tt) s.parameters a l)
  receive_server-faults s (setorder []) h = (λ e. refl, λ e. refl)
  receive_server-faults s (setorder (a ∷ l)) h =
      handled s _ (order_within fx m lib Any-Exposing (λ st i. tt) s.parameters a l)
  receive_server-faults s (setmin argv) h =
      handled s _ (min_within fx m lib Any-Exposing (λ st i. tt) s.parameters argv)
  receive_server-faults s (setmax argv) h =
      handled s _ (max_within fx m lib Any-Exposing (λ st i. tt) s.parameters argv)
  receive_server-faults s (setminmax argv) h =
      handled s _ (min_max_within fx m lib Any-Exposing (λ st i. tt) s.parameters argv)
  receive_server-faults s (raw_list argv st) h = elim (Bool-cases s.object.port.raw) [
    | inl b ↦ rw (receive_server, b, raw_data_lem fx argv) (λ e. cc, λ e. cc)
    | inr b ↦ rw (receive_server, b) (λ e. cc, λ e. cc)
  ]
  receive_server-faults s (on_base msg) h = cc
  receive_server-faults s (updated st p) h = cc
