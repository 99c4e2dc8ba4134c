-- ===== src/Tests/Messages.antt =====
-- Runs of rcp.server and rcp.client on the parameters of Nodes.
use rcp_flext.Prelude.{
  false, ◌↔◌, ◌≡◌, ◌≢◌, ◌≤◌, refl, ℤ, true, pos, text, text_eq, List, [], ◌∷◌, none, some, arith,
}
use rcp_flext.Flext.{PlainAtom, int, symbol}
use rcp_flext.Base.Closed.{Managed}
use rcp_flext.Base.Messages.{info, anything, has_arguments, IsReadable}
use rcp_flext.Base.Messages as Base
use rcp_flext.Server.Port.{comes, listens}
use rcp_flext.Server.Expose.{ServerLib}
use rcp_flext.Server.Object.{plain_object, raw_object, create_object, on_port}
use rcp_flext.Server.Messages.{
  ServerMessage, raw_list, on_object, expose, setorder, remove, on_base, updated, receive_all,
  receive_server, has_value,
}
use rcp_flext.Server.Handled.{Sound, IsRun, receive_all_total}
use rcp_flext.Server.Faults.{receive_server-faults}
use rcp_flext.WsClient.Defs.{Report, handle}
use rcp_flext.Client.Object.{on_report, on_callback, create_client}
use rcp_flext.Client.Messages.{
  ClientMessage, open_to, reported, new_object, looks_up, receive_client_all, is_complete,
}
use rcp_flext.Client.Messages as Client
use rcp_flext.Client.Handled.{IsServed, receive_client_all_total}
use rcp_flext.Client.Stale.{receive_client_all_faults}
use rcp_flext.Tests.Samples.{fx}
use rcp_flext.Tests.Nodes.{nodes, Node, outer, inner, node_depth, nodes-IsTree, nodes-IsTyped}

abbrev lib : ServerLib fx nodes
lib = record {
  find_group = λ v t g. some outer;
  create_group = λ v t g. (v, none);
  expose = λ v type t g. (v, some inner);
  remove_parameter_id = λ v i. (v, true);
  update = λ v. v;
  set_min_float = λ v p f. v;
  set_max_float = λ v p f. v;
  set_min_int32 = λ v p i. v;
  set_max_int32 = λ v p i. v;
  set_order = λ v p i. v;
  set_readonly = λ v p b. v;
  watch = λ v p. v;
}

abbrev Any : nodes.State → Type 0
Any v = Unit

abbrev Later : nodes.State → nodes.State → Type 0
Later v w = Any v → Any w

shallow : (p : Node) → node_depth p ≤ 2
shallow outer = omega arith
shallow inner = omega arith

labelled : (v : nodes.State) (p : Node) → nodes.label v p ≢ none
labelled v outer = λ e. cc
labelled v inner = λ e. cc

readable : (v : nodes.State) → Any v → IsReadable nodes v
readable v k = record {
  typed = nodes-IsTyped v;
  depth = node_depth;
  tree = nodes-IsTree v;
  shallow = shallow;
  whole = λ p e. cc;
  labelled = labelled v;
}

managed : Managed nodes Later
managed = record {
  values = record {
    stays = λ v k. k;
    joins = λ {st} {st'} {st''} h k l. tt;
    at_bool = λ v p b k. tt;
    at_int32 = λ v p i k. tt;
    at_float = λ v p f k. tt;
    at_string = λ v p t k. tt;
  };
  at_dirty = λ v p k. tt;
  at_update = λ v k. tt;
}

lib-Sound : Sound nodes lib Any
lib-Sound = record {
  readable = readable;
  managed = managed;
  exposing = record {
    values = managed.values;
    at_create_group = λ v n g k. tt;
    at_expose = λ v type n g k. tt;
    at_update = λ v k. tt;
    at_watch = λ v p k. tt;
    at_min_float = λ v p f k. tt;
    at_max_float = λ v p f k. tt;
    at_min_int32 = λ v p i k. tt;
    at_max_int32 = λ v p i k. tt;
    at_order = λ v p i k. tt;
    at_readonly = λ v p b k. tt;
  };
  at_remove = λ v i k. tt;
}

abbrev to_server : List (ServerMessage PlainAtom ℤ Node)
to_server =
    on_object (on_port (listens (pos 10000) true))
    ∷ on_object (on_port comes)
    ∷ expose (symbol (text "i") ∷ symbol (text "n") ∷ [])
    ∷ setorder (symbol (text "g") ∷ symbol (text "n") ∷ int (pos 3) ∷ [])
    ∷ on_base (info [])
    ∷ on_base (anything (text "g") (symbol (text "n") ∷ int (pos 9) ∷ []))
    ∷ updated (pos 7) inner
    ∷ raw_list (int (pos 4) ∷ int (pos 200) ∷ []) (pos 8)
    ∷ raw_list (int (pos 400) ∷ []) (pos 8)
    ∷ remove (pos 2)
    ∷ []

receive_all_total_example :
    IsRun fx nodes lib lib-Sound
      (receive_all fx nodes lib (record { object = raw_object; parameters = pos 5 }) to_server)
unfolding create_object text text_eq has_value has_arguments
receive_all_total_example =
    receive_all_total fx nodes lib lib-Sound (symbol (text "-raw") ∷ []) raw_object (pos 5)
      to_server refl tt (refl, (refl, (refl, (refl, (refl, (refl, (tt, (tt, (tt, (refl, tt))))))))))

abbrev no_order : ServerMessage PlainAtom ℤ Node
no_order = setorder []

receive_server-faults_example :
    (receive_server fx nodes lib (record { object = plain_object; parameters = pos 5 }) no_order
      ≡ none)
    ↔ (has_value no_order ≡ false)
receive_server-faults_example =
    receive_server-faults fx nodes lib (record { object = plain_object; parameters = pos 5 })
      no_order refl

abbrev to_client : List (ClientMessage PlainAtom ℤ Node)
to_client =
    open_to (λ n. true) (record { has_ssl = true; is_made = true }) (text "wss://host")
    ∷ reported (Report.opened 0)
    ∷ Client.on_base (Base.value (symbol (text "g") ∷ symbol (text "n") ∷ []))
    ∷ Client.called_back (pos 3) (Client.added inner)
    ∷ Client.called_back (pos 4) (Client.updated inner)
    ∷ Client.called_back (pos 4) (Client.removed inner)
    ∷ Client.close (λ n. true)
    ∷ reported (Report.closed 0 1000)
    ∷ []

receive_client_all_total_example :
    IsServed fx nodes readable managed
      (receive_client_all fx nodes true (new_object fx nodes [] (pos 5)) to_client)
unfolding is_complete has_arguments
receive_client_all_total_example =
    receive_client_all_total fx nodes readable managed true [] (pos 5) to_client tt
      (refl, (refl, (refl, (tt, (tt, (tt, (refl, (refl, tt)))))))) refl

-- The connection closes, another one opens, and a value is set.
receive_client_all_faults_example :
    receive_client_all fx nodes true (new_object fx nodes [] (pos 5)) (
      reported (Report.closed 0 1000)
      ∷ open_to (λ n. true) (record { has_ssl = true; is_made = true }) (text "ws://host")
      ∷ reported (Report.opened 1)
      ∷ Client.on_base (anything (text "g") (symbol (text "n") ∷ int (pos 9) ∷ []))
      ∷ [])
    ≡ none
unfolding on_report on_callback handle looks_up create_client
receive_client_all_faults_example =
    receive_client_all_faults fx nodes (new_object fx nodes [] (pos 5)) (Report.closed 0 1000)
      (open_to (λ n. true) (record { has_ssl = true; is_made = true }) (text "ws://host")
        ∷ reported (Report.opened 1)
        ∷ [])
      [] (anything (text "g") (symbol (text "n") ∷ int (pos 9) ∷ [])) refl refl
