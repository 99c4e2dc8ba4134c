-- ===== src/Tests/Server.antt =====
-- The server object, its transporters and their options on concrete data.
use rcp_flext.Prelude.{◌≡◌, refl, true, false, pos, text, List, [], ◌∷◌, none, some, arith}
use rcp_flext.Flext.{PlainAtom, plain-IsFlext}
use rcp_flext.WsServer.Defs.{WsServer, new_server, subscribe, unsubscribe}
use rcp_flext.WsServer.Sets.{mem, insert, erase}
use rcp_flext.Server.Port.{PortState}
use rcp_flext.Server.Clients.{work_off, work_off-IsCounted}
use rcp_flext.Server.Options.{
  no_options, Setting, min_to, max_to, order_to, only_read, option_loop, option_loop-written,
  all_written,
}
use rcp_flext.Server.Rabbithole.{Rabbithole, new_rabbithole, unbind}
use rcp_flext.Server.Reconnect.{
  failing, closing, end_all, reconnects, end_all-retries, unbind-end_all,
}
use rcp_flext.Tests.Samples.{fx}

abbrev listening : WsServer
listening = record new_server { connections = 4 ∷ 5 ∷ []; is_listening = true }

abbrev no_clients : PortState
no_clients = record {
  raw = false;
  transporter = none;
  client_count = pos 0;
  registered = λ n. false;
  made = 0;
}

work_off-IsCounted_example :
    (work_off PlainAtom no_clients new_server
      (subscribe 1 ∷ subscribe 2 ∷ unsubscribe 1 ∷ [])).0.client_count
    ≡ pos 1
unfolding mem insert erase work_off
work_off-IsCounted_example =
    work_off-IsCounted PlainAtom no_clients new_server
      (subscribe 1 ∷ subscribe 2 ∷ unsubscribe 1 ∷ []) (refl, (refl, (refl, tt))) refl

abbrev settings : List (Setting fx)
settings = min_to (pos 1) ∷ only_read ∷ order_to (pos 3) ∷ max_to (pos 9) ∷ []

option_loop-written_example : option_loop fx (all_written fx settings) (no_options fx) ≡ record {
  min = some (pos 1);
  max = some (pos 9);
  readonly = some true;
  order = some (pos 3);
  errors = [];
}
option_loop-written_example =
    option_loop-written fx (plain-IsFlext true)
      (record { can_be_float-set_float = λ f. refl; get_a_float-set_float = λ f. refl }) settings
      (no_options fx) (tt, (tt, ((omega arith, omega arith), (tt, tt))))

abbrev connecting : Rabbithole
connecting = record new_rabbithole { uri = text "wss://host"; do_try_connect = true }

unbind-end_all_example :
    reconnects (end_all (unbind connecting).0 (failing 423 ∷ closing 4500 ∷ [])).1 ≡ 0
unbind-end_all_example = unbind-end_all connecting (failing 423 ∷ closing 4500 ∷ [])

end_all-retries_example :
    reconnects (end_all connecting (failing 423 ∷ closing 4500 ∷ failing 400 ∷ [])).1 ≡ 3
unfolding text
end_all-retries_example =
    end_all-retries connecting (failing 423 ∷ closing 4500 ∷ failing 400 ∷ []) (refl, refl, refl)
