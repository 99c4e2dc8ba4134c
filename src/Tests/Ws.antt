-- ===== src/Tests/Ws.antt =====
-- The websocket client and the objects that stand on it, on concrete histories.
use rcp_flext.Prelude.{
  ℕ, ◌≡◌, ◌≢◌, refl, Bool, true, false, ◌⊎◌, ◌||◌, pos, text, has_prefix, text_eq, List, [], ◌∷◌,
  none, some, arith, ◌==◌,
}
use rcp_flext.Flext.{PlainAtom, int, symbol, plain-IsFlext, to_out_list, to_out_int}
use rcp_flext.Bytes.{data_atoms}
use rcp_flext.WsClient.Defs.{
  new_client, connect, disconnect, closed, handle, on_disconnected, received,
}
use rcp_flext.WsClient.Single.{Call, connects, calls, call, handle_given_up}
use rcp_flext.WsClient.Destroyed.{destroy_client, handle_destroyed, handle_destroyed_lem}
use rcp_flext.WsClient.Verify.{
  dns, other_name, Cert, verify_certificate, verify_certificate_sound, verify_certificate_last,
  names_host, or_nothing, is_common, same_name,
}
use rcp_flext.WsServer.Defs.{WsServer, new_server, Sending}
use rcp_flext.WsServer.Sets.{mem}
use rcp_flext.WsServer.Send.{Reaches}
use rcp_flext.WsServer.Service.{not_begun, checking, ended, here, next, begin, stop-Fate}
use rcp_flext.Server.Flapping.{only_open}
use rcp_flext.Server.Object.{
  raw_object, create_object, Message, on_port, sets_rabbithole, messages, destroy, raw_input,
}
use rcp_flext.Server.Port.{listens}
use rcp_flext.Server.RawLink.{raw_input-data_atoms}
use rcp_flext.Server.Registry.{IsRegistered, registered_lem}
use rcp_flext.Client.Object.{call_disconnected, on_report}
use rcp_flext.Client.Late.{on_report_given_up}
use rcp_flext.Ws.Server.{m_list, create_ws}
use rcp_flext.Ws.Echo.{m_list-received, HasPort, create_ws-HasPort}
use rcp_flext.Ws.Echo as Echo
use rcp_flext.Ws.Client
use rcp_flext.Tests.Samples.{fx}

-- Two connections, the first given up when it was open.
abbrev history : List Call
history =
    connects (λ n. true) (record { has_ssl = true; is_made = true }) (text "ws://a")
    ∷ connects (λ n. true) (record { has_ssl = true; is_made = true }) (text "wss://b")
    ∷ []

handle_given_up_example :
    let c = calls new_client history in
    (handle c (closed 0 1000) ≡ on_disconnected 0 ∷ []) × ((c.con ≡ none) ⊎ (c.ssl_con ≡ none))
unfolding calls call connect disconnect text has_prefix
handle_given_up_example = handle_given_up history (closed 0 1000) (omega arith) refl refl

on_report_given_up_example :
    on_report fx (calls new_client history) (closed 0 1000)
    ≡ (call_disconnected ∷ [], to_out_int 2 (pos 0) ∷ [])
unfolding calls call connect disconnect text has_prefix
on_report_given_up_example = on_report_given_up fx history (closed 0 1000) (omega arith) refl refl

-- The first connection is closed while the threads are joined.
handle_destroyed_lem_example :
    handle_destroyed (destroy_client (λ n. true) (calls new_client history)) (closed 0 1000)
    ≡ on_disconnected 0 ∷ []
unfolding calls call connect disconnect text has_prefix
handle_destroyed_lem_example =
    handle_destroyed_lem history (λ n. true) (closed 0 1000) (omega arith)

abbrev cert : Cert
cert = record { san = some (dns (text "Host") ∷ other_name ∷ []); common_name = none }

verify_certificate_sound_example :
    ◌≡◌ {A = Bool} true true
    × ((0 == 0 ≡ false)
        ⊎ (names_host (text "host") (or_nothing cert.san)
              || is_common (text "host") cert.common_name
            ≡ true))
unfolding verify_certificate text same_name
verify_certificate_sound_example = verify_certificate_sound (text "host") true 0 cert refl

verify_certificate_last_example :
    verify_certificate
      (text "host")
      true
      0
      (record { san = some (dns (text "host") ∷ dns (text "other") ∷ []); common_name = none })
    ≡ false
unfolding text same_name
verify_certificate_last_example =
    verify_certificate_last (text "host") (text "other") (dns (text "host") ∷ []) refl refl

abbrev story : List Message
story =
    on_port (listens (pos 10000) true)
    ∷ sets_rabbithole (only_open 0) (text "http://a")
    ∷ on_port (listens (pos 10001) true)
    ∷ []

registered_lem_example :
    let o = messages PlainAtom raw_object story in
    IsRegistered o × ((n : ℕ) → (destroy o).port.registered n ≡ false)
unfolding create_object text text_eq
registered_lem_example = registered_lem fx (symbol (text "-raw") ∷ []) raw_object story refl

raw_input-data_atoms_example :
    raw_input fx (data_atoms fx (9 ∷ 20 ∷ [])) ≡ some ((9 ∷ 20 ∷ []) ∷ [])
raw_input-data_atoms_example =
    raw_input-data_atoms fx (plain-IsFlext true) (9 ∷ 20 ∷ []) (omega arith, (omega arith, tt))

abbrev two_clients : WsServer
two_clients = record new_server { connections = 4 ∷ 5 ∷ []; port = 80 }

m_list-received_example :
    (Client.on_callback fx (received (1 ∷ 2 ∷ []))
      ≡ to_out_list 0 (data_atoms fx (1 ∷ 2 ∷ [])) ∷ [])
    × (sending : Sending) × (m_list fx (λ k. k == 4) (some two_clients) (data_atoms fx (1 ∷ 2 ∷ []))
        ≡ some ([], record { sending = sending; payload = 1 ∷ 2 ∷ [] } ∷ []))
    × Reaches (λ k. mem k two_clients.connections) (λ k. k == 4) sending
unfolding mem
m_list-received_example =
    m_list-received fx (plain-IsFlext true) two_clients (λ k. k == 4) (1 ∷ 2 ∷ [])
      (omega arith, (omega arith, tt)) (refl, (refl, tt))

create_ws-HasPort_example : HasPort fx (
    Echo.listens fx
      (create_ws fx (int (pos 80) ∷ []) true)
      ((pos 70000, true) ∷ (pos 81, false) ∷ []))
create_ws-HasPort_example =
    create_ws-HasPort fx (int (pos 80) ∷ []) true ((pos 70000, true) ∷ (pos 81, false) ∷ [])

-- `stop` before the thread begins.
stop-Fate_example : checking ≢ ended
stop-Fate_example =
    stop-Fate not_begun (record { phase = checking; run = true; is_stopped = true })
      (next here (begin false true))
