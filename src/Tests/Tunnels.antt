-- ===== src/Tests/Tunnels.antt =====
-- The transporter for a rabbithole, and the count of clients, on concrete histories.
use rcp_flext.Prelude.{
  ◌≡◌, refl, inl, true, false, pos, text, has_prefix, List, [], ◌∷◌, ◌++◌, map, none, some, length,
}
use rcp_flext.Flext.{PlainAtom}
use rcp_flext.WsClient.Defs.{new_client}
use rcp_flext.Server.Port.{PortState}
use rcp_flext.Server.Race.{bind_new, reset_count, all_come, all_go, complaints, early_clients_lem}
use rcp_flext.Server.Rabbithole.{Rabbithole, new_rabbithole, rewrite_uri, happen_all, sets_interval}
use rcp_flext.Server.Reconnect.{Persists, End, failing, closing, to_event, reconnects}
use rcp_flext.Server.Tunnel.{Tunnel, World, move, timer_fires}
use rcp_flext.Server.Tunnel as Tunnels
use rcp_flext.Server.Flapping.{rounds, only_open}
use rcp_flext.Server.Triggers.{connects-flapping, sets_interval-flapping}
use rcp_flext.Server.Pause.{resume-asks_nothing, sets_interval-timer_fires}

abbrev in_use : Tunnel
in_use = record {
  hole = record new_rabbithole { uri = text "ws://a"; do_try_connect = true };
  client = record new_client { con = some 0; made = 1 };
  timer = none;
}

connects-flapping_example :
    let t' = rounds 3 (move (only_open 0) in_use (Tunnels.connects (text "ws://b"))) 0 1 in
    (t'.client.made ≡ 5) × (length t'.client.closing ≡ 4) × Persists t'.hole
unfolding text has_prefix rewrite_uri
connects-flapping_example =
    connects-flapping 3 in_use 0 (text "ws://b") refl refl (inl (refl, refl))

sets_interval-flapping_example :
    let t1 = move (only_open 0) in_use (Tunnels.sets_interval (pos 7)) in
    let t' = rounds 3 (move (only_open 0) t1 timer_fires) 0 1 in
    (t'.client.made ≡ 5) × (length t'.client.closing ≡ 4) × Persists t'.hole
unfolding text has_prefix
sets_interval-flapping_example =
    sets_interval-flapping 3 in_use 0 (pos 7) (refl, refl, refl) refl refl (inl (refl, refl))

abbrev connecting : Rabbithole
connecting = record new_rabbithole { uri = text "ws://a"; do_try_connect = true }

abbrev ends : List End
ends = closing 1000 ∷ failing 404 ∷ []

resume-asks_nothing_example :
    reconnects
      (happen_all connecting
        (sets_interval (pos 0) ∷ (map to_event ends ++ sets_interval (pos 5) ∷ []))).1
    ≡ 0
resume-asks_nothing_example = resume-asks_nothing connecting (pos 0) (pos 5) ends refl

abbrev waiting : Tunnel
waiting = record {
  hole = connecting;
  client = record new_client { made = 1 };
  timer = some (pos 2);
}

sets_interval-timer_fires_example :
    let w : World = record {
      is_open = λ n. false;
      setup = record { has_ssl = true; is_made = true };
    } in
    let t' = move w (move w waiting (Tunnels.sets_interval (pos 0))) timer_fires in
    (t'.client.made ≡ 2) × (t'.hole.interval ≡ pos 0)
unfolding text has_prefix
sets_interval-timer_fires_example =
    sets_interval-timer_fires waiting (λ n. false) (pos 0) (pos 2) refl refl refl refl

abbrev no_clients : PortState
no_clients = record {
  raw = false;
  transporter = none;
  client_count = pos 0;
  registered = λ n. false;
  made = 0;
}

-- One client comes too early, two in time.
early_clients_lem_example :
    let s1 =
      (reset_count PlainAtom
        (all_come PlainAtom (bind_new PlainAtom no_clients (pos 10000) true) 1)).0 in
    let s2 = all_come PlainAtom s1 2 in
    (s2.client_count ≡ pos 2) × (complaints PlainAtom (all_go PlainAtom s2 3).1 ≡ 1)
early_clients_lem_example = early_clients_lem PlainAtom no_clients (pos 10000) true 1 2
