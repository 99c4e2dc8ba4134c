-- ===== src/Server/Object.antt =====
-- ParameterServer.cpp: the object, from its constructor to its destructor, with its transporters.
use rcp_flext.Prelude.{
  ℕ, ◌+◌, Bool, true, false, ◌&&◌, ◌||◌, ℤ, pos, Text, text, text_eq, List, [], ◌∷◌, Option, none,
  some, if◌then◌else◌, ◌>>=◌,
}
use rcp_flext.Flext.{Flext}
use rcp_flext.Bytes.{Read, bytes, refused, raw_data}
use rcp_flext.Slip.Decoder.{Created, created, threw}
use rcp_flext.WsClient.Defs.{new_client}
use rcp_flext.Server.Port.{
  PortState, Happening, step, add_transporter, remove_transporter, drop_transporter,
}
use rcp_flext.Server.Rabbithole.{new_rabbithole}
use rcp_flext.Server.Tunnel.{Tunnel, World, Move, connects, sets_interval, move}

-- The rabbithole transporter has its number at the rcp server too.
pub record Object : Type 0 where
  pub port : PortState
  pub hole_name : Option ℕ
  pub tunnel : Tunnel

abbrev pub new_tunnel : Tunnel
new_tunnel = record { hole = new_rabbithole; client = new_client; timer = none }

-- The object without the option "-raw", and with it.
abbrev pub plain_object : Object
plain_object = record {
  port = record {
    raw = false;
    transporter = none;
    client_count = pos 0;
    registered = λ n. false;
    made = 0;
  };
  hole_name = none;
  tunnel = new_tunnel;
}

-- A new PdServerTransporter, which is registered and always listens.
abbrev pub add_raw : PortState → PortState
add_raw port = record port {
  transporter = some (record { name = port.made; port = 0; is_listening = true });
  registered = add_transporter port.made port.registered;
  made = port.made + 1;
}

abbrev pub raw_object : Object
raw_object = record plain_object { port = add_raw (record plain_object.port { raw = true }) }

-- The rabbithole transporter is made when it is set for the first time.
abbrev pub hole_made : PortState → Option ℕ → Tunnel → Object
hole_made port (some n) tunnel = record { port = port; hole_name = some n; tunnel = tunnel }
hole_made port none tunnel = record {
  port = record port {
    registered = add_transporter port.made port.registered;
    made = port.made + 1;
  };
  hole_name = some port.made;
  tunnel = new_tunnel;
}

abbrev pub with_hole : Object → Object
with_hole o = hole_made o.port o.hole_name o.tunnel

-- A call of the rabbithole transporter, if there is one.
abbrev pub move_if : Option ℕ → World → Tunnel → Move → Tunnel
move_if none w tunnel mv = tunnel
move_if (some n) w tunnel mv = move w tunnel mv

abbrev pub moves : World → Move → Object → Object
moves w mv o = record o { tunnel = move_if o.hole_name w o.tunnel mv }

unfoldable pub set_rabbithole : World → Text → Object → Object
set_rabbithole w uri o = moves w (connects uri) (with_hole o)

-- The attributes, where they are set.
unfoldable pub get_rabbithole : Object → Option Text
get_rabbithole o = elim o.hole_name [ none ↦ none | some n ↦ some o.tunnel.hole.uri ]

unfoldable pub set_rabbithole_interval : World → ℤ → Object → Object
set_rabbithole_interval w i o = moves w (sets_interval i) o

unfoldable pub get_rabbithole_interval : Object → Option ℤ
get_rabbithole_interval o = elim o.hole_name [ none ↦ none | some n ↦ some o.tunnel.hole.interval ]

abbrev pub drop_name : Option ℕ → (ℕ → Bool) → ℕ → Bool
drop_name none registered = registered
drop_name (some n) registered = remove_transporter n registered

-- The destructor, before the rcp server is freed.
unfoldable pub destroy : Object → Object
destroy o =
    let registered =
      drop_name o.hole_name (drop_transporter o.port.transporter o.port.registered) in
    record o {
      port = record o.port { transporter = none; registered = registered };
      hole_name = none;
    }

-- PdServerTransporter::pushData passes on what is not empty.
abbrev pub pushed : Read → List (List ℕ)
pushed refused = []
pushed (bytes []) = []
pushed (bytes (b ∷ bs)) = (b ∷ bs) ∷ []

module _ (fx : Flext) where
  open fx use {Atom, is_string, get_string}

  -- The loop of the constructors over the arguments.
  unfoldable pub is_raw : List Atom → Bool
  is_raw [] = false
  is_raw (a ∷ l) = (is_string a && text_eq (get_string a) (text "-raw")) || is_raw l

  -- `has_server` says whether rcp_server_create gave a server.
  unfoldable pub create_object : Bool → List Atom → Created Object
  unfolding is_raw
  create_object has_server argv =
      if has_server then created (if is_raw argv then raw_object else plain_object) else threw

  -- `raw_data_list` and `handle_raw_data`: the packets that the library gets. The inlet exists for a
  -- raw object, whose transporter is a PdServerTransporter.
  unfoldable pub raw_input : List Atom → Option (List (List ℕ))
  unfolding raw_data
  raw_input argv = do r ← raw_data fx argv; some (pushed r)

-- What can happen to the object.
pub data Message : Type 0 where
  on_port : Happening → Message
  sets_rabbithole : World → Text → Message
  sets_rabbithole_interval : World → ℤ → Message
  in_tunnel : World → Move → Message

module _ (A : Type 0) where
  unfoldable pub message : Object → Message → Object
  unfolding step set_rabbithole set_rabbithole_interval move
  message o (on_port h) = record o { port = (step A o.port h).0 }
  message o (sets_rabbithole w uri) = set_rabbithole w uri o
  message o (sets_rabbithole_interval w i) = set_rabbithole_interval w i o
  message o (in_tunnel w mv) = moves w mv o

  unfoldable pub messages : Object → List Message → Object
  unfolding message
  messages o [] = o
  messages o (x ∷ xs) = messages (message o x) xs
