-- ===== src/Tests/Format.antt =====
-- rcp.format on concrete messages.
use rcp_flext.Prelude.{ℕ, ◌≡◌, refl, inl, true, pos, negsuc, text, List, [], ◌∷◌, none, some, ◌>>=◌}
use rcp_flext.Flext.{Out, PlainAtom, int, plain-IsFlext}
use rcp_flext.Bytes.{strict, bytes}
use rcp_flext.Rcp.{invalid}
use rcp_flext.Format.Defs.{RcpFormat, bang_input, int_input, returned, receive, int_packet}
use rcp_flext.Format.Settings.{create, set_label}
use rcp_flext.Format.Dispatch.{receive_lem, expected}
use rcp_flext.Format.Invariant.{
  Setting, id_setting, type_setting, label_setting, apply_all, IsFormat, receive_safe, bang_faults,
}
use rcp_flext.Format.Trip.{read_update, read_update-int_packet}
use rcp_flext.Tests.Samples.{fx, rcp, rcp-IsProtocol}

abbrev seventh : RcpFormat
seventh = record { id = pos 7; type = invalid; label = []; label_option = [] }

abbrev settings : List Setting
settings = id_setting (pos 9) ∷ label_setting (text "amount") ∷ type_setting (text "b") ∷ []

receive_safe_example :
    (outs : List (Out PlainAtom)) × (receive fx rcp 2 (apply_all fx rcp seventh settings) bang_input
      ≡ returned (some outs))
    × IsFormat (apply_all fx rcp seventh settings)
unfolding create text
receive_safe_example =
    receive_safe fx rcp (int (pos 7) ∷ []) seventh settings bang_input 0 refl
      (tt, ((_, refl), (tt, tt)))

receive_lem_example :
    receive fx rcp 2 seventh (int_input (pos 5))
    ≡ returned (expected fx rcp seventh (int_input (pos 5)))
receive_lem_example = receive_lem fx rcp 0 seventh (int_input (pos 5))

bang_faults_example :
    receive fx rcp 2 (set_label fx rcp seventh (0 ∷ [])).0 bang_input ≡ returned none
bang_faults_example = bang_faults fx rcp seventh 0 [] 0 refl (inl refl)

read_update-int_packet_example :
    (bs : List ℕ) × ((int_packet fx rcp seventh (negsuc 0) >>= strict fx) ≡ some (bytes bs))
    × (read_update bs ≡ some (7, 21, 4294967295))
read_update-int_packet_example =
    read_update-int_packet fx (plain-IsFlext true) rcp rcp-IsProtocol seventh (negsuc 0) refl
