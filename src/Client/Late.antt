-- ===== src/Client/Late.antt =====
-- What `rcp.client` tells the library of a connection that it gave up.
use rcp_flext.Prelude.{◌<◌, ◌≡◌, refl, false, pos, List, [], ◌∷◌}
use rcp_flext.Flext.{Flext, Out, to_out_int}
use rcp_flext.WsClient.Defs.{
  WsClient, new_client, Report, opened, failed, got_bytes, got_text, closed, is_it, handle,
}
use rcp_flext.WsClient.Single.{Call, calls, handle_given_up, subject, only_late}
use rcp_flext.Client.Object.{on_callbacks, on_callback, LibCall, call_disconnected, on_report}

module _ (fx : Flext) where
  -- What is told of a report about a connection that was given up.
  abbrev pub told_late : Report → List LibCall × List (Out fx.Atom)
  told_late (closed n code) = (call_disconnected ∷ [], to_out_int 2 (pos 0) ∷ [])
  told_late _ = ([], [])

  late : (r : Report) → on_callbacks fx (only_late r) ≡ told_late r
  unfolding on_callback
  late (opened n) = refl
  late (failed n code) = refl
  late (closed n code) = refl
  late (got_bytes n bs) = refl
  late (got_text n t) = refl

  told_late_lem :
      (c : WsClient) (r : Report) → handle c r ≡ only_late r → on_report fx c r ≡ told_late r
  unfolding on_report
  told_late_lem c r e = rw e (late r)

  -- After any sequence of calls of `connect` and `disconnect`, the closing of a connection that
  -- was made and is not in use any more tells the library that it is disconnected and sends 0
  -- to the outlet, whatever connection is in use; nothing else about such a connection is told
  -- or sent.
  pub on_report_given_up :
      (xs : List Call) (r : Report)
      → let c = calls new_client xs in
        subject r < c.made
        → is_it c.con (subject r) ≡ false
        → is_it c.ssl_con (subject r) ≡ false
        → on_report fx c r ≡ told_late r
  on_report_given_up xs r h p s =
      told_late_lem (calls new_client xs) r (handle_given_up xs r h p s).0
