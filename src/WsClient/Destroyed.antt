-- ===== src/WsClient/Destroyed.antt =====
-- The destructor of websocketClient.cpp. Its last steps join the threads in which websocketpp reports,
-- so that reports can come until it ends; by then the object of the derived class is gone, and every
-- call of IWebsocketClientListener is one of a pure virtual function.
use rcp_flext.Prelude.{
  ℕ, ◌<◌, ◌≡◌, refl, Bool, true, false, ◌||◌, List, [], Option, none, some, if◌then◌else◌, arith,
  ◌∙◌,
}
use rcp_flext.WsServer.Sets.{mem}
use rcp_flext.WsClient.Defs.{
  WsClient, new_client, disconnect, is_it, give_up, Report, opened, failed, closed, got_bytes,
  got_text, Callback, handle,
}
use rcp_flext.WsClient.Single.{
  Call, calls, calls-IsSingle, new_client-IsSingle, disconnect-IsIdle, IsSingle, subject, only_late,
  handle-deaf,
}

-- `silent` are the connections whose close handler was cleared.
pub record Destroyed : Type 0 where
  pub client : WsClient
  pub silent : List ℕ

unfoldable pub destroy_client : (ℕ → Bool) → WsClient → Destroyed
unfolding disconnect
destroy_client is_open c = record {
  client = disconnect is_open c;
  silent = give_up c.ssl_con (give_up c.con []);
}

-- The calls that a report leads to while the threads are joined.
unfoldable pub handle_destroyed : Destroyed → Report → List Callback
unfolding handle
handle_destroyed d (closed n code) = if mem n d.silent then [] else handle d.client (closed n code)
handle_destroyed d r = handle d.client r

abbrev pub in_use : WsClient → ℕ → Bool
in_use c n = is_it c.con n || is_it c.ssl_con n

mem-give_up :
    (con ssl_con : Option ℕ) (n : ℕ)
    → mem n (give_up ssl_con (give_up con [])) ≡ is_it con n || is_it ssl_con n
unfolding mem
mem-give_up none none n = refl
mem-give_up (some k) none n = ground arith
mem-give_up none (some l) n = ground arith
mem-give_up (some k) (some l) n = ground arith

-- The client that is left hears nothing but closings.
left_over :
    (is_open : ℕ → Bool) (c : WsClient) (r : Report)
    → IsSingle c
    → subject r < c.made
    → handle (destroy_client is_open c).client r ≡ only_late r
unfolding destroy_client disconnect
left_over is_open c r s h =
    let idle = disconnect-IsIdle is_open c s in
    handle-deaf (disconnect is_open c) r (idle.all_deaf (subject r) h) refl refl

if_same : {A : Type 0} (b : Bool) (x : A) → x ≡ (if b then x else x)
if_same true x = refl
if_same false x = refl

handle_all :
    (is_open : ℕ → Bool) (c : WsClient) (r : Report)
    → handle (destroy_client is_open c).client r ≡ only_late r
    → handle_destroyed (destroy_client is_open c) r
      ≡ (if in_use c (subject r) then [] else only_late r)
unfolding handle_destroyed destroy_client
handle_all is_open c (closed n code) e = rw (mem-give_up c.con c.ssl_con n, e) refl
handle_all is_open c (opened n) e = e ∙ if_same (in_use c n) []
handle_all is_open c (failed n code) e = e ∙ if_same (in_use c n) []
handle_all is_open c (got_bytes n bs) e = e ∙ if_same (in_use c n) []
handle_all is_open c (got_text n t) e = e ∙ if_same (in_use c n) []

-- While the destructor joins the threads, after any sequence of calls of `connect` and
-- `disconnect`, a report about a connection that was made calls nothing if that connection is in
-- use when the destructor begins; if it was given up before, its closing calls `disconnected`,
-- which is pure virtual by then, and nothing else is called.
pub handle_destroyed_lem :
    (xs : List Call) (is_open : ℕ → Bool) (r : Report)
    → let c = calls new_client xs in
      subject r < c.made
      → handle_destroyed (destroy_client is_open c) r
        ≡ (if in_use c (subject r) then [] else only_late r)
handle_destroyed_lem xs is_open r h =
    let c = calls new_client xs in
    handle_all is_open c r
      (left_over is_open c r (calls-IsSingle new_client xs new_client-IsSingle) h)
