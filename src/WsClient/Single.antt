-- ===== src/WsClient/Single.antt =====
-- The client has one connection at most, and hears nothing of those that it gave up.
use rcp_flext.Prelude.{
  ℕ, ◌<◌, ◌≡◌, refl, Bool, true, false, ◌||◌, not, Text, text, has_prefix, List, [], ◌∷◌, Option,
  none, some, if◌then◌else◌, ◌⊎◌, inl, inr, arith, Bool-cases,
}
use rcp_flext.WsServer.Sets.{mem}
use rcp_flext.WsClient.Defs.{
  WsClient, new_client, Setup, give_up, disconnect, make_con, make_ssl_con, is_no_uri, connect,
  is_it, Report, opened, failed, closed, got_bytes, got_text, Callback, on_disconnected, code_of,
  handle,
}

-- The program's calls.
pub data Call : Type 0 where
  connects : (ℕ → Bool) → Setup → Text → Call
  disconnects : (ℕ → Bool) → Call

unfoldable pub call : WsClient → Call → WsClient
unfolding connect disconnect
call c (connects is_open setup uri) = connect is_open setup uri c
call c (disconnects is_open) = disconnect is_open c

unfoldable pub calls : WsClient → List Call → WsClient
unfolding call
calls c [] = c
calls c (x ∷ xs) = calls (call c x) xs

-- One connection at most, and every other one that was made is deaf.
pub record IsSingle (c : WsClient) : Type 0 where
  pub one : (c.con ≡ none) ⊎ (c.ssl_con ≡ none)
  pub heard :
      (n : ℕ) → n < c.made → mem n c.deaf ≡ false → is_it c.con n || is_it c.ssl_con n ≡ true
  pub made_con : (n : ℕ) → c.con ≡ some n → n < c.made
  pub made_ssl_con : (n : ℕ) → c.ssl_con ≡ some n → n < c.made

-- After `disconnect` there is no connection, and all are deaf.
pub record IsIdle (c : WsClient) : Type 0 where
  pub no_con : c.con ≡ none
  pub no_ssl_con : c.ssl_con ≡ none
  pub all_deaf : (n : ℕ) → n < c.made → mem n c.deaf ≡ true

mem-give_up :
    (o : Option ℕ) (deaf : List ℕ) (n : ℕ) → mem n (give_up o deaf) ≡ is_it o n || mem n deaf
unfolding mem
mem-give_up none deaf n = refl
mem-give_up (some k) deaf n = refl

-- A connection that is none of the two was deaf before.
all_deaf_by : (a b d : Bool) → (d ≡ false → a || b ≡ true) → a || (b || d) ≡ true
all_deaf_by true b d h = refl
all_deaf_by false true d h = refl
all_deaf_by false false true h = refl
all_deaf_by false false false h = h refl

pub disconnect-IsIdle :
    (is_open : ℕ → Bool) (c : WsClient) → IsSingle c → IsIdle (disconnect is_open c)
unfolding disconnect
disconnect-IsIdle is_open c s = record {
  no_con = refl;
  no_ssl_con = refl;
  all_deaf = λ n h.
      rw (mem-give_up c.con (give_up c.ssl_con c.deaf) n, mem-give_up c.ssl_con c.deaf n)
        (all_deaf_by (is_it c.con n) (is_it c.ssl_con n) (mem n c.deaf) (s.heard n h));
}

IsIdle-IsSingle : (c : WsClient) → IsIdle c → IsSingle c
IsIdle-IsSingle c i = record {
  one = inl i.no_con;
  heard = λ n h e. let d = i.all_deaf n h in cc;
  made_con = λ n e. let d = i.no_con in cc;
  made_ssl_con = λ n e. let d = i.no_ssl_con in cc;
}

make_con-IsSingle : (b : Bool) (c : WsClient) → IsIdle c → IsSingle (make_con b c)
make_con-IsSingle false c i = IsIdle-IsSingle c i
make_con-IsSingle true c i = record {
  one = inr i.no_ssl_con;
  heard = λ n h e. ground (arith, i.all_deaf n);
  made_con = λ n e. ground arith;
  made_ssl_con = λ n e. let d = i.no_ssl_con in cc;
}

make_ssl_con-IsSingle : (b : Bool) (c : WsClient) → IsIdle c → IsSingle (make_ssl_con b c)
make_ssl_con-IsSingle false c i = IsIdle-IsSingle c i
make_ssl_con-IsSingle true c i = record {
  one = inl i.no_con;
  heard = λ n h e. ground (arith, i.all_deaf n, i.no_con);
  made_con = λ n e. let d = i.no_con in cc;
  made_ssl_con = λ n e. ground arith;
}

-- The branches of `connect` behind `disconnect`.
abbrev branches : Setup → Bool → Bool → Bool → WsClient → WsClient
branches setup empty ws wss c =
    if empty
    then c
    else (if not ws
        then c
        else (if wss
            then (if setup.has_ssl then make_ssl_con setup.is_made c else c)
            else make_con setup.is_made c))

branches-IsSingle :
    (made ssl empty ws wss : Bool) (c : WsClient)
    → IsIdle c
    → IsSingle (branches (record { has_ssl = ssl; is_made = made }) empty ws wss c)
branches-IsSingle made ssl true ws wss c i = IsIdle-IsSingle c i
branches-IsSingle made ssl false false wss c i = IsIdle-IsSingle c i
branches-IsSingle made true false true true c i = make_ssl_con-IsSingle made c i
branches-IsSingle made false false true true c i = IsIdle-IsSingle c i
branches-IsSingle made ssl false true false c i = make_con-IsSingle made c i

pub call-IsSingle : (c : WsClient) (x : Call) → IsSingle c → IsSingle (call c x)
unfolding call connect
call-IsSingle c (connects is_open setup uri) s =
    branches-IsSingle setup.is_made setup.has_ssl (is_no_uri uri) (has_prefix (text "ws") uri)
      (has_prefix (text "wss") uri) (disconnect is_open c) (disconnect-IsIdle is_open c s)
call-IsSingle c (disconnects is_open) s = IsIdle-IsSingle _ (disconnect-IsIdle is_open c s)

pub calls-IsSingle : (c : WsClient) (xs : List Call) → IsSingle c → IsSingle (calls c xs)
unfolding calls
calls-IsSingle c [] s = s
calls-IsSingle c (x ∷ xs) s = calls-IsSingle (call c x) xs (call-IsSingle c x s)

pub new_client-IsSingle : IsSingle new_client
new_client-IsSingle = record {
  one = inl refl;
  heard = λ n h e. absurd (omega arith);
  made_con = λ n e. cc;
  made_ssl_con = λ n e. cc;
}

-- The connection that a report is about.
abbrev pub subject : Report → ℕ
subject (opened n) = n
subject (failed n code) = n
subject (closed n code) = n
subject (got_bytes n bs) = n
subject (got_text n t) = n

-- All that is heard of a connection that was given up.
abbrev pub only_late : Report → List Callback
only_late (closed n code) = on_disconnected 0 ∷ []
only_late _ = []

pub deaf_given_up :
    (c : WsClient) (n : ℕ)
    → IsSingle c
    → n < c.made
    → is_it c.con n ≡ false
    → is_it c.ssl_con n ≡ false
    → mem n c.deaf ≡ true
deaf_given_up c n s h p q = elim (Bool-cases (mem n c.deaf)) [
  | inl e ↦ e
  | inr e ↦ let d = s.heard n h e in ground arith
]

pub handle-deaf :
    (c : WsClient) (r : Report)
    → mem (subject r) c.deaf ≡ true
    → is_it c.con (subject r) ≡ false
    → is_it c.ssl_con (subject r) ≡ false
    → handle c r ≡ only_late r
unfolding handle code_of
handle-deaf c (opened n) d p s = rw d
handle-deaf c (failed n code) d p s = rw d
handle-deaf c (closed n code) d p s = rw (p, s)
handle-deaf c (got_bytes n bs) d p s = rw d
handle-deaf c (got_text n t) d p s = rw d

-- After any sequence of calls of `connect` and `disconnect`, a report about a connection that was
-- made and is not in use any more calls nothing but `disconnected`, with the code 0, when that
-- connection is closed; and at most one of the two pointers is set.
pub handle_given_up :
    (xs : List Call) (r : Report)
    → let c = calls new_client xs in
      subject r < c.made
      → is_it c.con (subject r) ≡ false
      → is_it c.ssl_con (subject r) ≡ false
      → (handle c r ≡ only_late r) × ((c.con ≡ none) ⊎ (c.ssl_con ≡ none))
handle_given_up xs r h p s =
    let single = calls-IsSingle new_client xs new_client-IsSingle in
    let c = calls new_client xs in
    (handle-deaf c r (deaf_given_up c (subject r) single h p s) p s, single.one)
