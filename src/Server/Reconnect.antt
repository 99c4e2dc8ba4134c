-- ===== src/Server/Reconnect.antt =====
-- When the transporter of RabbitholeServerTransporter.cpp connects, and what it reports.
use rcp_flext.Prelude.{
  Bool-cases, inl, inr, ltb_ℤ, pos, ◌==◌, not, ◌&&◌, ℕ, ◌+◌, ◌≤◌, ◌≡◌, refl, Bool, false, Text,
  text, has_prefix, List, [], ◌∷◌, ◌++◌, if◌then◌else◌, arith, ◌∙◌, true, length,
}
use rcp_flext.Server.Rabbithole.{
  Rabbithole, Ask, connect_to, delay, failure, unhandled, rewrite_uri, failed, disconnected, unbind,
  Event, fails, closes, try_connect, is_empty, contains, report,
}

-- An address that starts with "http" is rewritten to the one with "ws" in its place, also one
-- that starts with "https".
pub rewrite_uri-http : (s : Text) → rewrite_uri (text "http" ++ s) ≡ text "ws" ++ s
unfolding rewrite_uri text has_prefix
rewrite_uri-http [] = refl
rewrite_uri-http (c ∷ s) = ground arith

-- The ends of connections: failures and closures, each with its code.
pub data End : Type 0 where
  failing closing : ℕ → End

abbrev pub to_event : End → Event
to_event (failing code) = fails code
to_event (closing code) = closes code

unfoldable pub end_all : Rabbithole → List End → Rabbithole × List Ask
unfolding failed disconnected
end_all r [] = (r, [])
end_all r (failing code ∷ es) =
    let (r', asks) = failed r code in let (r'', more) = end_all r' es in (r'', asks ++ more)
end_all r (closing code ∷ es) =
    let (r', asks) = disconnected r code in let (r'', more) = end_all r' es in (r'', asks ++ more)

-- A count over the asks.
abbrev pub total : (Ask → ℕ) → List Ask → ℕ
total f [] = 0
total f (x ∷ xs) = f x + total f xs

abbrev pub one_report : Ask → ℕ
one_report failure = 1
one_report unhandled = 1
one_report _ = 0

-- A connection that is opened, now or by the timer.
abbrev pub one_reconnect : Ask → ℕ
one_reconnect (connect_to t) = 1
one_reconnect (delay i) = 1
one_reconnect _ = 0

-- How many failures are reported, and how many connections opened.
abbrev pub reports : List Ask → ℕ
reports = total one_report

abbrev pub reconnects : List Ask → ℕ
reconnects = total one_reconnect

abbrev flag : Bool → ℕ
flag b = if b then 1 else 0

pub total-append : (f : Ask → ℕ) (xs ys : List Ask) → total f (xs ++ ys) ≡ total f xs + total f ys
total-append f [] ys = omega arith
total-append f (x ∷ xs) ys = omega (arith, total-append f xs ys)

failed-reports :
    (r : Rabbithole) (code : ℕ)
    → reports (failed r code).1 + flag (failed r code).0.one_time_error ≤ flag r.one_time_error
unfolding failed try_connect
failed-reports r code = ground arith

disconnected-reports :
    (r : Rabbithole) (code : ℕ)
    → reports (disconnected r code).1 + flag (disconnected r code).0.one_time_error
      ≤ flag r.one_time_error
unfolding disconnected try_connect
disconnected-reports r code = ground arith

failed-reconnects :
    (r : Rabbithole) (code : ℕ)
    → r.do_try_connect ≡ false
    → (reconnects (failed r code).1 ≡ 0) × ((failed r code).0.do_try_connect ≡ false)
unfolding failed try_connect
failed-reconnects r code e = (ground arith, ground arith)

disconnected-reconnects :
    (r : Rabbithole) (code : ℕ)
    → r.do_try_connect ≡ false
    → (reconnects (disconnected r code).1 ≡ 0) × ((disconnected r code).0.do_try_connect ≡ false)
unfolding disconnected try_connect
disconnected-reconnects r code e = (ground arith, ground arith)

end_all-flag :
    (r : Rabbithole) (es : List End)
    → reports (end_all r es).1 + flag (end_all r es).0.one_time_error ≤ flag r.one_time_error
unfolding end_all
end_all-flag r [] = omega arith
end_all-flag r (failing code ∷ es) =
    let r' = (failed r code).0 in
    omega (
      arith,
      total-append one_report (failed r code).1 (end_all r' es).1,
      failed-reports r code,
      end_all-flag r' es,
    )
end_all-flag r (closing code ∷ es) =
    let r' = (disconnected r code).0 in
    omega (
      arith,
      total-append one_report (disconnected r code).1 (end_all r' es).1,
      disconnected-reports r code,
      end_all-flag r' es,
    )

flag-le : (b : Bool) → flag b ≤ 1
flag-le b = ground arith

-- Whatever failures and closures follow one another while no connection opens, at most one
-- failure is reported.
pub end_all-reports : (r : Rabbithole) (es : List End) → reports (end_all r es).1 ≤ 1
end_all-reports r es = omega (arith, end_all-flag r es, flag-le r.one_time_error)

end_all-quiet :
    (r : Rabbithole) (es : List End) → r.do_try_connect ≡ false → reconnects (end_all r es).1 ≡ 0
unfolding end_all
end_all-quiet r [] e = refl
end_all-quiet r (failing code ∷ es) e =
    let (none_now, off) = failed-reconnects r code e in
    total-append one_reconnect (failed r code).1 (end_all (failed r code).0 es).1
    ∙ (omega (arith, none_now, end_all-quiet (failed r code).0 es off))
end_all-quiet r (closing code ∷ es) e =
    let (none_now, off) = disconnected-reconnects r code e in
    total-append one_reconnect (disconnected r code).1 (end_all (disconnected r code).0 es).1
    ∙ (omega (arith, none_now, end_all-quiet (disconnected r code).0 es off))

-- After `unbind`, no failure and no closure, in any number and order, opens a connection or
-- starts the timer.
pub unbind-end_all : (r : Rabbithole) (es : List End) → reconnects (end_all (unbind r).0 es).1 ≡ 0
unfolding unbind
unbind-end_all r es = end_all-quiet (record r { do_try_connect = false }) es refl

-- A transporter that is to stay connected: it has an address and a positive interval.
abbrev pub Persists : Rabbithole → Type 0
Persists r =
    (r.do_try_connect ≡ true) × (ltb_ℤ (pos 0) r.interval ≡ true) × (is_empty r.uri ≡ false)

one_reconnect-report : (code : ℕ) → one_reconnect (report code) ≡ 0
one_reconnect-report code = ground arith

failed-retries :
    (r : Rabbithole) (code : ℕ)
    → Persists r
    → (reconnects (failed r code).1 ≡ 1) × Persists (failed r code).0
unfolding failed try_connect
failed-retries r code (try, positive, addressed) =
    elim (Bool-cases (not (code == 200) && r.one_time_error)) [
      | inl b ↦
          rw (b, try, positive, addressed)
            (omega (arith, one_reconnect-report code), (refl, refl, refl))
      | inr b ↦ rw (b, try, positive, addressed) (refl, (refl, refl, refl))
    ]

disconnected-retries :
    (r : Rabbithole) (code : ℕ)
    → Persists r
    → (reconnects (disconnected r code).1 ≡ 1) × Persists (disconnected r code).0
unfolding disconnected try_connect
disconnected-retries r code (try, positive, addressed) =
    elim (Bool-cases ((code == 4500) && contains (text "/public/rcpserver/connect") r.uri)) [
      | inl b ↦ rw (b, try, positive, addressed) (refl, (refl, refl, refl))
      | inr b ↦ rw (b, try, positive, addressed) (refl, (refl, refl, refl))
    ]

-- A transporter that is to connect, with an address and a positive interval, answers each failure
-- and each closure, in any number and order, by asking for exactly one connection, at once or by
-- the timer.
pub end_all-retries :
    (r : Rabbithole) (es : List End) → Persists r → reconnects (end_all r es).1 ≡ length es
unfolding end_all
end_all-retries r [] h = refl
end_all-retries r (failing code ∷ es) h =
    let (one, h') = failed-retries r code h in
    total-append one_reconnect (failed r code).1 (end_all (failed r code).0 es).1
    ∙ (omega (arith, one, end_all-retries (failed r code).0 es h'))
end_all-retries r (closing code ∷ es) h =
    let (one, h') = disconnected-retries r code h in
    total-append one_reconnect (disconnected r code).1 (end_all (disconnected r code).0 es).1
    ∙ (omega (arith, one, end_all-retries (disconnected r code).0 es h'))
