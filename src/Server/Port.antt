-- ===== src/Server/Port.antt =====
-- ParameterServer.cpp: the transporter on a port, and the number of clients.
use rcp_flext.Prelude.{
  ◌||◌, ◌==◌, not, ℕ, zero, suc, ◌+◌, ◌≡◌, Bool, true, false, ◌&&◌, ℤ, pos, negsuc, ltb_ℤ, eq_ℤ,
  List, [], ◌∷◌, ◌++◌, Option, none, some, if◌then◌else◌, wrap, Bool-cases, inl, inr, arith, All,
  ◌≤ℤ◌,
}
use rcp_flext.Flext.{Out, to_out_int, error}

-- An IServerTransporter: the number by which the rcp server knows it, its port, and whether it listens.
pub record Transporter : Type 0 where
  pub name : ℕ
  pub port : ℕ
  pub is_listening : Bool

pub record PortState : Type 0 where
  pub raw : Bool
  pub transporter : Option Transporter
  pub client_count : ℤ
  -- the transporters that the rcp server has, and how many were made
  pub registered : ℕ → Bool
  pub made : ℕ

-- rcp_server_add_transporter and rcp_server_remove_transporter, in the constructors and destructors of
-- the transporters
abbrev pub add_transporter : ℕ → (ℕ → Bool) → ℕ → Bool
add_transporter n registered k = (n == k) || registered k

abbrev pub remove_transporter : ℕ → (ℕ → Bool) → ℕ → Bool
remove_transporter n registered k = not (n == k) && registered k

-- The destructor of a transporter that is given up.
abbrev pub drop_transporter : Option Transporter → (ℕ → Bool) → ℕ → Bool
drop_transporter none registered = registered
drop_transporter (some t) registered = remove_transporter t.name registered

-- `m_clientCount++`, `m_clientCount--` of an `int` within its bounds
abbrev pub next : ℤ → ℤ
next (pos n) = pos (n + 1)
next (negsuc zero) = pos 0
next (negsuc (suc n)) = negsuc n

abbrev pub previous : ℤ → ℤ
previous (pos zero) = negsuc 0
previous (pos (suc n)) = pos n
previous (negsuc n) = negsuc (n + 1)

-- What happens to the server object, and after it: a client comes, a client goes, `listen`.
pub data Happening : Type 0 where
  comes goes : Happening
  listens : ℤ → Bool → Happening

module _ (A : Type 0) where
  unfoldable pub connected : PortState → PortState × List (Out A)
  connected s =
      let count = next s.client_count in
      (record s { client_count = count }, to_out_int 2 count ∷ [])

  unfoldable pub disconnected : PortState → PortState × List (Out A)
  disconnected s =
      let count = previous s.client_count in
      if ltb_ℤ count (pos 0)
      then (record s { client_count = pos 0 }, error ∷ to_out_int 2 (pos 0) ∷ [])
      else (record s { client_count = count }, to_out_int 2 count ∷ [])

  unfoldable pub get_port : PortState → ℤ
  get_port s = elim s.transporter [ none ↦ pos 0 | some t ↦ pos t.port ]

  -- `m_transporter && m_transporter->isListening() && p == m_transporter->port()`
  abbrev pub is_same_port : Option Transporter → ℤ → Bool
  is_same_port none p = false
  is_same_port (some t) p = t.is_listening && eq_ℤ p (pos t.port)

  -- `bound` says whether the port can be bound; `bind` takes an `uint16_t`.
  abbrev pub with_new : PortState → ℤ → Bool → PortState
  with_new s p bound = record s {
    transporter = some (record { name = s.made; port = wrap 65536 p; is_listening = bound });
    client_count = pos 0;
    registered = drop_transporter s.transporter (add_transporter s.made s.registered);
    made = s.made + 1;
  }

  abbrev pub with_none : PortState → PortState
  with_none s = record s {
    transporter = none;
    registered = drop_transporter s.transporter s.registered;
  }

  -- `bound` says whether the port can be bound; `bind` takes an `uint16_t`.
  unfoldable pub listen : PortState → ℤ → Bool → PortState × List (Out A)
  listen s p bound =
      if s.raw
      then (s, [])
      else (if is_same_port s.transporter p
          then (s, [])
          else (if ltb_ℤ (pos 65535) p
              then (s, error ∷ [])
              else (if ltb_ℤ (pos 0) p
                  then (with_new s p bound, to_out_int 2 (pos 0) ∷ [])
                  else (with_none s, []))))

  unfoldable pub step : PortState → Happening → PortState × List (Out A)
  unfolding connected disconnected listen
  step s comes = connected s
  step s goes = disconnected s
  step s (listens p bound) = listen s p bound

  unfoldable pub steps : PortState → List Happening → PortState × List (Out A)
  unfolding step
  steps s [] = (s, [])
  steps s (h ∷ hs) =
      let (s', outs) = step s h in let (s'', more) = steps s' hs in (s'', outs ++ more)

  -- A number that is shown is not negative.
  abbrev pub IsShown : Out A → Type 0
  IsShown (to_out_int n i) = pos 0 ≤ℤ i
  IsShown _ = Unit

  abbrev pub IsPort : PortState → Type 0
  IsPort s = pos 0 ≤ℤ s.client_count

  next-nonneg : (c : ℤ) → pos 0 ≤ℤ c → pos 0 ≤ℤ next c
  next-nonneg (pos n) h = omega arith
  next-nonneg (negsuc n) h = absurd (omega arith)

  not-neg : (c : ℤ) → ltb_ℤ c (pos 0) ≡ false → pos 0 ≤ℤ c
  not-neg c h = ground arith

  connected-IsPort :
      (s : PortState) → IsPort s → IsPort (connected s).0 × All IsShown (connected s).1
  unfolding connected
  connected-IsPort s e = let h = next-nonneg s.client_count e in (h, (h, tt))

  disconnected-IsPort : (s : PortState) → IsPort (disconnected s).0 × All IsShown (disconnected s).1
  unfolding disconnected
  disconnected-IsPort s = elim (Bool-cases (ltb_ℤ (previous s.client_count) (pos 0))) [
    | inl b ↦ rw b (omega arith, (tt, (omega arith, tt)))
    | inr b ↦ let h = not-neg (previous s.client_count) b in rw b (h, (h, tt))
  ]

  -- To show something of `listen`, show it of its four results.
  pub listen_cases :
      (P : PortState × List (Out A) → Type 0) (s : PortState) (p : ℤ) (bound : Bool)
      → P (s, [])
      → P (s, error ∷ [])
      → P (with_new s p bound, to_out_int 2 (pos 0) ∷ [])
      → P (with_none s, [])
      → P (listen s p bound)
  unfolding listen
  listen_cases P s p bound kept failed replaced removed =
      go s.raw (is_same_port s.transporter p) (ltb_ℤ (pos 65535) p) (ltb_ℤ (pos 0) p)
    where
      go :
          (raw same large positive : Bool)
          → P (
              if raw
              then (s, [])
              else (if same
                  then (s, [])
                  else (if large
                      then (s, error ∷ [])
                      else (if positive
                          then (with_new s p bound, to_out_int 2 (pos 0) ∷ [])
                          else (with_none s, [])))))
      go true same large positive = kept
      go false true large positive = kept
      go false false true positive = failed
      go false false false true = replaced
      go false false false false = removed

  listen-IsPort :
      (s : PortState) (p : ℤ) (bound : Bool)
      → IsPort s
      → IsPort (listen s p bound).0 × All IsShown (listen s p bound).1
  listen-IsPort s p bound e =
      listen_cases (λ r. IsPort r.0 × All IsShown r.1) s p bound (e, tt) (e, (tt, tt))
        (omega arith, (omega arith, tt)) (e, tt)

  step-IsPort :
      (s : PortState) (h : Happening) → IsPort s → IsPort (step s h).0 × All IsShown (step s h).1
  unfolding step
  step-IsPort s comes e = connected-IsPort s e
  step-IsPort s goes e = disconnected-IsPort s
  step-IsPort s (listens p bound) e = listen-IsPort s p bound e

  All-append : (xs ys : List (Out A)) → All IsShown xs → All IsShown ys → All IsShown (xs ++ ys)
  All-append [] ys h k = k
  All-append (x ∷ xs) ys h k = (h.0, All-append xs ys h.1 k)

  -- If the count of clients is not negative, then after any sequence of clients that come or go
  -- and of `listen` messages it is not negative, and no negative number was sent to the outlet.
  pub steps-IsPort :
      (s : PortState) (hs : List Happening)
      → IsPort s
      → IsPort (steps s hs).0 × All IsShown (steps s hs).1
  unfolding steps
  steps-IsPort s [] e = (e, tt)
  steps-IsPort s (h ∷ hs) e =
      let (port_now, shown_now) = step-IsPort s h e in
      let (port_end, shown_later) = steps-IsPort (step s h).0 hs port_now in
      (port_end, All-append (step s h).1 (steps (step s h).0 hs).1 shown_now shown_later)
