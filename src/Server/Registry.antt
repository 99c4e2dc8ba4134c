-- ===== src/Server/Registry.antt =====
-- The rcp server has the transporters that the object of ParameterServer.cpp holds.
use rcp_flext.Prelude.{
  ℕ, ◌+◌, ◌<◌, ◌≡◌, refl, Bool, true, false, ◌&&◌, ◌||◌, pos, List, [], ◌∷◌, Option, none, some,
  ◌==◌, if◌then◌else◌, arith, Bool-cases, ltb_ℤ, inl, inr, subst,
}
use rcp_flext.Flext.{Flext}
use rcp_flext.WsClient.Defs.{is_it}
use rcp_flext.Slip.Decoder.{created, threw}
use rcp_flext.Server.Port.{
  PortState, Transporter, Happening, comes, goes, listens, step, connected, disconnected,
  listen_cases, add_transporter, drop_transporter, previous,
}
use rcp_flext.Server.Tunnel.{Tunnel}
use rcp_flext.Server.Object.{
  Object, message, messages, Message, on_port, sets_rabbithole, sets_rabbithole_interval, in_tunnel,
  set_rabbithole, set_rabbithole_interval, destroy, plain_object, raw_object, create_object,
  drop_name, hole_made, is_raw,
}

abbrev pub is_transporter : Option Transporter → ℕ → Bool
is_transporter none n = false
is_transporter (some t) n = t.name == n

-- The names of the transporter and of the rabbithole transporter that are held.
pub record IsKept (transporter : Option Transporter) (hole : Option ℕ) (registered : ℕ → Bool)
    (made : ℕ) : Type 0 where
  pub exact : (n : ℕ) → registered n ≡ is_transporter transporter n || is_it hole n
  pub below : (n : ℕ) → is_transporter transporter n || is_it hole n ≡ true → n < made
  pub apart : (n : ℕ) → is_transporter transporter n && is_it hole n ≡ false

abbrev pub IsRegistered : Object → Type 0
IsRegistered o = IsKept o.port.transporter o.hole_name o.port.registered o.port.made

new-IsKept :
    (t : Option Transporter) (hole : Option ℕ) (registered : ℕ → Bool) (made port : ℕ) (b : Bool)
    → IsKept t hole registered made
    → IsKept
        (some (record { name = made; port = port; is_listening = b }))
        hole
        (drop_transporter t (add_transporter made registered))
        (made + 1)
new-IsKept none hole registered made port b k = record {
  exact = λ n. ground (arith, k.exact n, k.below n, k.apart n);
  below = λ n h. ground (arith, k.below n);
  apart = λ n. ground (arith, k.below n);
}
new-IsKept (some t) hole registered made port b k = record {
  exact = λ n. ground (arith, k.exact n, k.below n, k.apart n);
  below = λ n h. ground (arith, k.below n);
  apart = λ n. ground (arith, k.below n);
}

none-IsKept :
    (t : Option Transporter) (hole : Option ℕ) (registered : ℕ → Bool) (made : ℕ)
    → IsKept t hole registered made
    → IsKept none hole (drop_transporter t registered) made
none-IsKept none hole registered made k = k
none-IsKept (some t) hole registered made k = record {
  exact = λ n. ground (arith, k.exact n, k.apart n);
  below = λ n h. ground (arith, k.below n);
  apart = λ n. refl;
}

hole-IsKept :
    (t : Option Transporter) (registered : ℕ → Bool) (made : ℕ)
    → IsKept t none registered made
    → IsKept t (some made) (add_transporter made registered) (made + 1)
hole-IsKept t registered made k = record {
  exact = λ n. ground (arith, k.exact n);
  below = λ n h. ground (arith, k.below n);
  apart = λ n. ground (arith, k.below n);
}

-- What `step` leaves alone, it keeps.
abbrev KeepsPort : Option ℕ → PortState → Type 0
KeepsPort hole s = IsKept s.transporter hole s.registered s.made

module _ (A : Type 0) where
  step-IsKept :
      (hole : Option ℕ) (s : PortState) (h : Happening)
      → KeepsPort hole s
      → KeepsPort hole (step A s h).0
  unfolding step connected disconnected
  step-IsKept hole s comes k = k
  step-IsKept hole s goes k = elim (Bool-cases (ltb_ℤ (previous s.client_count) (pos 0))) [
    | inl b ↦ rw b k
    | inr b ↦ rw b k
  ]
  step-IsKept hole s (listens p bound) k =
      listen_cases A (λ r. KeepsPort hole r.0) s p bound k k
        (new-IsKept s.transporter hole s.registered s.made _ bound k)
        (none-IsKept s.transporter hole s.registered s.made k)

  hole_made-IsRegistered :
      (s : PortState) (hole : Option ℕ) (tunnel : Tunnel)
      → KeepsPort hole s
      → IsRegistered (hole_made s hole tunnel)
  hole_made-IsRegistered s none tunnel k = hole-IsKept s.transporter s.registered s.made k
  hole_made-IsRegistered s (some n) tunnel k = k

  pub message-IsRegistered :
      (o : Object) (x : Message) → IsRegistered o → IsRegistered (message A o x)
  unfolding message set_rabbithole set_rabbithole_interval
  message-IsRegistered o (on_port h) k = step-IsKept o.hole_name o.port h k
  message-IsRegistered o (sets_rabbithole w uri) k =
      hole_made-IsRegistered o.port o.hole_name o.tunnel k
  message-IsRegistered o (sets_rabbithole_interval w i) k = k
  message-IsRegistered o (in_tunnel w mv) k = k

  messages-IsRegistered :
      (o : Object) (xs : List Message) → IsRegistered o → IsRegistered (messages A o xs)
  unfolding messages
  messages-IsRegistered o [] k = k
  messages-IsRegistered o (x ∷ xs) k =
      messages-IsRegistered (message A o x) xs (message-IsRegistered o x k)

destroy-empty :
    (t : Option Transporter) (hole : Option ℕ) (registered : ℕ → Bool) (made n : ℕ)
    → IsKept t hole registered made
    → drop_name hole (drop_transporter t registered) n ≡ false
destroy-empty none none registered made n k = ground (arith, k.exact n)
destroy-empty none (some h) registered made n k = ground (arith, k.exact n)
destroy-empty (some t) none registered made n k = ground (arith, k.exact n)
destroy-empty (some t) (some h) registered made n k = ground (arith, k.exact n)

plain_object-IsRegistered : IsRegistered plain_object
plain_object-IsRegistered = record { exact = λ n. refl; below = λ n h. cc; apart = λ n. refl }

raw_object-IsRegistered : IsRegistered raw_object
raw_object-IsRegistered = record {
  exact = λ n. ground arith;
  below = λ n h. ground arith;
  apart = λ n. ground arith;
}

module _ (fx : Flext) where
  pub create-IsRegistered :
      (argv : List fx.Atom) (o : Object) → create_object fx true argv ≡ created o → IsRegistered o
  unfolding create_object
  create-IsRegistered argv o e =
      subst (λ c. elim c as (λ c. Type 0) [ threw ↦ Unit | created o ↦ IsRegistered o ]) e
        (either (is_raw fx argv))
    where
      either : (b : Bool) → IsRegistered (if b then raw_object else plain_object)
      either true = raw_object-IsRegistered
      either false = plain_object-IsRegistered

  -- After the constructor and any sequence of messages, clients and events of the rabbithole
  -- transporter, the rcp server has exactly the transporters that the object holds, all
  -- different; after the destructor it has none.
  pub registered_lem :
      (argv : List fx.Atom) (o : Object) (xs : List Message)
      → create_object fx true argv ≡ created o
      → let o' = messages fx.Atom o xs in
        IsRegistered o' × ((n : ℕ) → (destroy o').port.registered n ≡ false)
  unfolding destroy
  registered_lem argv o xs e =
      let k = messages-IsRegistered fx.Atom o xs (create-IsRegistered argv o e) in
      let o' = messages fx.Atom o xs in
      (k, λ n. destroy-empty o'.port.transporter o'.hole_name o'.port.registered o'.port.made n k)
