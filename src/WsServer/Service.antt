-- ===== src/WsServer/Service.antt =====
-- websocketServer.h: the service thread and `stop`. The thread, which the constructor starts, sets
-- `m_run` itself when it begins; the queue is empty here.
use rcp_flext.Prelude.{◌≡◌, refl, ◌≢◌, Bool, true, false, ◌⊎◌, inl, inr, subst, sym}

pub data Phase : Type 0 where
  not_begun checking waiting ended : Phase

pub record Service : Type 0 where
  pub phase : Phase
  pub run : Bool
  pub is_stopped : Bool

-- The steps of the thread in `process_messages`, and `stop` on another thread. A thread that waits can
-- wake up at any time; `stop` wakes it.
pub data ServiceStep : Service → Service → Type 0 where
  begin :
      (run stopped : Bool)
      → ServiceStep
          (record { phase = not_begun; run = run; is_stopped = stopped })
          (record { phase = checking; run = true; is_stopped = stopped })
  sleep :
      (stopped : Bool)
      → ServiceStep
          (record { phase = checking; run = true; is_stopped = stopped })
          (record { phase = waiting; run = true; is_stopped = stopped })
  leave :
      (stopped : Bool)
      → ServiceStep
          (record { phase = checking; run = false; is_stopped = stopped })
          (record { phase = ended; run = false; is_stopped = stopped })
  wake :
      (run stopped : Bool)
      → ServiceStep
          (record { phase = waiting; run = run; is_stopped = stopped })
          (record { phase = checking; run = run; is_stopped = stopped })
  stopping :
      (phase : Phase) (run : Bool)
      → ServiceStep
          (record { phase = phase; run = run; is_stopped = false })
          (record { phase = phase; run = false; is_stopped = true })

pub data ServiceReach (s : Service) : Service → Type 0 where
  here : ServiceReach s s
  next : {t u : Service} → ServiceReach s t → ServiceStep t u → ServiceReach s u

-- `stop` came first: the flag that it cleared is set again.
abbrev IsLost : Service → Type 0
IsLost s = (s.is_stopped ≡ true) × ((s.phase ≡ not_begun) ⊎ ((s.run ≡ true) × (s.phase ≢ ended)))

step-IsLost : {s t : Service} → ServiceStep s t → IsLost s → IsLost t
step-IsLost (begin run stopped) h = (h.0, inr (refl, λ e. cc))
step-IsLost (sleep stopped) h = (h.0, inr (refl, λ e. cc))
step-IsLost (leave stopped) h = elim h.1 [ inl e ↦ cc | inr e ↦ let f = e.0 in cc ]
step-IsLost (wake run stopped) h = elim h.1 [ inl e ↦ cc | inr e ↦ (h.0, inr (e.0, λ f. cc)) ]
step-IsLost (stopping phase run) h = let e = h.0 in cc

reach-IsLost : {s t : Service} → ServiceReach s t → IsLost s → IsLost t
reach-IsLost here h = h
reach-IsLost (next r x) h = step-IsLost x (reach-IsLost r h)

-- `stop` came later: the flag stays cleared.
abbrev IsLeaving : Service → Type 0
IsLeaving s = (s.is_stopped ≡ true) × (s.run ≡ false) × (s.phase ≢ not_begun)

step-IsLeaving : {s t : Service} → ServiceStep s t → IsLeaving s → IsLeaving t
step-IsLeaving (begin run stopped) h = absurd (h.2 refl)
step-IsLeaving (sleep stopped) h = let e = h.1 in cc
step-IsLeaving (leave stopped) h = (h.0, refl, λ e. cc)
step-IsLeaving (wake run stopped) h = (h.0, h.1, λ e. cc)
step-IsLeaving (stopping phase run) h = let e = h.0 in cc

reach-IsLeaving : {s t : Service} → ServiceReach s t → IsLeaving s → IsLeaving t
reach-IsLeaving here h = h
reach-IsLeaving (next r x) h = step-IsLeaving x (reach-IsLeaving r h)

-- A thread can end from here.
abbrev pub CanEnd : Service → Type 0
CanEnd s = (u : Service) × ServiceReach s u × (u.phase ≡ ended)

leaving-CanEnd :
    (phase : Phase) (stopped : Bool)
    → phase ≢ not_begun
    → CanEnd (record { phase = phase; run = false; is_stopped = stopped })
leaving-CanEnd not_begun stopped h = absurd (h refl)
leaving-CanEnd checking stopped h = (_, next here (leave stopped), refl)
leaving-CanEnd waiting stopped h = (_, next (next here (wake false stopped)) (leave stopped), refl)
leaving-CanEnd ended stopped h = (_, here, refl)

IsLeaving-CanEnd : (s : Service) → IsLeaving s → CanEnd s
IsLeaving-CanEnd s h =
    subst (λ run. CanEnd (record { phase = s.phase; run = run; is_stopped = s.is_stopped }))
      (sym h.1) (leaving-CanEnd s.phase s.is_stopped h.2)

-- A service right after `stop`, and what it then comes to.
abbrev pub just_stopped : Phase → Service
just_stopped phase = record { phase = phase; run = false; is_stopped = true }

abbrev pub Fate : Phase → Service → Type 0
Fate not_begun t = t.phase ≢ ended
Fate _ t = CanEnd t

lost_fate : (t : Service) → IsLost t → t.phase ≢ ended
lost_fate t h e = elim h.1 [ inl f ↦ cc | inr f ↦ f.1 e ]

-- If `stop` comes when the service thread has begun, the thread can end from every state that it
-- then reaches; if `stop` comes before the thread has begun, it is in no such state ended.
pub stop-Fate : (phase : Phase) (t : Service) → ServiceReach (just_stopped phase) t → Fate phase t
stop-Fate not_begun t r = lost_fate t (reach-IsLost r (refl, inl refl))
stop-Fate checking t r = IsLeaving-CanEnd t (reach-IsLeaving r (refl, refl, λ e. cc))
stop-Fate waiting t r = IsLeaving-CanEnd t (reach-IsLeaving r (refl, refl, λ e. cc))
stop-Fate ended t r = IsLeaving-CanEnd t (reach-IsLeaving r (refl, refl, λ e. cc))
