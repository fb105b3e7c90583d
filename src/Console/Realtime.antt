-- ===== src/Console/Realtime.antt =====
-- web/lib/ws.ts, `useRealtime`: the connection of the live feed, as the steps of its callbacks.
use idpforge.Base.{
  ℕ, zero, suc, ◌+◌, ◌*◌, ◌≤◌, min, ◌≡◌, refl, ◌∙◌, Bool, true, false, Option, none, some, List, [],
  ◌∷◌, ◌++◌, Str, arith, if_cases, if◌then◌else◌,
}

-- The variables of the effect, with the count of the sockets that it has opened and the frames that
-- it has passed on; `retry_timer` holds the delay of a timer that is running.
pub record Realtime : Type 0 where
  pub closed : Bool
  pub retry_delay : ℕ
  pub retry_timer : Option ℕ
  pub sockets : ℕ
  pub passed_on : List Str

-- What the browser calls: the callbacks of the socket, the timer, and the cleanup. A frame that is
-- no JSON is `none`.
pub data Event : Type 0 where
  message : Option Str → Event
  opens closes timer_fires unmounts : Event

unfoldable pub connect : Realtime → Realtime
connect s = if s.closed then s else record s { sockets = s.sockets + 1 }

abbrev pub on_message : Option Str → Realtime → Realtime
on_message none s = s
on_message (some data_text) s = record s { passed_on = s.passed_on ++ data_text ∷ [] }

unfoldable pub on_close : Realtime → Realtime
on_close s =
    if s.closed
    then s
    else record s { retry_timer = some s.retry_delay; retry_delay = min (s.retry_delay * 2) 30_000 }

-- The timer's callback; `none` is a timer that is not running.
unfoldable pub fire : Option ℕ → Realtime → Realtime
fire none s = s
fire (some delay) s = connect (record s { retry_timer = none })

unfoldable pub step : Event → Realtime → Realtime
step (message frame) s = on_message frame s
step opens s = record s { retry_delay = 1_000 }
step closes s = on_close s
step timer_fires s = fire s.retry_timer s
step unmounts s = record s { closed = true; retry_timer = none }

unfoldable pub run : List Event → Realtime → Realtime
run [] s = s
run (e ∷ es) s = run es (step e s)

-- The effect up to its first `connect`.
abbrev pub mounted : Realtime
mounted = record {
  closed = false;
  retry_delay = 1_000;
  retry_timer = none;
  sockets = 1;
  passed_on = [];
}

-- The delays lie between a second and half a minute.
pub record InRange (s : Realtime) : Type 0 where
  pub next_delay : (1_000 ≤ s.retry_delay) × (s.retry_delay ≤ 30_000)
  pub waiting : (d : ℕ) → s.retry_timer ≡ some d → (1_000 ≤ d) × (d ≤ 30_000)

connect-InRange : (s : Realtime) → InRange s → InRange (connect s)
unfolding connect
connect-InRange s r =
    if_cases InRange s.closed s (record s { sockets = s.sockets + 1 }) r
      (record { next_delay = r.next_delay; waiting = r.waiting })

fire-InRange : (timer : Option ℕ) (s : Realtime) → InRange s → InRange (fire timer s)
unfolding fire
fire-InRange none s r = r
fire-InRange (some delay) s r =
    connect-InRange (record s { retry_timer = none })
      (record { next_delay = r.next_delay; waiting = λ d h. cc })

on_close-InRange : (s : Realtime) → InRange s → InRange (on_close s)
unfolding on_close
on_close-InRange s r =
    let (low, high) = r.next_delay in
    if_cases InRange s.closed s _ r
      (record { next_delay = (omega arith, omega arith); waiting = λ d h. ground arith })

step-InRange : (e : Event) (s : Realtime) → InRange s → InRange (step e s)
unfolding step
step-InRange (message none) s r = r
step-InRange (message (some t)) s r = record { next_delay = r.next_delay; waiting = r.waiting }
step-InRange opens s r = record { next_delay = (omega arith, omega arith); waiting = r.waiting }
step-InRange closes s r = on_close-InRange s r
step-InRange timer_fires s r = fire-InRange s.retry_timer s r
step-InRange unmounts s r = record { next_delay = r.next_delay; waiting = λ d h. cc }

run-InRange_from : (es : List Event) (s : Realtime) → InRange s → InRange (run es s)
unfolding run
run-InRange_from [] s r = r
run-InRange_from (e ∷ es) s r = run-InRange_from es (step e s) (step-InRange e s r)

-- Whatever the socket, the timer and the component do, a retry waits for at least a second and at
-- most half a minute.
pub run-InRange : (es : List Event) → InRange (run es mounted)
run-InRange es =
    run-InRange_from es mounted
      (record { next_delay = (omega arith, omega arith); waiting = λ d h. cc })

-- The effect is over: no timer runs.
abbrev Over : Realtime → Type 0
Over s = (s.closed ≡ true) × (s.retry_timer ≡ none)

step-Over : (e : Event) (s : Realtime) → Over s → Over (step e s) × ((step e s).sockets ≡ s.sockets)
unfolding step on_close fire
step-Over (message none) s o = (o, refl)
step-Over (message (some t)) s o = (o, refl)
step-Over opens s o = (o, refl)
step-Over closes s (c, t) = rw c ((refl, t), refl)
step-Over timer_fires s (c, t) = rw t ((c, refl), refl)
step-Over unmounts s (c, t) = ((refl, refl), refl)

run-Over :
    (es : List Event) (s : Realtime) → Over s → Over (run es s) × ((run es s).sockets ≡ s.sockets)
unfolding run
run-Over [] s o = (o, refl)
run-Over (e ∷ es) s o =
    let (next, same) = step-Over e s o in
    let (rest, also) = run-Over es (step e s) next in (rest, also ∙ same)

-- After the component is gone no socket is opened again, whatever was waiting when it went.
pub unmount_is_final :
    (before after : List Event)
    → (run after (step unmounts (run before mounted))).sockets ≡ (run before mounted).sockets
unfolding step
unmount_is_final before after =
    (run-Over after (record (run before mounted) { closed = true; retry_timer = none })
      (refl, refl)).1

-- Failed attempts, each with its timer running out.
abbrev pub outage : ℕ → List Event
outage zero = []
outage (suc n) = closes ∷ timer_fires ∷ outage n

step-retry :
    (s : Realtime)
    → s.closed ≡ false
    → ((step timer_fires (step closes s)).closed ≡ false)
      × ((step timer_fires (step closes s)).sockets ≡ s.sockets + 1)
unfolding step on_close fire connect
step-retry s c = ground arith

outage_retries_from :
    (n : ℕ) (s : Realtime) → s.closed ≡ false → (run (outage n) s).sockets ≡ s.sockets + n
unfolding run
outage_retries_from zero s c = omega arith
outage_retries_from (suc n) s c =
    let (still, more) = step-retry s c in
    outage_retries_from n (step timer_fires (step closes s)) still ∙ omega (arith, more)

-- Retrying never ends by itself: after `n` failed attempts, one after the other, the effect has
-- opened `n` further sockets.
pub outage_retries : (n : ℕ) → (run (outage n) mounted).sockets ≡ 1 + n
outage_retries n = outage_retries_from n mounted refl
