-- ===== src/Pages/Time.antt =====
-- web/lib/time.ts, `formatRelative`: how long ago an instant was, in the unit that suits it.
use idpforge.Base.{ℕ, ◌+◌, ◌-◌, ◌*◌, ◌/◌, ◌≤◌, ◌<◌, inl, inr, arith, if◌then◌else◌, ltb, Bool-cases}

-- What the text says; a later instant than the present one is "just now" as well.
pub data Ago : Type 0 where
  just_now on_its_date : Ago
  seconds minutes hours days : ℕ → Ago

-- `Math.round(n / per)`, for an even `per`
abbrev pub rounded : ℕ → ℕ → ℕ
rounded n per = (n + per / 2) / per

-- Both instants in milliseconds.
unfoldable pub format_relative : ℕ → ℕ → Ago
format_relative now at =
    let diff_sec = rounded (now - at) 1_000 in
    let diff_min = rounded diff_sec 60 in
    let diff_hr = rounded diff_min 60 in
    let diff_day = rounded diff_hr 24 in
    if ltb diff_sec 5
    then just_now
    else if ltb diff_sec 60
    then seconds diff_sec
    else if ltb diff_min 60
    then minutes diff_min
    else if ltb diff_hr 24
    then hours diff_hr
    else if ltb diff_day 7
    then days diff_day
    else on_its_date

-- The number lies in its unit, and differs from the time that has passed by half a unit and what
-- the smaller units were rounded by, at most.
abbrev pub Fits : ℕ → Ago → Type 0
Fits d just_now = d < 4_500
Fits d (seconds n) = (5 ≤ n) × (n < 60) × (n * 1_000 ≤ d + 500) × (d < n * 1_000 + 500)
Fits d (minutes n) = (1 ≤ n) × (n < 60) × (n * 60_000 ≤ d + 30_500) × (d < n * 60_000 + 30_500)
Fits d (hours n) =
    (1 ≤ n) × (n < 24) × (n * 3_600_000 ≤ d + 1_830_500) × (d < n * 3_600_000 + 1_830_500)
Fits d (days n) =
    (1 ≤ n) × (n < 7) × (n * 86_400_000 ≤ d + 45_030_500) × (d < n * 86_400_000 + 45_030_500)
Fits d on_its_date = 6 * 86_400_000 ≤ d

Fits-below :
    (d diff_sec diff_min diff_hr diff_day : ℕ)
    → (diff_sec * 1_000 ≤ d + 500) × (d < diff_sec * 1_000 + 500)
    → (diff_min * 60 ≤ diff_sec + 30) × (diff_sec < diff_min * 60 + 30)
    → (diff_hr * 60 ≤ diff_min + 30) × (diff_min < diff_hr * 60 + 30)
    → (diff_day * 24 ≤ diff_hr + 12) × (diff_hr < diff_day * 24 + 12)
    → Fits d (
        if ltb diff_sec 5
        then just_now
        else if ltb diff_sec 60
        then seconds diff_sec
        else if ltb diff_min 60
        then minutes diff_min
        else if ltb diff_hr 24
        then hours diff_hr
        else if ltb diff_day 7
        then days diff_day
        else on_its_date)
Fits-below d diff_sec diff_min diff_hr diff_day s m h y = elim (Bool-cases (ltb diff_sec 5)) [
  | inl a ↦ rw a ground arith
  | inr a ↦ elim (Bool-cases (ltb diff_sec 60)) [
    | inl b ↦ rw (a, b) (ground arith, ground arith, omega arith, omega arith)
    | inr b ↦ elim (Bool-cases (ltb diff_min 60)) [
      | inl c ↦ rw (a, b, c) (ground arith, ground arith, omega arith, omega arith)
      | inr c ↦ elim (Bool-cases (ltb diff_hr 24)) [
        | inl e ↦ rw (a, b, c, e) (ground arith, ground arith, omega arith, omega arith)
        | inr e ↦ elim (Bool-cases (ltb diff_day 7)) [
          | inl f ↦ rw (a, b, c, e, f) (ground arith, ground arith, omega arith, omega arith)
          | inr f ↦ rw (a, b, c, e, f) ground arith
        ]
      ]
    ]
  ]
]

-- The time that is shown is the time that has passed, up to the rounding, and never reads as a full
-- larger unit.
pub format_relative-Fits : (now at : ℕ) → Fits (now - at) (format_relative now at)
unfolding format_relative
format_relative-Fits now at =
    let diff_sec = rounded (now - at) 1_000 in
    let diff_min = rounded diff_sec 60 in
    let diff_hr = rounded diff_min 60 in
    let diff_day = rounded diff_hr 24 in
    Fits-below (now - at) diff_sec diff_min diff_hr diff_day (omega arith, omega arith)
      (omega arith, omega arith) (omega arith, omega arith) (omega arith, omega arith)
