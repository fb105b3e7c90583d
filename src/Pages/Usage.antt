-- ===== src/Pages/Usage.antt =====
-- web/app/(app)/usage/page.tsx: the counters of the server over time.
pub mod Rows
use Prim.Native.String.{String}
use idpforge.Base.{
  ℕ, zero, suc, ◌+◌, ◌-◌, ◌*◌, ◌/◌, ◌%◌, ◌≤◌, ◌<◌, ◌≡◌, refl, sym, ap, ◌∙◌, inl, inr, Bool, true,
  false, Option, none, some, List, [], ◌∷◌, ◌++◌, map, Str, codes, if◌then◌else◌, length, ltb, leb,
  ◌==◌, arith, All, All-of, Bool-cases,
}
use idpforge.Permission.{Locals, Resolved, has_permission_ui}
use idpforge.Router.Fiber.{Fiber}
use idpforge.Router.Serve.{Gate}
use idpforge.Clients.{decimal}
use idpforge.Console.{metrics_history}
use idpforge.Console.Nav.{me_permissions}
use idpforge.Pages.Data.{MetricsSnapshot}
use idpforge.Pages.View.{
  Shown, Tone, good, plain, title, text, number, badge, button, each, sections, ◌&◌, AllOffered,
  AllOffered-sections, AllOffered-each, AllOffered-map,
}
use idpforge.Pages.Report.{Task, load, AllPermitted, AllServed, AllPermitted-AllServed, SignedIn}

pub data ByteUnit : Type 0 where
  kb mb gb tb : ByteUnit

-- The text of a size: plain bytes, or tenths of a unit.
pub data Size : Type 0 where
  bytes : ℕ → Size
  tenths : ℕ → ByteUnit → Size

-- The loop of `formatBytes`: the divisor so far with its unit, and the units that are left.
unfoldable pub scale : ℕ → ℕ → ByteUnit → List ByteUnit → ℕ × ByteUnit
scale n divisor unit [] = (divisor, unit)
scale n divisor unit (larger ∷ units) =
    let rest = scale n (divisor * 1_024) larger units in
    if leb (1_024 * divisor) n then rest else (divisor, unit)

-- `toFixed(1)` of a quotient, in tenths: the nearest, and the larger of two.
abbrev pub to_fixed : ℕ → ℕ → ℕ
to_fixed n divisor = (20 * n + divisor) / (2 * divisor)

-- `formatBytes`
unfoldable pub format_bytes : ℕ → Size
unfolding scale
format_bytes n =
    if ltb n 1_024
    then bytes n
    else (let (divisor, unit) = scale n 1_024 kb (mb ∷ gb ∷ tb ∷ []) in
        tenths (to_fixed n divisor) unit)

abbrev pub unit_text : ByteUnit → Str
unit_text kb = codes " KB"
unit_text mb = codes " MB"
unit_text gb = codes " GB"
unit_text tb = codes " TB"

abbrev pub size_text : Size → Str
size_text (bytes n) = decimal n ++ codes " B"
size_text (tenths t unit) = decimal (t / 10) ++ (codes "." ++ (decimal (t % 10) ++ unit_text unit))

pub record StoragePoint : Type 0 where
  pub time : Str
  pub bytes : ℕ

pub record DeltaPoint : Type 0 where
  pub time : Str
  pub requests : ℕ
  pub login_success : ℕ
  pub login_failure : ℕ
  pub rate_limit_rejections : ℕ

pub record Usage : Type 0 where
  pub snapshots : List MetricsSnapshot
  pub days : ℕ

abbrev pub opened : Usage × List Task
opened = (record { snapshots = []; days = 30 }, load (metrics_history 30) ∷ [])

pub data Event : Type 0 where
  got_snapshots : List MetricsSnapshot → Event
  sets_days : ℕ → Event

-- The effect loads again where the days have changed.
unfoldable pub update : Event → Usage → Usage × List Task
update (got_snapshots xs) s = (record s { snapshots = xs }, [])
update (sets_days d) s =
    (record s { days = d }, if d == s.days then [] else load (metrics_history d) ∷ [])

abbrev pub latest : List MetricsSnapshot → Option MetricsSnapshot
latest [] = none
latest (x ∷ []) = some x
latest (x ∷ y ∷ xs) = latest (y ∷ xs)

-- `format_time` is the short format of the browser's locale.
module _ (format_time : Str → Str) where
  -- `toStoragePoints`
  abbrev pub to_storage_points : List MetricsSnapshot → List StoragePoint
  to_storage_points =
      map (λ (x : MetricsSnapshot). record {
        time = format_time x.timestamp;
        bytes = x.storage_bytes;
      })

  -- The numbers stop at 0, as `Math.max(0, …)` makes them.
  abbrev pub delta : MetricsSnapshot → MetricsSnapshot → DeltaPoint
  delta prev cur = record {
    time = format_time cur.timestamp;
    requests = cur.http_requests - prev.http_requests;
    login_success = cur.login_success - prev.login_success;
    login_failure = cur.login_failure - prev.login_failure;
    rate_limit_rejections = cur.rate_limit_rejections - prev.rate_limit_rejections;
  }

  -- `toDeltas`
  unfoldable pub to_deltas : List MetricsSnapshot → List DeltaPoint
  to_deltas [] = []
  to_deltas (x ∷ []) = []
  to_deltas (x ∷ y ∷ xs) = delta x y ∷ to_deltas (y ∷ xs)

abbrev pub total : (DeltaPoint → ℕ) → List DeltaPoint → ℕ
total f [] = 0
total f (p ∷ ps) = f p + total f ps

-- A counter that never falls from one snapshot to the next.
abbrev pub Rises : (MetricsSnapshot → ℕ) → List MetricsSnapshot → Type 0
Rises f [] = Unit
Rises f (x ∷ []) = Unit
Rises f (x ∷ y ∷ xs) = (f x ≤ f y) × Rises f (y ∷ xs)

abbrev pub final : (MetricsSnapshot → ℕ) → MetricsSnapshot → List MetricsSnapshot → ℕ
final f x [] = f x
final f x (y ∷ xs) = final f y xs

module _ (format_time : Str → Str) where
  -- No request is lost or counted twice: the requests of the intervals add up to the difference of
  -- the last snapshot and the first, where the server did not restart in between.
  pub deltas_add_up :
      (x : MetricsSnapshot) (xs : List MetricsSnapshot)
      → Rises (λ s. s.http_requests) (x ∷ xs)
      → x.http_requests + total (λ p. p.requests) (to_deltas format_time (x ∷ xs))
        ≡ final (λ s. s.http_requests) x xs
  unfolding to_deltas
  deltas_add_up x [] h = omega arith
  deltas_add_up x (y ∷ xs) (h, hs) = omega (arith, deltas_add_up y xs hs)

-- A size reads as its number of bytes, or in a unit of which it has at least one; the tenths differ
-- from the size by half a tenth at most, and below the largest unit never exceed "1024.0".
abbrev pub Reads : ℕ → Size → Type 0
Reads n (bytes m) = (m ≡ n) × (n < 1_024)
Reads n (tenths t kb) =
    (10 ≤ t) × (t ≤ 10_240) × (t * 2_048 ≤ 20 * n + 1_024) × (20 * n < t * 2_048 + 1_024)
Reads n (tenths t mb) =
    (10 ≤ t)
    × (t ≤ 10_240)
    × (t * 2_097_152 ≤ 20 * n + 1_048_576)
    × (20 * n < t * 2_097_152 + 1_048_576)
Reads n (tenths t gb) =
    (10 ≤ t)
    × (t ≤ 10_240)
    × (t * 2_147_483_648 ≤ 20 * n + 1_073_741_824)
    × (20 * n < t * 2_147_483_648 + 1_073_741_824)
Reads n (tenths t tb) =
    (10 ≤ t)
    × (t * 2_199_023_255_552 ≤ 20 * n + 1_099_511_627_776)
    × (20 * n < t * 2_199_023_255_552 + 1_099_511_627_776)

-- A size is shown in its unit: of each unit at least one, below the largest at most "1024.0", and
-- the tenths differ from the size by half a tenth at most.
pub format_bytes-Reads : (n : ℕ) → Reads n (format_bytes n)
unfolding format_bytes
format_bytes-Reads n = elim (Bool-cases (ltb n 1_024)) [
  | inl a ↦ rw a (refl, ground arith)
  | inr a ↦ elim (Bool-cases (leb 1_048_576 n)) [
    | inr b ↦ rw (a, b) (ground arith, ground arith, omega arith, omega arith)
    | inl b ↦ elim (Bool-cases (leb 1_073_741_824 n)) [
      | inr c ↦ rw (a, b, c) (ground arith, ground arith, omega arith, omega arith)
      | inl c ↦ elim (Bool-cases (leb 1_099_511_627_776 n)) [
        | inr d ↦ rw (a, b, c, d) (ground arith, ground arith, omega arith, omega arith)
        | inl d ↦ rw (a, b, c, d) (ground arith, omega arith, omega arith)
      ]
    ]
  ]
]
