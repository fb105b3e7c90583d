-- ===== src/Pages/Audit/Live.antt =====
-- The live entries of web/app/(app)/audit/page.tsx, against the log of the server, which it reads by
-- `Reader.Query` of internal/audit/query.go.
use idpforge.Base.{
  ℕ, ◌+◌, Bool, true, ◌&&◌, ◌||◌, List, [], ◌∷◌, take, drop, keep, if◌then◌else◌, ◌==◌, ltb, Str,
  codes, str_eq,
}
use idpforge.Pages.Audit.{Entry, AuditEvent, FeedEvent, audit_log, announcement, Params, live_entry}

-- One condition of the query; the page names no other column.
unfoldable pub holds : Str × Str → Entry → Bool
holds (name, v) e =
    if str_eq name (codes "actor_id")
    then str_eq e.actor_id v
    else if str_eq name (codes "action")
    then str_eq e.action v
    else str_eq e.status v

unfoldable pub hold_all : List (Str × Str) → Entry → Bool
unfolding holds
hold_all [] e = true
hold_all (f ∷ fs) e = holds f e && hold_all fs e

abbrev pub clamped : ℕ → ℕ
clamped limit = if limit == 0 || ltb 1000 limit then 100 else limit

-- `Reader.Query`, on the rows of the log in the order that it asks for, the newest first. Of a row
-- only what the page shows is kept.
unfoldable pub query_logs : Params → List Entry → List Entry
unfolding hold_all
query_logs p rows = take (clamped p.limit) (drop p.offset (keep (hold_all p.filters) rows))

-- What the feed tells of an entry: all that the table shows but the address of the actor.
abbrev pub told : Entry → AuditEvent
told e = record {
  actor_id = e.actor_id;
  action = e.action;
  target_resource = e.target_resource;
  status = e.status;
  timestamp = e.timestamp;
}

-- What a feed tells, the newest first, before older entries.
abbrev pub told_by : List FeedEvent → List AuditEvent → List AuditEvent
told_by [] older = older
told_by (announcement text ∷ es) older = told_by es older
told_by (audit_log e ∷ es) older = told_by es (e ∷ older)

-- The entries of a feed, the newest first, on top of a list; `n` numbers the first of them.
abbrev pub newest_first : ℕ → List FeedEvent → List Entry → List Entry
newest_first n [] below = below
newest_first n (announcement text ∷ es) below = newest_first n es below
newest_first n (audit_log e ∷ es) below = newest_first (n + 1) es (live_entry n e ∷ below)
