-- ===== src/Pages/Audit.antt =====
-- web/app/(app)/audit/page.tsx: the audit log with its filter, its pages and its live entries.
pub mod Live
use idpforge.Base.{
  ℕ, zero, suc, ◌+◌, ◌≡◌, refl, sym, ap, ◌∙◌, Bool, true, false, not, ◌||◌, List, [], ◌∷◌, ◌++◌,
  take, arith, if◌then◌else◌, ◌==◌, Str, codes, is_empty,
}
use idpforge.Pages.{page_size}

-- The ID of an entry: one of the server's, or one that the page counts down from -1.
pub data EntryId : Type 0 where
  stored : ℕ → EntryId
  live : ℕ → EntryId

-- `AuditEntry`; "" is a field that is not there.
pub record Entry : Type 0 where
  pub id : EntryId
  pub actor_id : Str
  pub actor_ip : Str
  pub action : Str
  pub target_resource : Str
  pub target_app : Str
  pub status : Str
  pub timestamp : Str

-- `WSAuditEvent`
pub record AuditEvent : Type 0 where
  pub actor_id : Str
  pub action : Str
  pub target_resource : Str
  pub status : Str
  pub timestamp : Str

-- `WSEvent`
pub data FeedEvent : Type 0 where
  audit_log : AuditEvent → FeedEvent
  announcement : Str → FeedEvent

-- The state of `AuditPage`; `live_id` is the next of the numbers that it counts down.
pub record AuditPage : Type 0 where
  pub entries : List Entry
  pub offset : ℕ
  pub actor_id : Str
  pub action : Str
  pub status : Str
  pub filtered : Bool
  pub live_id : ℕ

abbrev pub opened : AuditPage
opened = record {
  entries = [];
  offset = 0;
  actor_id = [];
  action = [];
  status = [];
  filtered = false;
  live_id = 1;
}

-- The parameters of a request for entries.
pub record Params : Type 0 where
  pub limit : ℕ
  pub offset : ℕ
  pub filters : List (Str × Str)

abbrev pub param : Str → Str → List (Str × Str)
param name [] = []
param name (c ∷ s) = (name, c ∷ s) ∷ []

-- `load`: the page, and the request that it sends.
unfoldable pub load : ℕ → AuditPage → AuditPage × Params
load at_offset s = (
  record s {
    filtered = not (is_empty s.actor_id) || not (is_empty s.action) || not (is_empty s.status);
  },
  record {
    limit = page_size;
    offset = at_offset;
    filters =
        param (codes "actor_id") s.actor_id
        ++ param (codes "action") s.action
        ++ param (codes "status") s.status;
  },
)

-- `applyFilter`
unfoldable pub apply_filter : AuditPage → AuditPage × Params
apply_filter s = load 0 (record s { offset = 0 })

-- The answer of a request.
unfoldable pub answer : List Entry → AuditPage → AuditPage
answer entries s = record s { entries = entries }

abbrev pub live_entry : ℕ → AuditEvent → Entry
live_entry n e = record {
  id = live n;
  actor_id = e.actor_id;
  actor_ip = [];
  action = e.action;
  target_resource = e.target_resource;
  target_app = [];
  status = e.status;
  timestamp = e.timestamp;
}

-- The callback that the page gives to `useRealtime`.
unfoldable pub on_event : FeedEvent → AuditPage → AuditPage
on_event (announcement text) s = s
on_event (audit_log e) s = if s.filtered || not (s.offset == 0) then s else record s {
  entries = take page_size (live_entry s.live_id e ∷ s.entries);
  live_id = s.live_id + 1;
}

unfoldable pub on_events : List FeedEvent → AuditPage → AuditPage
on_events [] s = s
on_events (e ∷ es) s = on_events es (on_event e s)

-- With a filter, or on a later page, the feed changes nothing of what is shown.
pub feed_is_ignored :
    (es : List FeedEvent) (s : AuditPage)
    → (s.filtered || not (s.offset == 0)) ≡ true
    → on_events es s ≡ s
unfolding on_events on_event
feed_is_ignored [] s h = refl
feed_is_ignored (announcement text ∷ es) s h = feed_is_ignored es s h
feed_is_ignored (audit_log e ∷ es) s h = rw h (feed_is_ignored es s h)
