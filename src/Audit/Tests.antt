-- ===== src/Audit/Tests.antt =====
-- A writer with a small queue, and a database with a small statement.
use idpforge.Base.{◌≡◌, refl, none, true, List, [], ◌∷◌, Str, codes, arith}
use idpforge.Audit.{
  Entry, Writer, new_writer, Step, logs, receives, ticks, stops, step, run, log, receive, flush,
}
use idpforge.Audit.Delivery.{Interleaves, stop_writes_all, large_drain_is_lost}

abbrev entry : Str → Entry
entry action = record {
  actor_id = codes "u1";
  actor_ip = [];
  actor_user_agent = [];
  action = action;
  target_resource = [];
  target_app = [];
  before_state = [];
  after_state = [];
  status = codes "success";
  trace_id = [];
  timestamp = none;
}

abbrev steps : List Step
steps =
    logs 1 (entry (codes "user.login"))
    ∷ receives
    ∷ logs 2 (entry (codes "user.logout"))
    ∷ logs 3 (entry (codes "user.login"))
    ∷ ticks
    ∷ []

still_runs : (run 65_535 steps (new_writer 1 100)).running ≡ true
unfolding step log receive flush
still_runs = refl

stop_writes_all_example :
    let w = step 65_535 stops (run 65_535 steps (new_writer 1 100)) in
    Interleaves w.rows w.errors w.live
stop_writes_all_example = stop_writes_all 65_535 1 100 steps (omega arith) still_runs

abbrev full : Writer
full = record (new_writer 10 100) {
  batch = entry (codes "a") ∷ [];
  queue = entry (codes "b") ∷ entry (codes "c") ∷ [];
}

large_drain_is_lost_example :
    ((step 30 stops full).rows ≡ [])
    × ((step 30 stops full).batch ≡ [])
    × ((step 30 stops full).queue ≡ [])
large_drain_is_lost_example = large_drain_is_lost 30 full refl refl
