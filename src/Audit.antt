-- ===== src/Audit.antt =====
-- internal/audit/writer.go: the queue of the entries, the batches that its loop makes of them, and
-- the rows that the database takes. Calls of `Log` and rounds of the loop are steps, in any order.
pub mod Delivery
pub mod Tests
use idpforge.Base.{
  ℕ, ◌+◌, ◌*◌, Bool, true, false, not, ◌&&◌, Option, none, some, List, [], ◌∷◌, ◌++◌, if◌then◌else◌,
  ltb, leb, ◌==◌, length, Str,
}

-- `Entry`; the states before and after are JSON text, and `none` is the zero time.
pub record Entry : Type 0 where
  pub actor_id : Str
  pub actor_ip : Str
  pub actor_user_agent : Str
  pub action : Str
  pub target_resource : Str
  pub target_app : Str
  pub before_state : Str
  pub after_state : Str
  pub status : Str
  pub trace_id : Str
  pub timestamp : Option ℕ

-- `live` is what the callback of `SetOnLog` was called with, `errors` holds the entries that were
-- dropped, each with an error in the server's log, and `rows` what the table holds. `running` is
-- false once the loop has returned.
pub record Writer : Type 0 where
  pub queue_size : ℕ
  pub batch_size : ℕ
  pub queue : List Entry
  pub batch : List Entry
  pub rows : List Entry
  pub live : List Entry
  pub errors : List Entry
  pub running : Bool

-- `NewWriter`, with `Run`.
abbrev pub new_writer : ℕ → ℕ → Writer
new_writer queue_size batch_size = record {
  queue_size = queue_size;
  batch_size = batch_size;
  queue = [];
  batch = [];
  rows = [];
  live = [];
  errors = [];
  running = true;
}

abbrev pub or_now : ℕ → Option ℕ → Option ℕ
or_now now none = some now
or_now now (some t) = some t

abbrev pub stamped : ℕ → Entry → Entry
stamped now e = record e { timestamp = or_now now e.timestamp }

-- The `select` of `Log`: the entry is queued where there is room, and dropped where there is none.
abbrev pub enqueue : Entry → Writer → Writer
enqueue e w =
    if ltb (length w.queue) w.queue_size
    then record w { queue = w.queue ++ e ∷ [] }
    else record w { errors = w.errors ++ e ∷ [] }

-- `Log`
unfoldable pub log : ℕ → Entry → Writer → Writer
log now e w = enqueue (stamped now e) (record w { live = w.live ++ stamped now e ∷ [] })

-- The columns of `insertBatch`.
abbrev pub cols : ℕ
cols = 11

-- One statement has a placeholder for each column of each entry, and the database takes no more
-- than `limit` of them.
abbrev pub accepts : ℕ → List Entry → Bool
accepts limit entries = leb (length entries * cols) limit

abbrev pub insert_batch : ℕ → List Entry → List Entry → List Entry
insert_batch limit entries rows = if accepts limit entries then rows ++ entries else rows

-- `flush`; a batch whose insertion fails is gone.
unfoldable pub flush : ℕ → Writer → Writer
flush limit w =
    if length w.batch == 0
    then w
    else record w { rows = insert_batch limit w.batch w.rows; batch = [] }

-- A full batch is flushed.
abbrev pub batched : ℕ → Writer → Writer
batched limit w = if leb w.batch_size (length w.batch) then flush limit w else w

-- The case of the loop that receives an entry; it waits where there is none.
abbrev pub received : ℕ → Writer → List Entry → Writer
received limit w [] = w
received limit w (e ∷ es) = batched limit (record w { queue = es; batch = w.batch ++ e ∷ [] })

unfoldable pub receive : ℕ → Writer → Writer
receive limit w = received limit w w.queue

-- `drain`
abbrev pub drain : Writer → Writer
drain w = record w { queue = []; batch = w.batch ++ w.queue }

-- The cases of the loop that end it: `Stop`, or the end of its context.
unfoldable pub stop : ℕ → Writer → Writer
unfolding flush
stop limit w = record (flush limit (drain w)) { running = false }

pub data Step : Type 0 where
  logs : ℕ → Entry → Step
  receives ticks stops : Step

-- A step of the callers or of the loop, which takes no more once it has returned.
unfoldable pub step : ℕ → Step → Writer → Writer
unfolding log receive stop flush
step limit (logs now e) w = log now e w
step limit receives w = if w.running then receive limit w else w
step limit ticks w = if w.running then flush limit w else w
step limit stops w = if w.running then stop limit w else w

abbrev pub run : ℕ → List Step → Writer → Writer
run limit [] w = w
run limit (s ∷ ss) w = run limit ss (step limit s w)
