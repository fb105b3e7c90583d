-- ===== src/Audit/Delivery.antt =====
-- internal/audit/writer.go: where each logged entry ends up.
use idpforge.Base.{
  ℕ, suc, ◌+◌, ◌*◌, ◌≤◌, ◌≡◌, refl, sym, ap, subst, ◌∙◌, inl, inr, true, false, List, [], ◌∷◌, ◌++◌,
  append_assoc, append-nil, if◌then◌else◌, if_cases, ltb, leb, ◌==◌, length, length-append, arith,
  Bool-cases,
}
use idpforge.Audit.{
  Entry, Writer, new_writer, stamped, log, cols, accepts, flush, received, receive, drain, stop,
  Step, logs, receives, ticks, stops, step, run,
}

-- `all` holds the elements of two lists, each in its order.
pub data Interleaves {A : Type 0} : List A → List A → List A → Type 0 where
  done : Interleaves [] [] []
  left : {x : A} {xs ys zs : List A} → Interleaves xs ys zs → Interleaves (x ∷ xs) ys (x ∷ zs)
  right : {y : A} {xs ys zs : List A} → Interleaves xs ys zs → Interleaves xs (y ∷ ys) (y ∷ zs)

snoc_left :
    {xs ys zs : List Entry} (e : Entry)
    → Interleaves xs ys zs
    → Interleaves (xs ++ e ∷ []) ys (zs ++ e ∷ [])
snoc_left e done = left done
snoc_left e (left i) = left (snoc_left e i)
snoc_left e (right i) = right (snoc_left e i)

snoc_right :
    {xs ys zs : List Entry} (e : Entry)
    → Interleaves xs ys zs
    → Interleaves xs (ys ++ e ∷ []) (zs ++ e ∷ [])
snoc_right e done = right done
snoc_right e (left i) = left (snoc_right e i)
snoc_right e (right i) = right (snoc_right e i)

-- The entries that were taken on: written, in the batch, or queued.
abbrev pub taken : Writer → List Entry
taken w = w.rows ++ (w.batch ++ w.queue)

-- Every entry that was logged is taken on or reported as dropped, once and in order.
abbrev pub Delivers : Writer → Type 0
Delivers w = Interleaves (taken w) w.errors w.live

-- The queue and the batch stay within their sizes.
abbrev Bounded : ℕ → ℕ → Writer → Type 0
Bounded queue_size batch_size w =
    (w.queue_size ≡ queue_size)
    × (w.batch_size ≡ batch_size)
    × (length w.queue ≤ queue_size)
    × (length w.batch ≤ batch_size)

flush-taken :
    (limit : ℕ) (w : Writer) → accepts limit w.batch ≡ true → taken (flush limit w) ≡ taken w
unfolding flush
flush-taken limit w h = elim (Bool-cases (length w.batch == 0)) [
  | inl e ↦ rw e refl
  | inr e ↦ rw (e, h) (append_assoc w.rows w.batch w.queue)
]

flush-errors : (limit : ℕ) (w : Writer) → (flush limit w).errors ≡ w.errors
unfolding flush
flush-errors limit w =
    if_cases (λ (x : Writer). x.errors ≡ w.errors) (length w.batch == 0) _ _ refl refl

flush-live : (limit : ℕ) (w : Writer) → (flush limit w).live ≡ w.live
unfolding flush
flush-live limit w = if_cases (λ (x : Writer). x.live ≡ w.live) (length w.batch == 0) _ _ refl refl

flush-Delivers :
    (limit : ℕ) (w : Writer) → accepts limit w.batch ≡ true → Delivers w → Delivers (flush limit w)
flush-Delivers limit w h d = rw (flush-taken limit w h, flush-errors limit w, flush-live limit w) d

log-Delivers : (now : ℕ) (e : Entry) (w : Writer) → Delivers w → Delivers (log now e w)
unfolding log
log-Delivers now e w d =
    if_cases Delivers (ltb (length w.queue) w.queue_size) _ _
      (subst (λ t. Interleaves t w.errors (w.live ++ stamped now e ∷ []))
        (append_assoc w.rows (w.batch ++ w.queue) (stamped now e ∷ [])
          ∙ ap (λ t. w.rows ++ t) (append_assoc w.batch w.queue (stamped now e ∷ [])))
        (snoc_left (stamped now e) d))
      (snoc_right (stamped now e) d)

module _ (limit queue_size batch_size : ℕ)
    (room : (queue_size + batch_size + 1) * cols ≤ limit) where
  -- What holds between the steps.
  abbrev Sound : Writer → Type 0
  Sound w = Delivers w × Bounded queue_size batch_size w

  -- A flush writes a batch with all of the queue behind it.
  flush-Sound :
      (w : Writer)
      → Delivers w
      → w.queue_size ≡ queue_size
      → w.batch_size ≡ batch_size
      → length w.queue ≤ queue_size
      → length w.batch ≤ queue_size + batch_size + 1
      → Sound (flush limit w)
  unfolding flush
  flush-Sound w d q b lq lb = (
    flush-Delivers limit w (ground arith) d,
    elim (Bool-cases (length w.batch == 0)) [
      | inl e ↦ rw e (q, b, lq, ground arith)
      | inr e ↦ rw e (q, b, lq, omega arith)
    ],
  )

  receive-Sound : (w : Writer) → Sound w → Sound (receive limit w)
  unfolding receive
  receive-Sound w (d, s) = from_queue w.queue refl
    where
      from_queue : (es : List Entry) → w.queue ≡ es → Sound (received limit w es)
      from_queue [] e = (d, s)
      from_queue (x ∷ es) e =
          let w' : Writer = record w { queue = es; batch = w.batch ++ x ∷ [] } in
          let d' : Delivers w' =
            subst (λ t. Interleaves (w.rows ++ t) w.errors w.live)
              (ap (λ q. w.batch ++ q) e ∙ sym (append_assoc w.batch (x ∷ []) es)) d in
          let queued : length w.queue ≡ suc (length es) = ap length e in
          let longer : length w'.batch ≡ length w.batch + 1 = length-append w.batch (x ∷ []) in
          let (q, b, lq, lb) = s in
          elim (Bool-cases (leb w.batch_size (length w'.batch))) [
            | inl f ↦ rw f (flush-Sound w' d' q b (omega arith) (omega arith))
            | inr f ↦ rw f (d', (q, b, omega arith, ground arith))
          ]

  log-Sound : (now : ℕ) (e : Entry) (w : Writer) → Sound w → Sound (log now e w)
  unfolding log
  log-Sound now e w (d, s) = (
    log-Delivers now e w d,
    (let (q, b, lq, lb) = s in
        elim (Bool-cases (ltb (length w.queue) w.queue_size)) [
          | inl f ↦ rw f (q, b, rw (length-append w.queue (stamped now e ∷ [])) (ground arith), lb)
          | inr f ↦ rw f (q, b, lq, lb)
        ]),
  )

  stop-Sound : (w : Writer) → Sound w → Sound (stop limit w)
  unfolding stop
  stop-Sound w (d, s) =
      let (q, b, lq, lb) = s in
      let all = length-append w.batch w.queue in
      let drained : Delivers (drain w) =
        subst (λ t. Interleaves (w.rows ++ t) w.errors w.live)
          (sym (append-nil (w.batch ++ w.queue))) d in
      flush-Sound (drain w) drained q b (omega arith) (omega arith)

  ticked : (w : Writer) → Sound w → Sound (flush limit w)
  ticked w (d, s) = let (q, b, lq, lb) = s in flush-Sound w d q b lq (omega arith)

  step-Sound : (s : Step) (w : Writer) → Sound w → Sound (step limit s w)
  unfolding step
  step-Sound (logs now e) w h = log-Sound now e w h
  step-Sound receives w h = if_cases Sound w.running _ _ (receive-Sound w h) h
  step-Sound ticks w h = if_cases Sound w.running _ _ (ticked w h) h
  step-Sound stops w h = if_cases Sound w.running _ _ (stop-Sound w h) h

  run-Sound : (ss : List Step) (w : Writer) → Sound w → Sound (run limit ss w)
  run-Sound [] w h = h
  run-Sound (s ∷ ss) w h = run-Sound ss (step limit s w) (step-Sound s w h)

emptied : (limit : ℕ) (w : Writer) → (flush limit w).batch ≡ []
unfolding flush
emptied limit w = elim (Bool-cases (length w.batch == 0)) [
  | inl e ↦ rw e (no_entries w.batch e)
  | inr e ↦ rw e refl
]
  where
    no_entries : (es : List Entry) → (length es == 0) ≡ true → es ≡ []
    no_entries [] h = refl
    no_entries (x ∷ es) h = ground arith

flush-queue : (limit : ℕ) (w : Writer) → (flush limit w).queue ≡ w.queue
unfolding flush
flush-queue limit w =
    if_cases (λ (x : Writer). x.queue ≡ w.queue) (length w.batch == 0) _ _ refl refl

stop-taken : (limit : ℕ) (w : Writer) → taken (stop limit w) ≡ (stop limit w).rows
unfolding stop
stop-taken limit w =
    rw (emptied limit (drain w), flush-queue limit (drain w))
      (append-nil (flush limit (drain w)).rows)

stopping : (limit : ℕ) (w : Writer) → w.running ≡ true → step limit stops w ≡ stop limit w
unfolding step
stopping limit w on = ap (λ b. if b then stop limit w else w) on

-- Where a statement has room for a full queue with a batch: whatever was logged and received before,
-- every entry that was logged before the loop is stopped is then a row of the table, or was
-- reported as dropped; once each, and in order.
pub stop_writes_all :
    (limit queue_size batch_size : ℕ) (ss : List Step)
    → (queue_size + batch_size + 1) * cols ≤ limit
    → (run limit ss (new_writer queue_size batch_size)).running ≡ true
    → let w = step limit stops (run limit ss (new_writer queue_size batch_size)) in
      Interleaves w.rows w.errors w.live
stop_writes_all limit queue_size batch_size ss room on =
    let w = run limit ss (new_writer queue_size batch_size) in
    let sound =
      run-Sound limit queue_size batch_size room ss (new_writer queue_size batch_size)
        (done, (refl, refl, omega arith, omega arith)) in
    let stopped = stop-Sound limit queue_size batch_size room w sound in
    subst (λ x. Interleaves x.rows x.errors x.live) (sym (stopping limit w on))
      (subst (λ t. Interleaves t (stop limit w).errors (stop limit w).live) (stop-taken limit w)
        stopped.0)

-- Where the queue and the batch have more entries than one statement takes, stopping the loop loses
-- them all: the batches are small, but the last one is not.
pub large_drain_is_lost :
    (limit : ℕ) (w : Writer)
    → w.running ≡ true
    → accepts limit (w.batch ++ w.queue) ≡ false
    → ((step limit stops w).rows ≡ w.rows)
      × ((step limit stops w).batch ≡ [])
      × ((step limit stops w).queue ≡ [])
unfolding step stop flush
large_drain_is_lost limit w on over = elim (Bool-cases (length (w.batch ++ w.queue) == 0)) [
  | inl e ↦ absurd (ground arith)
  | inr e ↦ rw (on, e, over) (refl, refl, refl)
]
