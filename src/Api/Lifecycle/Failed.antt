-- ===== src/Api/Lifecycle/Failed.antt =====
-- The failure destination, on a job that is stored and on one that the table no longer holds.
use es_kaq_translator_v.Base.{
  ℕ, ◌≤◌, ◌≡◌, refl, true, false, Option, none, some, [], ◌∷◌, ◌∙◌, ap, length, list_beq, arith,
  if◌then◌else◌, Bool-cases, inl, inr,
}
use es_kaq_translator_v.Base.Dict.{Dict, lookup, insert, lookup-insert}
use es_kaq_translator_v.Text.{Text, text, text_eq}
use es_kaq_translator_v.Api.Result.{Result, ok, raise, continue, key_error}
use es_kaq_translator_v.Api.Dynamo.{Value, Item, str, num, value_eq}
use es_kaq_translator_v.Api.World.{Services, World, LogLine, warning, required_name}
use es_kaq_translator_v.Api.Jobs.{mark_failed, failed_fields, get_job, unexpired, to_int, attr}
use es_kaq_translator_v.Api.Jobs.Record.{is_open, with_failure}
use es_kaq_translator_v.Api.Jobs.Guard.{
  IsFresh, stored, IsHealthy, conditional_update_closed, conditional_update_passed,
  log-conditional_update, environ-conditional_update,
}
use es_kaq_translator_v.Api.Observability.{log_job_resolution, level_of}
use es_kaq_translator_v.Api.Main.{
  error_reply, unexpected_error_message, unhandled_exception_handler, get_translate_job,
}
use es_kaq_translator_v.Api.Failure
use es_kaq_translator_v.Api.Lifecycle.{Reach}
use es_kaq_translator_v.Api.Lifecycle.Final.{Reach-keeps_terminal}
use es_kaq_translator_v.Api.Lifecycle.Calls.{get_job-stored, mark_failed-open}

-- The envelope that Lambda sends for a failed run of the worker.
abbrev pub envelope_of : Text → Dict Text (Dict Text Text)
envelope_of k = (text "requestPayload", (text "job_id", k) ∷ []) ∷ []

-- A failure on an open job; a job that is resolved stays as it is.
abbrev pub after_failure : Item → Item
after_failure item =
    if is_open item
    then with_failure Failure.worker_failure_status_code Failure.worker_failure_message item
    else item

abbrev fields : Dict Text Value
fields = failed_fields Failure.worker_failure_status_code Failure.worker_failure_message

lookup-with_failure :
    (c : ℕ) (m : Text) (item : Item)
    → (lookup (text "ttl") (with_failure c m item) ≡ lookup (text "ttl") item)
      × (lookup (text "text") (with_failure c m item) ≡ lookup (text "text") item)
      × (lookup (text "direction") (with_failure c m item) ≡ lookup (text "direction") item)
unfolding with_failure
lookup-with_failure c m item = (
  simp lookup-insert (unfold list_beq in refl),
  simp lookup-insert (unfold list_beq in refl),
  simp lookup-insert (unfold list_beq in refl),
)

module _ (s : Services) (healthy : IsHealthy s) (w : World s.dynamo) {name : Text}
    (named : required_name w.environ.table_name ≡ ok name) (k : Text) where
  abbrev marked : Result (Unit {0}) × World s.dynamo
  marked = mark_failed s k Failure.worker_failure_status_code Failure.worker_failure_message w

  mark_failed-after :
      {item : Item}
      → stored s w k ≡ some item
      → (marked.0 ≡ ok tt) × (stored s marked.1 k ≡ some (after_failure item))
  unfolding mark_failed
  mark_failed-after {item} e = elim (Bool-cases (is_open item)) [
    | inl o ↦
        let (done, at, _, _) =
          mark_failed-open s healthy w named k Failure.worker_failure_status_code
            Failure.worker_failure_message (rw e o) in
        (done, at ∙ rw (o, e) refl)
    | inr c ↦ rw c (
      conditional_update_passed s k fields w healthy named (rw e c),
      conditional_update_closed s k fields w (rw e c) k ∙ e,
    )
  ]

  marked-rest : (marked.1.environ ≡ w.environ) × (marked.1.now ≡ w.now) × (marked.1.log ≡ w.log)
  unfolding mark_failed
  marked-rest =
      let (environ, now) = environ-conditional_update s k fields w in
      (environ, now, log-conditional_update s k fields w)

  -- The read after the mark.
  read_back :
      (item' : Item)
      → IsFresh s marked.1 k
      → stored s marked.1 k ≡ some item'
      → get_job s k marked.1 ≡ (unexpired s w.now item', marked.1)
  read_back item' fresh e =
      let (environ, now, _) = marked-rest in
      get_job-stored s marked.1 {name = name} (rw environ named) k fresh e
      ∙ ap (λ (n : ℕ). (unexpired s n item', marked.1)) now

lookup-after_failure :
    (item : Item)
    → (lookup (text "ttl") (after_failure item) ≡ lookup (text "ttl") item)
      × (lookup (text "text") (after_failure item) ≡ lookup (text "text") item)
      × (lookup (text "direction") (after_failure item) ≡ lookup (text "direction") item)
lookup-after_failure item = elim (Bool-cases (is_open item)) [
  | inl o ↦ rw o (lookup-with_failure _ _ item)
  | inr c ↦ rw c (refl, refl, refl)
]

unexpired-live :
    (s : Services) (now ttl : ℕ) (item : Item)
    → lookup (text "ttl") item ≡ some (num ttl)
    → now ≤ ttl
    → unexpired s now item ≡ ok (some item)
unfolding unexpired attr to_int
unexpired-live s now ttl item e h = ground arith

logged_length-some :
    (t : Text) (item : Item)
    → lookup (text "text") item ≡ some (str t)
    → Failure.logged_length (some item) ≡ ok (some (length t))
unfolding Failure.logged_length Failure.value_length
logged_length-some t item e = ground arith

-- The line of the failure destination.
abbrev pub failure_line : Text → Option Value → ℕ → LogLine
failure_line k direction n = record {
  level = warning;
  job_id = k;
  direction = direction;
  input_length = some n;
  latency_ms = none;
  status_code = Failure.worker_failure_status_code;
  error_type = some Failure.worker_failure_error_type;
}

log_failure-live :
    (s : Services) (w w1 : World s.dynamo) (k t : Text) (item : Item)
    → get_job s k w1 ≡ (ok (some item), w1)
    → lookup (text "text") item ≡ some (str t)
    → Failure.log_failure s k w1 ≡ (
      ok tt,
      record w1 { log = failure_line k (lookup (text "direction") item) (length t) ∷ w1.log },
    )
unfolding Failure.log_failure Failure.logged_direction log_job_resolution level_of
log_failure-live s w w1 k t item read words = rw (read, logged_length-some t item words) refl

-- The failure destination of a job that is stored, not expired, and holds its text: an open job
-- becomes failed with status 504, a resolved one stays exactly as it is, and in both cases one
-- warning with the job's direction and length is logged. The table is healthy, the read after the
-- write is up to date, and the table's name is configured.
pub handler-failed :
    (s : Services) (w : World s.dynamo) (k t : Text) (item : Item) (ttl : ℕ) {name : Text}
    → IsHealthy s
    → required_name w.environ.table_name ≡ ok name
    → stored s w k ≡ some item
    → lookup (text "ttl") item ≡ some (num ttl)
    → w.now ≤ ttl
    → lookup (text "text") item ≡ some (str t)
    → IsFresh s
        (mark_failed s k Failure.worker_failure_status_code Failure.worker_failure_message w).1
        k
    → let (r, w') = Failure.handler s (envelope_of k) w in
      (r ≡ ok tt)
      × (stored s w' k ≡ some (after_failure item))
      × (w'.log ≡ failure_line k (lookup (text "direction") item) (length t) ∷ w.log)
unfolding Failure.handler lookup list_beq
handler-failed s w k t item ttl {name} healthy named e live_until live words fresh =
    let w1 = (marked s healthy w named k).1 in
    let (done, at) = mark_failed-after s healthy w named k e in
    let (environ, now, log) = marked-rest s healthy w named k in
    let (same_ttl, same_text, same_direction) = lookup-after_failure item in
    let item' = after_failure item in
    let read : get_job s k w1 ≡ (ok (some item'), w1) =
      read_back s healthy w named k item' fresh at
      ∙ ap (λ (r : Result (Option Item)). (r, w1))
          (unexpired-live s w.now ttl item' (same_ttl ∙ live_until) live) in
    let finish = log_failure-live s w w1 k t item' read (same_text ∙ words) in
    (
      rw (done, continue, finish) refl,
      rw (done, continue, finish) at,
      rw (done, continue, finish) (rw (log, same_direction) refl),
    )

-- What the upsert leaves of a job that the table does not hold: no `ttl`.
abbrev pub remnant : Text → Item
remnant k =
    with_failure Failure.worker_failure_status_code Failure.worker_failure_message
      ((text "job_id", str k) ∷ [])

unexpired-remnant :
    (s : Services) (now : ℕ) (k : Text)
    → unexpired s now (remnant k) ≡ raise (key_error (text "ttl"))
unfolding unexpired attr with_failure insert lookup list_beq
unexpired-remnant s now k = refl

open_nothing : is_open [] ≡ true
unfolding is_open lookup
open_nothing = refl

poll-raises :
    (s : Services) (w : World s.dynamo) (k : Text)
    → s.is_uuid k ≡ true
    → get_job s k w ≡ (raise (key_error (text "ttl")), w)
    → unhandled_exception_handler (get_translate_job s k w).0
      ≡ error_reply 500 (record { error = unexpected_error_message })
unfolding unhandled_exception_handler get_translate_job
poll-raises s w k u read = rw (u, read) refl

closed_remnant : (k : Text) → is_open (remnant k) ≡ false
unfolding is_open with_failure insert lookup list_beq value_eq
closed_remnant k = refl

-- The failure destination of a job that the table no longer holds, because its expired item was
-- deleted, does crash where its read sees its own write: the write creates an item with no `ttl`,
-- reading that back raises `KeyError`, and nothing is logged. After whatever other handlers ran, a
-- poll of that job whose read is up to date answers 500, provided that `uuid4` draws no identifier
-- that is in the table. The table is healthy, its name is configured for the failure destination and
-- for the poll, and the job's identifier is a UUID.
pub handler-swept :
    (s : Services) (w later : World s.dynamo) (k : Text) {name name' : Text}
    → IsHealthy s
    → required_name w.environ.table_name ≡ ok name
    → stored s w k ≡ none
    → IsFresh s
        (mark_failed s k Failure.worker_failure_status_code Failure.worker_failure_message w).1
        k
    → s.is_uuid k ≡ true
    → let (r, w') = Failure.handler s (envelope_of k) w in
      Reach s w' later
      → required_name later.environ.table_name ≡ ok name'
      → IsFresh s later k
      → (r ≡ raise (key_error (text "ttl")))
        × (stored s w' k ≡ some (remnant k))
        × (w'.log ≡ w.log)
        × (unhandled_exception_handler (get_translate_job s k later).0
            ≡ error_reply 500 (record { error = unexpected_error_message }))
unfolding Failure.handler Failure.log_failure lookup list_beq
handler-swept s w later k healthy named e fresh u reach named' fresh' =
    let w1 = (marked s healthy w named k).1 in
    let (done, at, log, _) =
      mark_failed-open s healthy w named k Failure.worker_failure_status_code
        Failure.worker_failure_message (rw e (open_nothing)) in
    let there : stored s w1 k ≡ some (remnant k) = at ∙ rw e refl in
    let read : get_job s k w1 ≡ (raise (key_error (text "ttl")), w1) =
      read_back s healthy w named k (remnant k) fresh there
      ∙ ap (λ (r : Result (Option Item)). (r, w1)) (unexpired-remnant s w.now k) in
    let left : stored s (Failure.handler s (envelope_of k) w).1 k ≡ some (remnant k) =
      rw (done, continue, read) there in
    let stays : stored s later k ≡ some (remnant k) =
      Reach-keeps_terminal s k (remnant k) (closed_remnant k) left reach in
    let polled : get_job s k later ≡ (raise (key_error (text "ttl")), later) =
      get_job-stored s later named' k fresh' stays
      ∙ ap (λ (r : Result (Option Item)). (r, later)) (unexpired-remnant s later.now k) in
    (
      rw (done, continue, read) refl,
      left,
      rw (done, continue, read) log,
      poll-raises s later k u polled,
    )
