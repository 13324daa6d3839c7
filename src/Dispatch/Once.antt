-- ===== src/Dispatch/Once.antt =====
-- Runs of the consumer of consumers/followup-dispatch/src/consumer-runner.ts over messages and
-- restarts: a follow-up is dispatched once, unless the process stops between the request and the
-- ledger, which is no event here.
use ranking.Prelude.{
  ℕ, ◌≡◌, refl, false, ◌||◌, List, [], ◌∷◌, ◌++◌, holds, holds-append, Unique, Unique-append, All,
  All-append, Bool-cases, inl, inr, arith,
}
use ranking.Dispatch.{
  Handler, Envelope, Response, Outcome, load, record_id, no_stats, after_request, handle,
  record_invalid,
}

-- A message that is valid or not, or a restart, which reads the ledger from its file.
pub data Event : Type 0 where
  message : (now : ℕ) → Envelope → Response → Event
  broken : Event
  restart : Event

abbrev pub dispatched : Envelope → Handler × Outcome → Handler × List ℕ
dispatched e (h, Outcome.processed) = (h, e.outbox_id ∷ [])
dispatched e (h, Outcome.duplicate) = (h, [])
dispatched e (h, Outcome.thrown) = (h, [])

-- One event: the handler, and the ids of the dispatch.
unfoldable pub on_event : Handler → Event → Handler × List ℕ
on_event h (message now e response) = dispatched e (handle now response h e)
on_event h broken = (record_invalid h, [])
on_event h restart = (record { ledger = load h.ledger.file; stats = no_stats }, [])

-- The handler after some events, and the ids of all requests that were accepted.
unfoldable pub run : Handler → List Event → Handler × List ℕ
run h [] = (h, [])
run h (e ∷ es) = let (h', sent) = on_event h e in let (h'', rest) = run h' es in (h'', sent ++ rest)

-- The set in memory is the set of the file.
abbrev pub IsSynced : Handler → Type 0
IsSynced h = (id : ℕ) → holds h.ledger.seen id ≡ holds h.ledger.file id

-- What an event does: the ids it dispatched were not in the file, and the file has just them more.
record IsStep (h h' : Handler) (sent : List ℕ) : Type 0 where
  synced : IsSynced h'
  grows : (id : ℕ) → holds h'.ledger.file id ≡ (holds h.ledger.file id || holds sent id)
  fresh : All (λ id. holds h.ledger.file id ≡ false) sent
  unique : Unique sent

-- A step that leaves the ledger and dispatches nothing.
quiet-IsStep :
    (h h' : Handler)
    → IsSynced h
    → h'.ledger.seen ≡ h.ledger.seen
    → h'.ledger.file ≡ h.ledger.file
    → IsStep h h' []
quiet-IsStep h h' s es ef = record {
  synced = rw (es, ef) s;
  grows = rw ef (λ id. ground arith);
  fresh = tt;
  unique = tt;
}

request-IsStep :
    (h : Handler) (now : ℕ) (e : Envelope) (response : Response)
    → IsSynced h
    → holds h.ledger.seen e.outbox_id ≡ false
    → let (h', sent) = dispatched e (after_request now e response h) in IsStep h h' sent
unfolding after_request record_id
request-IsStep h now e Response.accepted s new = rw new (record {
  synced = λ id. ground (arith, s id, holds-append h.ledger.file (e.outbox_id ∷ []) id);
  grows = λ id. ground (arith, holds-append h.ledger.file (e.outbox_id ∷ []) id);
  fresh = (ground (arith, s e.outbox_id), tt);
  unique = (refl, tt);
})
request-IsStep h now e Response.refused s new = quiet-IsStep h _ s refl refl
request-IsStep h now e Response.unreachable s new = quiet-IsStep h _ s refl refl

on_event-IsStep :
    (h : Handler) (e : Event) → IsSynced h → let (h', sent) = on_event h e in IsStep h h' sent
unfolding on_event handle after_request record_id record_invalid load
on_event-IsStep h (message now e response) s = elim (Bool-cases (holds h.ledger.seen e.outbox_id)) [
  | inl old ↦ rw old (quiet-IsStep h _ s refl refl)
  | inr new ↦ rw new (request-IsStep h now e response s new)
]
on_event-IsStep h broken s = record {
  synced = s;
  grows = λ id. ground arith;
  fresh = tt;
  unique = tt;
}
on_event-IsStep h restart s = record {
  synced = λ id. refl;
  grows = λ id. ground arith;
  fresh = tt;
  unique = tt;
}

-- What a run does, in the same words.
fresh-weaken :
    (before after : List ℕ) (sent xs : List ℕ)
    → ((id : ℕ) → holds after id ≡ (holds before id || holds sent id))
    → All (λ id. holds after id ≡ false) xs
    → All (λ id. holds before id ≡ false) xs × All (λ id. holds sent id ≡ false) xs
fresh-weaken before after sent [] g h = (tt, tt)
fresh-weaken before after sent (x ∷ xs) g h =
    let (a, b) = fresh-weaken before after sent xs g h.1 in
    ((ground (arith, g x, h.0), a), (ground (arith, g x, h.0), b))

run-IsStep :
    (h : Handler) (es : List Event) → IsSynced h → let (h', sent) = run h es in IsStep h h' sent
unfolding run
run-IsStep h [] s = quiet-IsStep h h s refl refl
run-IsStep h (e ∷ es) s =
    let (h', sent) = on_event h e in
    let one = on_event-IsStep h e s in
    let rest = run-IsStep h' es one.synced in
    let (fresh, apart) = fresh-weaken h.ledger.file h'.ledger.file sent _ one.grows rest.fresh in
    record {
      synced = rest.synced;
      grows = λ id. ground (arith, one.grows id, rest.grows id, holds-append sent (run h' es).1 id);
      fresh = All-append _ sent (run h' es).1 one.fresh fresh;
      unique = Unique-append sent (run h' es).1 one.unique rest.unique apart;
    }

-- A consumer that starts from a file of ids dispatches no follow-up of the file, and no follow-up
-- twice, whatever messages it gets again, however requests end, and whenever it is restarted between
-- two messages; and the file then holds exactly the ids that it held and those dispatched.
pub dispatched_once :
    (file : List ℕ) (es : List Event)
    → let (h, sent) = run (record { ledger = load file; stats = no_stats }) es in
      Unique sent
      × All (λ id. holds file id ≡ false) sent
      × ((id : ℕ) → holds h.ledger.file id ≡ (holds file id || holds sent id))
unfolding load
dispatched_once file es =
    let r = run-IsStep (record { ledger = load file; stats = no_stats }) es (λ id. refl) in
    (r.unique, r.fresh, r.grows)
