-- ===== src/Dispatch/Tests.antt =====
-- A run of the consumer: a refused request, its repetition, a restart and a late duplicate.
use ranking.Prelude.{ℕ, ◌≡◌, refl, false, ◌||◌, List, [], ◌∷◌, holds, Unique, All}
use ranking.Dispatch.{Handler, Envelope, Response, load, no_stats, handle, after_request, record_id}
use ranking.Dispatch.Once.{Event, run, on_event, dispatched_once}

abbrev note : ℕ → Envelope
note id = record { outbox_id = id; snapshot_id = "4" }

abbrev events : List Event
events =
    Event.message 10 (note 2) Response.refused
    ∷ Event.message 20 (note 2) Response.accepted
    ∷ Event.broken
    ∷ Event.restart
    ∷ Event.message 30 (note 2) Response.accepted
    ∷ Event.message 40 (note 1) Response.accepted
    ∷ Event.message 50 (note 3) Response.accepted
    ∷ []

abbrev first : Handler
first = record { ledger = load (1 ∷ []); stats = no_stats }

two_and_three : (run first events).1 ≡ 2 ∷ 3 ∷ []
unfolding run on_event handle after_request record_id load ranking.Dispatch.record_invalid
two_and_three = refl

-- A refused request counts as two failures.
counted_twice : (handle 10 Response.refused first (note 2)).0.stats.dispatch_failures ≡ 2
unfolding handle after_request load
counted_twice = refl

dispatched_once_example :
    let (h, sent) = run (record { ledger = load (1 ∷ []); stats = no_stats }) events in
    Unique sent
    × All (λ id. holds (1 ∷ []) id ≡ false) sent
    × ((id : ℕ) → holds h.ledger.file id ≡ (holds (1 ∷ []) id || holds sent id))
dispatched_once_example = dispatched_once (1 ∷ []) events
