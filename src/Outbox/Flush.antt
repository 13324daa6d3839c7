-- ===== src/Outbox/Flush.antt =====
-- What a flush of the outbox leaves, and that it sends no row twice.
use mathlib.Core.List.{append-nil}
use ranking.Prelude.{
  ℕ, zero, suc, ◌+◌, ◌*◌, ◌≡◌, refl, ◌∙◌, Bool, true, false, List, [], ◌∷◌, ◌++◌, map, none, String,
  ap, any, not, is_empty, some, Option, All, All-append, arith, holds, holds-append, Unique,
  nat_beq_iff, if◌then◌else◌, filter,
}
use ranking.Outbox.{
  OutboxType, OutboxRow, is_claimable, claim, claim_for_kafka, update_row, Broker, SendResult,
  Sending, Next, proceed, publish_row, publish_rows, flush_outbox, flush_batch,
}
use ranking.Outbox.Claims.{ids, Unique-claimed}

abbrev pub sent_ids : List Sending → List ℕ
sent_ids log = map (λ e. e.id) log

-- Kafka has confirmed the message, and the update after it has not thrown.
abbrev confirmed : SendResult → Option String → Bool
confirmed SendResult.sent none = true
confirmed _ _ = false

abbrev pub is_recorded : Sending → Bool
is_recorded e = confirmed e.answer e.update_error

abbrev pub recorded : List Sending → List ℕ
recorded log = sent_ids (filter is_recorded log)

pub recorded-append : (xs ys : List Sending) → recorded (xs ++ ys) ≡ recorded xs ++ recorded ys
recorded-append [] ys = refl
recorded-append (x ∷ xs) ys = ground (arith, recorded-append xs ys)

pub sent_ids-append : (xs ys : List Sending) → sent_ids (xs ++ ys) ≡ sent_ids xs ++ sent_ids ys
sent_ids-append [] ys = refl
sent_ids-append (x ∷ xs) ys = ap (◌∷◌ x.id) (sent_ids-append xs ys)

some_of-All : (Q : ℕ → Type 0) (done : Bool) (id : ℕ) → Q id → All Q (if done then id ∷ [] else [])
some_of-All Q true id q = (q, tt)
some_of-All Q false id q = tt

module _ {P : Type 0} where
  -- A row with its publication time, if it was not among those recorded at `now`, and `now` else.
  abbrev pub published_view : ℕ → List ℕ → OutboxRow P → ℕ × Option ℕ
  published_view now sent row =
      (row.id, if holds sent row.id then some now else row.kafka_published_at)

  abbrev pub publication : OutboxRow P → ℕ × Option ℕ
  publication row = (row.id, row.kafka_published_at)

  module _ (broker : Broker P) (now : ℕ) where
    abbrev some_of : Bool → ℕ → List ℕ
    some_of done id = if done then id ∷ [] else []

    -- What the update of a row does to its publication time, and that it leaves its id.
    publish_row_update :
        (row other : OutboxRow P)
        → let (update, next, calls) = publish_row broker now row in
          ((update other).id ≡ other.id)
          × ((update other).kafka_published_at
              ≡ (if any is_recorded calls then some now else other.kafka_published_at))
    unfolding publish_row
    publish_row_update row other = ground arith

    -- A row sends itself alone, and once.
    publish_row-calls :
        (row : OutboxRow P)
        → let (update, next, calls) = publish_row broker now row in
          (recorded calls ≡ some_of (any is_recorded calls) row.id)
          × (sent_ids calls ≡ some_of (not (is_empty calls)) row.id)
    unfolding publish_row
    publish_row-calls row = ground arith

    view-update_row :
        (row : OutboxRow P) (later : List ℕ) (table : List (OutboxRow P))
        → let (update, next, calls) = publish_row broker now row in
          map (published_view now later) (update_row row.id update table)
          ≡ map (published_view now (some_of (any is_recorded calls) row.id ++ later)) table
    unfolding update_row
    view-update_row row later [] = refl
    view-update_row row later (other ∷ table) = ground (
      arith,
      publish_row_update row other,
      view-update_row row later table,
      nat_beq_iff other.id row.id,
      nat_beq_iff row.id other.id,
    )

    view-publish_rows :
        (rows table : List (OutboxRow P))
        → let (after, calls) = publish_rows broker now rows table in
          map publication after ≡ map (published_view now (recorded calls)) table
    unfolding publish_rows
    view-publish_rows [] table = refl
    view-publish_rows (row ∷ rows) table =
        let (update, next, calls) = publish_row broker now row in
        let table' = update_row row.id update table in
        let later = publish_rows broker now rows table' in
        ground (
          arith,
          view-publish_rows rows table',
          view-update_row row [] table,
          view-update_row row (recorded later.1) table,
          append-nil (some_of (any is_recorded calls) row.id),
          recorded-append calls later.1,
          (publish_row-calls row).0,
        )

    holds-sent :
        (rows table : List (OutboxRow P)) (x : ℕ)
        → holds (ids rows) x ≡ false
        → holds (sent_ids (publish_rows broker now rows table).1) x ≡ false
    unfolding publish_rows
    holds-sent [] table x h = refl
    holds-sent (row ∷ rows) table x h =
        let (update, next, calls) = publish_row broker now row in
        let table' = update_row row.id update table in
        let later = publish_rows broker now rows table' in
        ground (
          arith,
          holds-sent rows table' x,
          holds-append (sent_ids calls) (sent_ids later.1) x,
          sent_ids-append calls later.1,
          (publish_row-calls row).1,
        )

    -- A flush sends no row twice.
    Unique-sent :
        (rows table : List (OutboxRow P))
        → Unique (ids rows)
        → Unique (sent_ids (publish_rows broker now rows table).1)
    unfolding publish_rows
    Unique-sent [] table u = tt
    Unique-sent (row ∷ rows) table u =
        let (update, next, calls) = publish_row broker now row in
        let table' = update_row row.id update table in
        let later = publish_rows broker now rows table' in
        ground (
          arith,
          holds-sent rows table' row.id,
          Unique-sent rows table' u.1,
          sent_ids-append calls later.1,
          (publish_row-calls row).1,
        )

  claim-view :
      (now : ℕ) (sent : List ℕ) (test : OutboxRow P → Bool) (until limit : ℕ)
      (rows : List (OutboxRow P))
      → map (published_view now sent) (claim test until limit rows).0
        ≡ map (published_view now sent) rows
  unfolding claim
  claim-view now sent test until limit [] = refl
  claim-view now sent test until zero (row ∷ rows) = refl
  claim-view now sent test until (suc limit) (row ∷ rows) = ground (
    arith,
    claim-view now sent test until limit rows,
    claim-view now sent test until (suc limit) rows,
  )

  -- A flush sets the publication time of exactly the rows whose message Kafka has confirmed and whose update
  -- after that has not thrown, to the time of the flush; it adds and removes no row and keeps the other
  -- publication times.
  pub flush_publications :
      (broker : Broker P) (types : OutboxType → Bool) (locked : ℕ → Bool) (now seconds : ℕ)
      (table : List (OutboxRow P))
      → let (after, calls) = flush_outbox broker now types locked seconds table in
        map publication after ≡ map (published_view now (recorded calls)) table
  unfolding flush_outbox
  flush_publications broker types locked now seconds table =
      let test = is_claimable types locked now in
      let (leased, claimed) = claim_for_kafka types locked now seconds flush_batch table in
      view-publish_rows broker now claimed leased
      ∙ claim-view now (recorded (publish_rows broker now claimed leased).1) test
          (now + seconds * 1000) flush_batch table

  pub flush-Unique :
      (broker : Broker P) (types : OutboxType → Bool) (locked : ℕ → Bool) (now seconds : ℕ)
      (table : List (OutboxRow P))
      → Unique (ids table)
      → Unique (sent_ids (flush_outbox broker now types locked seconds table).1)
  unfolding flush_outbox
  flush-Unique broker types locked now seconds table u =
      Unique-sent broker now _ _ (Unique-claimed _ _ flush_batch table u)

  proceed-All :
      (Q : ℕ → Type 0) (next : Next) (table : List (OutboxRow P)) (calls : List Sending)
      (rest : List (OutboxRow P) × List Sending)
      → All Q (sent_ids calls)
      → All Q (sent_ids rest.1)
      → All Q (sent_ids (proceed next table calls rest).1)
  proceed-All Q Next.stop table calls rest h k = h
  proceed-All Q Next.go_on table calls rest h k =
      rw (sent_ids-append calls rest.1) (All-append Q (sent_ids calls) (sent_ids rest.1) h k)

  -- What holds of the ids of all claimed rows holds of those sent.
  pub sent-All :
      (broker : Broker P) (now : ℕ) (Q : ℕ → Type 0) (rows table : List (OutboxRow P))
      → All Q (ids rows)
      → All Q (sent_ids (publish_rows broker now rows table).1)
  unfolding publish_rows
  sent-All broker now Q [] table h = tt
  sent-All broker now Q (row ∷ rows) table h =
      let (update, next, calls) = publish_row broker now row in
      let table' = update_row row.id update table in
      proceed-All Q next table' calls (publish_rows broker now rows table')
        (rw ((publish_row-calls broker now row).1)
          (some_of-All Q (not (is_empty calls)) row.id h.0))
        (sent-All broker now Q rows table' h.1)
