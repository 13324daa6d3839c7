-- ===== src/Outbox/Flushers.antt =====
-- The flushers inside the process: the claim by type of src/outbox/outbox-claim.ts, and the loop that
-- src/search/elastic-entity-outbox-flusher.service.ts and
-- src/analytics/clickhouse-outbox-flusher.service.ts share. What the index, the database and the
-- payload make of a row is an argument.
use ranking.Prelude.{
  ℕ, zero, suc, ◌+◌, ◌*◌, ◌≡◌, refl, ap, ◌∙◌, Bool, true, false, ◌&&◌, not, none, some, List, [],
  ◌∷◌, map, String, arith, if◌then◌else◌, Bool-cases, inl, inr, nat_beq,
}
use ranking.Outbox.{
  OutboxType, OutboxRow, is_free, is_null, claim, update_row, backoff_seconds, flush_batch,
}
use ranking.Outbox.Flush.{publication}

-- How the work on a row ends: it is done, its payload is of no use, its snapshot is not there (yet),
-- or an exception is thrown.
pub data SideResult : Type 0 where
  finished : SideResult
  invalid missing thrown : String → SideResult

-- An exception ends the loop.
abbrev pub goes_on : SideResult → Bool
goes_on (SideResult.thrown error) = false
goes_on SideResult.finished = true
goes_on (SideResult.invalid error) = true
goes_on (SideResult.missing error) = true

module _ {P : Type 0} where
  -- The WHERE clause of `claimOutboxBatchByType`.
  unfoldable pub is_claimable_by_type : (OutboxType → Bool) → (ℕ → Bool) → ℕ → OutboxRow P → Bool
  is_claimable_by_type is_type locked now row =
      is_null row.published_at
      && (is_type row.type && (is_free now row.leased_until && not (locked row.id)))

  -- `claimOutboxBatchByType`.
  unfoldable pub claim_by_type :
      (OutboxType → Bool)
      → (ℕ → Bool)
      → ℕ
      → ℕ
      → ℕ
      → List (OutboxRow P)
      → List (OutboxRow P) × List (OutboxRow P)
  claim_by_type is_type locked now seconds limit table =
      claim (is_claimable_by_type is_type locked now) (now + seconds * 1000) limit table

  -- The row after the work on it.
  unfoldable pub after_side : ℕ → ℕ → SideResult → OutboxRow P → OutboxRow P
  after_side now attempts SideResult.finished row = record row {
    published_at = some now;
    last_error = none;
    leased_until = none;
  }
  after_side now attempts (SideResult.invalid error) row = record row {
    published_at = some now;
    last_error = some error;
    leased_until = none;
  }
  after_side now attempts (SideResult.missing error) row = record row {
    attempts = row.attempts + 1;
    last_error = some error;
    leased_until = some (now + 60_000);
  }
  after_side now attempts (SideResult.thrown error) row = record row {
    attempts = row.attempts + 1;
    last_error = some error;
    leased_until = some (now + backoff_seconds attempts * 1000);
  }

  module _ (side : OutboxRow P → SideResult) (now : ℕ) where
    unfoldable pub flush_side_rows : List (OutboxRow P) → List (OutboxRow P) → List (OutboxRow P)
    flush_side_rows [] table = table
    flush_side_rows (row ∷ rows) table =
        let table' = update_row row.id (after_side now row.attempts (side row)) table in
        let rest = flush_side_rows rows table' in if goes_on (side row) then rest else table'

    -- `flush`.
    unfoldable pub flush_side :
        (OutboxType → Bool) → (ℕ → Bool) → ℕ → List (OutboxRow P) → List (OutboxRow P)
    flush_side is_type locked seconds table =
        let (leased, claimed) = claim_by_type is_type locked now seconds flush_batch table in
        flush_side_rows claimed leased

  publication-claim :
      (test : OutboxRow P → Bool) (until limit : ℕ) (rows : List (OutboxRow P))
      → map publication (claim test until limit rows).0 ≡ map publication rows
  unfolding claim
  publication-claim test until limit [] = refl
  publication-claim test until zero (row ∷ rows) = refl
  publication-claim test until (suc limit) (row ∷ rows) = ground (
    arith,
    publication-claim test until limit rows,
    publication-claim test until (suc limit) rows,
  )

  publication-after_side :
      (now attempts : ℕ) (result : SideResult) (row : OutboxRow P)
      → publication (after_side now attempts result row) ≡ publication row
  unfolding after_side
  publication-after_side now attempts SideResult.finished row = refl
  publication-after_side now attempts (SideResult.invalid error) row = refl
  publication-after_side now attempts (SideResult.missing error) row = refl
  publication-after_side now attempts (SideResult.thrown error) row = refl

  publication-update_row :
      (id : ℕ) (f : OutboxRow P → OutboxRow P)
      → ((row : OutboxRow P) → publication (f row) ≡ publication row)
      → (rows : List (OutboxRow P)) → map publication (update_row id f rows) ≡ map publication rows
  unfolding update_row
  publication-update_row id f h [] = refl
  publication-update_row id f h (row ∷ rows) = elim (Bool-cases (nat_beq row.id id)) [
    | inl e ↦ rw (e, h row) (ap (◌∷◌ (publication row)) (publication-update_row id f h rows))
    | inr e ↦ rw e (ap (◌∷◌ (publication row)) (publication-update_row id f h rows))
  ]

  publication-flush_side_rows :
      (side : OutboxRow P → SideResult) (now : ℕ) (rows table : List (OutboxRow P))
      → map publication (flush_side_rows side now rows table) ≡ map publication table
  unfolding flush_side_rows
  publication-flush_side_rows side now [] table = refl
  publication-flush_side_rows side now (row ∷ rows) table =
      let f = after_side now row.attempts (side row) in
      let one =
        publication-update_row row.id f (publication-after_side now row.attempts (side row))
          table in
      elim (Bool-cases (goes_on (side row))) [
        | inl e ↦ rw e (publication-flush_side_rows side now rows (update_row row.id f table) ∙ one)
        | inr e ↦ rw e one
      ]

  -- A flusher leaves what Kafka has of each row as it is.
  pub publication-flush_side :
      (side : OutboxRow P → SideResult) (now : ℕ) (is_type : OutboxType → Bool) (locked : ℕ → Bool)
      (seconds : ℕ) (table : List (OutboxRow P))
      → map publication (flush_side side now is_type locked seconds table) ≡ map publication table
  unfolding flush_side claim_by_type
  publication-flush_side side now is_type locked seconds table =
      publication-flush_side_rows side now _ _
      ∙ publication-claim (is_claimable_by_type is_type locked now) (now + seconds * 1000)
          flush_batch table
