-- ===== src/Outbox/Once.antt =====
-- No outbox row is sent to Kafka again after a flush has recorded its publication, if flushes do not
-- overlap.
use ranking.Prelude.{
  ℕ, ◌+◌, ◌*◌, ◌≡◌, refl, Bool, true, false, List, [], ◌∷◌, ◌++◌, map, none, All, All-append, holds,
  holds-append, Bool-cases, inl, inr, arith, Option, Unique, Unique-append,
}
use ranking.Outbox.{Sending, OutboxType, OutboxRow, is_claimable, Broker, flush_outbox, flush_batch}
use ranking.Outbox.Claims.{ids}
use ranking.Outbox.Flush.{
  recorded, is_recorded, sent_ids, recorded-append, sent_ids-append, publication,
  flush_publications, flush-Unique, sent-All,
}
use ranking.Outbox.Published.{
  is_published, holds_self, published-fresh, recorded-All, claimed_fresh, claimed_listed,
  ids-publication, ids-view, old-published, new-published, All-published_append, ids-append,
}
use ranking.Outbox.Flushers.{SideResult, flush_side, publication-flush_side}

-- The table, and all calls of `kafka.send`, in their order.
pub record World (P : Type 0) : Type 0 where
  pub table : List (OutboxRow P)
  pub log : List Sending

-- A row whose publication was recorded is not sent again.
abbrev pub IsSettled : List Sending → Type 0
IsSettled [] = Unit
IsSettled (e ∷ log) = (is_recorded e ≡ true → holds (sent_ids log) e.id ≡ false) × IsSettled log

Unique-IsSettled : (log : List Sending) → Unique (sent_ids log) → IsSettled log
Unique-IsSettled [] u = tt
Unique-IsSettled (e ∷ log) u = ((λ r. u.0), Unique-IsSettled log u.1)

append-IsSettled :
    (xs ys : List Sending)
    → IsSettled xs
    → IsSettled ys
    → All (λ id. holds (sent_ids ys) id ≡ false) (recorded xs)
    → IsSettled (xs ++ ys)
append-IsSettled [] ys h k d = k
append-IsSettled (x ∷ xs) ys h k d = elim (Bool-cases (is_recorded x)) [
  | inl r ↦
      let d' : All (λ id. holds (sent_ids ys) id ≡ false) (x.id ∷ recorded xs) = rw r at d in
      (
        (λ s. ground (
          arith,
          h.0 r,
          d'.0,
          sent_ids-append xs ys,
          holds-append (sent_ids xs) (sent_ids ys) x.id,
        )),
        append-IsSettled xs ys h.1 k d'.1,
      )
  | inr r ↦
      let d' : All (λ id. holds (sent_ids ys) id ≡ false) (recorded xs) = rw r at d in
      ((λ s. absurd (cc (s, r))), append-IsSettled xs ys h.1 k d')
]

fresh-All :
    (table : List (ℕ × Option ℕ)) (fresh log : List ℕ)
    → All (λ y. is_published y table ≡ false) fresh
    → All (λ id. is_published id table ≡ true) log
    → All (λ id. holds fresh id ≡ false) log
fresh-All table fresh [] f h = tt
fresh-All table fresh (x ∷ log) f h =
    (published-fresh table x fresh f h.0, fresh-All table fresh log f h.1)

module _ {P : Type 0} where
  -- What happens to the outbox: a service writes a row in its own transaction, a flusher of the
  -- process flushes, or the publisher does.
  pub data Step : World P → World P → Type 0 where
    write :
        (w : World P) (row : OutboxRow P)
        → holds (ids w.table) row.id ≡ false
        → row.kafka_published_at ≡ none
        → Step w (record { table = w.table ++ row ∷ []; log = w.log })
    other_side :
        (w : World P) (side : OutboxRow P → SideResult) (now : ℕ) (is_type : OutboxType → Bool)
        (locked : ℕ → Bool) (seconds : ℕ)
        → Step w
            (record { table = flush_side side now is_type locked seconds w.table; log = w.log })
    flush :
        (w : World P) (broker : Broker P) (types : OutboxType → Bool) (locked : ℕ → Bool)
        (now seconds : ℕ)
        → Step w (record {
          table = (flush_outbox broker now types locked seconds w.table).0;
          log = w.log ++ (flush_outbox broker now types locked seconds w.table).1;
        })

  pub data Reach (s : World P) : World P → Type 0 where
    here : Reach s s
    next : {t u : World P} → Reach s t → Step t u → Reach s u

  record IsConsistent (w : World P) : Type 0 where
    ids_unique : Unique (ids w.table)
    log_settled : IsSettled w.log
    log_published : All (λ id. is_published id (map publication w.table) ≡ true) (recorded w.log)

  same_publication-IsConsistent :
      (w : World P) (table : List (OutboxRow P))
      → map publication table ≡ map publication w.table
      → IsConsistent w
      → IsConsistent (record { table = table; log = w.log })
  same_publication-IsConsistent w table e c = record {
    ids_unique = rw (ids-publication table, e, ← ids-publication w.table) c.ids_unique;
    log_settled = c.log_settled;
    log_published = rw e c.log_published;
  }

  module _ (broker : Broker P) (types : OutboxType → Bool) (locked : ℕ → Bool) (now seconds : ℕ)
      (w : World P) (c : IsConsistent w) where
    sent_fresh :
        All
          (λ id. is_published id (map publication w.table) ≡ false)
          (sent_ids (flush_outbox broker now types locked seconds w.table).1)
    unfolding flush_outbox
    sent_fresh =
        sent-All broker now _ _ _
          (claimed_fresh types locked now (now + seconds * 1000) flush_batch w.table c.ids_unique)

    sent_listed :
        All
          (λ id. holds (ids w.table) id ≡ true)
          (sent_ids (flush_outbox broker now types locked seconds w.table).1)
    unfolding flush_outbox
    sent_listed =
        sent-All broker now (λ id. holds (ids w.table) id ≡ true) _ _
          (claimed_listed (is_claimable types locked now) (now + seconds * 1000) flush_batch
            w.table)

    flush-IsConsistent : IsConsistent (record {
      table = (flush_outbox broker now types locked seconds w.table).0;
      log = w.log ++ (flush_outbox broker now types locked seconds w.table).1;
    })
    flush-IsConsistent =
        let calls = (flush_outbox broker now types locked seconds w.table).1 in
        let sent = recorded calls in
        let view = flush_publications broker types locked now seconds w.table in
        record {
          ids_unique = rw (ids-publication _, view, ids-view now sent w.table) c.ids_unique;
          log_settled =
              append-IsSettled w.log calls c.log_settled
                (Unique-IsSettled calls
                  (flush-Unique broker types locked now seconds w.table c.ids_unique))
                (fresh-All _ (sent_ids calls) (recorded w.log) sent_fresh c.log_published);
          log_published =
              rw (view, recorded-append w.log calls)
                (All-append _ (recorded w.log) sent
                  (old-published now sent w.table (recorded w.log) c.log_published)
                  (new-published now sent w.table sent (holds_self sent)
                    (recorded-All _ calls sent_listed)));
        }

  Step-IsConsistent : {w w' : World P} → Step w w' → IsConsistent w → IsConsistent w'
  Step-IsConsistent (write w row fresh n) c = record {
    ids_unique =
        rw (ids-append w.table (row ∷ []))
          (Unique-append (ids w.table) (row.id ∷ []) c.ids_unique (refl, tt) (fresh, tt));
    log_settled = c.log_settled;
    log_published = All-published_append row w.table (recorded w.log) c.log_published;
  }
  Step-IsConsistent (other_side w side now is_type locked seconds) c =
      same_publication-IsConsistent w _
        (publication-flush_side side now is_type locked seconds w.table) c
  Step-IsConsistent (flush w broker types locked now seconds) c =
      flush-IsConsistent broker types locked now seconds w c

  Reach-IsConsistent : {s w : World P} → IsConsistent s → Reach s w → IsConsistent w
  Reach-IsConsistent c here = c
  Reach-IsConsistent c (next r st) = Step-IsConsistent st (Reach-IsConsistent c r)

  -- From a table with unique ids and no message sent, in every run of writes, flushes of the process's
  -- own flushers and flushes of the publisher, one after the other, whatever the broker, the database,
  -- the indexes and the clock show: once Kafka has confirmed the message of a row and the update after
  -- it has not thrown, the row is not sent again, and it is marked as published at the end. Nothing is said
  -- of further messages for a row whose update has thrown.
  pub sent_once :
      (table : List (OutboxRow P)) {w : World P}
      → Unique (ids table)
      → Reach (record { table = table; log = [] }) w
      → IsSettled w.log
        × All (λ id. is_published id (map publication w.table) ≡ true) (recorded w.log)
  sent_once table u r =
      let c =
        Reach-IsConsistent (record { ids_unique = u; log_settled = tt; log_published = tt }) r in
      (c.log_settled, c.log_published)
