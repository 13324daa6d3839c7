-- ===== src/Alerts/Cooldown.antt =====
-- Runs of `dispatch` of src/observability/alert-webhook-router.service.ts, one after the other: an alert
-- is not repeated within its cooldown, and a post that failed is repeated.
use ranking.Prelude.{
  ℕ, ◌+◌, ◌*◌, ◌≤◌, ◌≡◌, refl, sym, true, none, some, List, [], ◌∷◌, if◌then◌else◌, any, All,
  Bool-cases, inl, inr, arith, ltb,
}
use mathlib.Core.List.{Memᴰ}
use ranking.Prelude.Keys.{◌==◌}
use ranking.Prelude.Dict.{Dict, get, set, get-set}
use ranking.Prelude.Texts.{Text, text_key, text_beq_iff}
use ranking.Alerts.Outcome.{IsFree, dispatch-IsOutcome}
use ranking.Alerts.Router.{
  Config, Input, Post, Reply, Dispatched, mark_sent, after_reply, dispatch_due, dispatch,
}

-- A call: its time, its input and what the address replies.
pub record Call : Type 0 where
  pub now : ℕ
  pub input : Input
  pub fetch : Post → Reply

-- A post that was accepted: its time and the keys of its alerts.
pub record Accepted : Type 0 where
  pub time : ℕ
  pub keys : List Text

pub record State : Type 0 where
  pub last_sent_at : Dict Text ℕ
  pub log : List Accepted

abbrev pub idle : State
idle = record { last_sent_at = []; log = [] }

abbrev logged : ℕ → Dispatched → List Accepted → List Accepted
logged now d log = elim d.post [
  | none ↦ log
  | some p ↦ if ltb 0 d.result.sent then (record { time = now; keys = p.1 }) ∷ log else log
]

unfoldable pub step : Config → Call → State → State
step cfg c s =
    let d = dispatch cfg c.fetch c.now c.input s.last_sent_at in
    record { last_sent_at = d.last_sent_at; log = logged c.now d s.log }

-- The last call stands first.
unfoldable pub run : Config → List Call → State
unfolding step
run cfg [] = idle
run cfg (c ∷ calls) = step cfg c (run cfg calls)

-- An alert of both posts is sent at least `gap` milliseconds after the older one.
abbrev pub IsSpacedFrom : ℕ → Accepted → Accepted → Type 0
IsSpacedFrom gap newer older =
    (k : Text) → Memᴰ k newer.keys → Memᴰ k older.keys → older.time + gap ≤ newer.time

abbrev pub IsSpaced : ℕ → List Accepted → Type 0
IsSpaced gap [] = Unit
IsSpaced gap (p ∷ log) = All (IsSpacedFrom gap p) log × IsSpaced gap log

-- The map knows a time for each key of the post, and no earlier one.
abbrev IsKnown : Dict Text ℕ → Accepted → Type 0
IsKnown m p = (k : Text) → Memᴰ k p.keys → (t : ℕ) × (get k m ≡ some t) × (p.time ≤ t)

get-mark_sent :
    (now : ℕ) (ks : List Text) (m : Dict Text ℕ) (k : Text)
    → get k (mark_sent now ks m) ≡ (if any (λ j. j == k) ks then some now else get k m)
unfolding mark_sent
get-mark_sent now [] m k = refl
get-mark_sent now (j ∷ ks) m k =
    ground (arith, get-mark_sent now ks (set j now m) k, get-set j k now m)

any-Mem : (k : Text) (ks : List Text) → Memᴰ k ks → any (λ j. j == k) ks ≡ true
any-Mem k [] h = elim h [ ]
any-Mem k (j ∷ ks) (Memᴰ.head e) = ground (arith, text_beq_iff j k)
any-Mem k (j ∷ ks) (Memᴰ.tail h) = ground (arith, any-Mem k ks h)

Mem-any : (k : Text) (ks : List Text) → any (λ j. j == k) ks ≡ true → Memᴰ k ks
Mem-any k [] h = absurd (cc)
Mem-any k (j ∷ ks) h = elim (Bool-cases (j == k)) [
  | inl e ↦ Memᴰ.head (sym ((text_beq_iff j k).0 e))
  | inr e ↦ Memᴰ.tail (Mem-any k ks (ground arith))
]

module _ (gap now : ℕ) (m : Dict Text ℕ) (ks : List Text) (free : IsFree gap now m ks) where
  IsKnown-mark_sent : (p : Accepted) → IsKnown m p → IsKnown (mark_sent now ks m) p
  IsKnown-mark_sent p h k i =
      let (t, e, l) = h k i in
      elim (Bool-cases (any (λ j. j == k) ks)) [
        | inl f ↦ (now, rw (get-mark_sent now ks m k, f) refl, later t e l f)
        | inr f ↦ (t, rw (get-mark_sent now ks m k, f) e, l)
      ]
    where
      later : (t : ℕ) → get k m ≡ some t → p.time ≤ t → any (λ j. j == k) ks ≡ true → p.time ≤ now
      later t e l f = let l' : t + gap ≤ now = free k (Mem-any k ks f) t e in omega arith

  IsKnown-All : (log : List Accepted) → All (IsKnown m) log → All (IsKnown (mark_sent now ks m)) log
  IsKnown-All [] h = tt
  IsKnown-All (p ∷ log) h = (IsKnown-mark_sent p h.0, IsKnown-All log h.1)

  IsKnown-new : IsKnown (mark_sent now ks m) (record { time = now; keys = ks })
  IsKnown-new k i = (now, rw (get-mark_sent now ks m k, any-Mem k ks i) refl, omega arith)

  spaced_new :
      (log : List Accepted)
      → All (IsKnown m) log
      → All (IsSpacedFrom gap (record { time = now; keys = ks })) log
  spaced_new [] h = tt
  spaced_new (p ∷ log) h = (λ k i j. apart k i (h.0 k j), spaced_new log h.1)
    where
      apart :
          (k : Text) → Memᴰ k ks → (t : ℕ) × (get k m ≡ some t) × (p.time ≤ t) → p.time + gap ≤ now
      apart k i (t, e, l) = let l' : t + gap ≤ now = free k i t e in omega arith

module _ (cfg : Config) where
  abbrev IsInvariant : State → Type 0
  IsInvariant s = All (IsKnown s.last_sent_at) s.log × IsSpaced (cfg.cooldown_seconds * 1000) s.log

  silent-IsInvariant :
      (now : ℕ) (s : State) (d : Dispatched)
      → IsInvariant s
      → d.last_sent_at ≡ s.last_sent_at
      → d.result.sent ≡ 0
      → IsInvariant (record { last_sent_at = d.last_sent_at; log = logged now d s.log })
  silent-IsInvariant now s d h e f =
      let same : logged now d s.log ≡ s.log = ground arith in rw (e, same) h

  sent-IsInvariant :
      (now : ℕ) (s : State) (d : Dispatched) (p : Post × List Text)
      → IsInvariant s
      → d.post ≡ some p
      → d.result.sent ≡ 1
      → d.last_sent_at ≡ mark_sent now p.1 s.last_sent_at
      → IsFree (cfg.cooldown_seconds * 1000) now s.last_sent_at p.1
      → IsInvariant (record { last_sent_at = d.last_sent_at; log = logged now d s.log })
  sent-IsInvariant now s d p h e f g free =
      let gap = cfg.cooldown_seconds * 1000 in
      rw (g, e, f)
        (
          (
            IsKnown-new gap now s.last_sent_at p.1 free,
            IsKnown-All gap now s.last_sent_at p.1 free s.log h.0,
          ),
          (spaced_new gap now s.last_sent_at p.1 free s.log h.0, h.1),
        )

  step-IsInvariant : (c : Call) (s : State) → IsInvariant s → IsInvariant (step cfg c s)
  unfolding step
  step-IsInvariant c s h = elim (dispatch-IsOutcome cfg c.fetch c.now c.input s.last_sent_at) [
    | inl (e, f) ↦
        silent-IsInvariant c.now s (dispatch cfg c.fetch c.now c.input s.last_sent_at) h e f
    | inr (p, e, f, g, free) ↦
        sent-IsInvariant c.now s (dispatch cfg c.fetch c.now c.input s.last_sent_at) p h e f g free
  ]

  run-IsInvariant : (calls : List Call) → IsInvariant (run cfg calls)
  unfolding run
  run-IsInvariant [] = (tt, tt)
  run-IsInvariant (c ∷ calls) = step-IsInvariant c (run cfg calls) (run-IsInvariant calls)

  -- Over any sequence of calls of `dispatch`, with any inputs, replies and clock readings, an alert that
  -- was sent for a category is sent for it again only when the cooldown is over: of two accepted posts
  -- with an alert of the same code and severity, the later one is at least the cooldown younger.
  pub run-IsSpaced :
      (calls : List Call) → IsSpaced (cfg.cooldown_seconds * 1000) (run cfg calls).log
  run-IsSpaced calls = (run-IsInvariant calls).1

  post_again :
      (now : ℕ) (input : Input) (m : Dict Text ℕ) (fetch : Post → Reply) (p : Post × List Text)
      → (dispatch cfg fetch now input m).post ≡ some p
      → ((dispatch cfg (λ q. Reply.success) now input m).post ≡ some p)
        × ((dispatch cfg (λ q. Reply.success) now input m).result.sent ≡ 1)
  unfolding dispatch dispatch_due after_reply
  post_again now input m fetch p e = ground arith

  -- A call that does not succeed leaves no trace in the cooldowns: if the address refuses a post or
  -- cannot be reached, the same call with a reply of success then sends the same post, and counts one.
  pub dispatch_retried :
      (now : ℕ) (input : Input) (m : Dict Text ℕ) (fetch : Post → Reply) (p : Post × List Text)
      → (dispatch cfg fetch now input m).post ≡ some p
      → (dispatch cfg fetch now input m).result.sent ≡ 0
      → let again =
          dispatch cfg
            (λ q. Reply.success)
            now
            input
            (dispatch cfg fetch now input m).last_sent_at in
        (again.post ≡ some p) × (again.result.sent ≡ 1)
  dispatch_retried now input m fetch p e f = elim (dispatch-IsOutcome cfg fetch now input m) [
    | inl (g, h) ↦ rw g (post_again now input m fetch p e)
    | inr (q, g, h, i, j) ↦ absurd (omega (arith, h, f))
  ]
