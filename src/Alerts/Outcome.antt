-- ===== src/Alerts/Outcome.antt =====
-- What one call of `dispatch` of src/observability/alert-webhook-router.service.ts does to the times of
-- the alerts.
use ranking.Prelude.{
  ℕ, ◌⊎◌, ◌+◌, ◌*◌, ◌≤◌, ◌≡◌, refl, Bool, true, false, Option, none, some, List, [], ◌∷◌, map,
  if◌then◌else◌, filter, Bool-cases, inl, inr, arith,
}
use mathlib.Core.List.{Memᴰ}
use mathlib.Core.List.Memᴰ
use ranking.Prelude.Dict.{Dict, get}
use ranking.Prelude.Texts.{Text, text_key}
use ranking.Alerts.{AlertItem}
use ranking.Alerts.Router.{
  Config, Input, Post, Reply, Dispatched, cooldown_key, is_due, mark_sent, after_reply, send,
  unless_none_due, Payload, nothing_posted, envelope, dispatch_due, dispatch, given,
  resolve_webhook_url, build_payload, worst_severity,
}

-- The keys may be sent now.
abbrev pub IsFree : ℕ → ℕ → Dict Text ℕ → List Text → Type 0
IsFree gap now m ks = (k : Text) → Memᴰ k ks → (t : ℕ) → get k m ≡ some t → t + gap ≤ now

-- What a call does to the map: nothing, or the keys of an accepted post are set.
abbrev pub IsOutcome : ℕ → ℕ → Dict Text ℕ → Dispatched → Type 0
IsOutcome gap now m d =
    ((d.last_sent_at ≡ m) × (d.result.sent ≡ 0))
    ⊎ ((p : Post × List Text) × (d.post ≡ some p)
        × (d.result.sent ≡ 1)
        × (d.last_sent_at ≡ mark_sent now p.1 m)
        × IsFree gap now m p.1)

module _ (cfg : Config) (fetch : Post → Reply) (now : ℕ) (input : Input) (m : Dict Text ℕ) where
  abbrev gap : ℕ
  gap = cfg.cooldown_seconds * 1000

  abbrev due_keys : List AlertItem → List Text
  due_keys alerts =
      map (cooldown_key input.category) (filter (is_due cfg now m input.category) alerts)

  free_head :
      (a : AlertItem) (k : Text) (t : ℕ)
      → is_due cfg now m input.category a ≡ true
      → k ≡ cooldown_key input.category a
      → get k m ≡ some t
      → t + gap ≤ now
  unfolding is_due
  free_head a k t f p e =
      let e' : get (cooldown_key input.category a) m ≡ some t = rw (← p) e in ground arith

  IsFree-due : (alerts : List AlertItem) → IsFree gap now m (due_keys alerts)
  IsFree-due [] k h t e = elim h [ ]
  IsFree-due (a ∷ alerts) k h t e = elim (Bool-cases (is_due cfg now m input.category a)) [
    | inl f ↦
        let h' : Memᴰ k (cooldown_key input.category a ∷ due_keys alerts) = rw f at h in
        elim (Memᴰ.cases_cons h') [
          | inl p ↦ free_head a k t f p e
          | inr i ↦ IsFree-due alerts k i t e
        ]
    | inr f ↦ let h' : Memᴰ k (due_keys alerts) = rw f at h in IsFree-due alerts k h' t e
  ]

  module _ (skipped : ℕ) (due : List AlertItem) where
    abbrev keys_of_due : List Text
    keys_of_due = map (cooldown_key input.category) due

    module _ (free : IsFree gap now m keys_of_due) where
      after_reply-IsOutcome :
          (post : Post) (r : Reply)
          → IsOutcome gap now m (after_reply now m skipped post keys_of_due r)
      unfolding after_reply
      after_reply-IsOutcome post Reply.success = inr ((post, keys_of_due), refl, refl, refl, free)
      after_reply-IsOutcome post (Reply.status n) = inl (refl, refl)
      after_reply-IsOutcome post (Reply.exception e) = inl (refl, refl)

      send-IsOutcome :
          (url : Text) (body : Option Payload)
          → IsOutcome gap now m (send now m skipped cfg fetch input due url body)
      send-IsOutcome url none = inl (refl, refl)
      send-IsOutcome url (some body) = after_reply-IsOutcome _ (fetch _)

      route-IsOutcome :
          (o : Option Text)
          → IsOutcome gap now m (elim o [
            | none ↦ nothing_posted now m skipped true []
            | some url ↦
                send now m skipped cfg fetch input due url
                  (build_payload cfg url (envelope now m skipped cfg fetch input due))
          ])
      route-IsOutcome none = inl (refl, refl)
      route-IsOutcome (some url) = send-IsOutcome url _

      dispatch_due-IsOutcome : IsOutcome gap now m (dispatch_due now m skipped cfg fetch input due)
      unfolding dispatch_due
      dispatch_due-IsOutcome =
          route-IsOutcome (given (resolve_webhook_url cfg input.category (worst_severity due)))

  unless_none_due-IsOutcome :
      (skipped : ℕ) (due : List AlertItem)
      → IsFree gap now m (map (cooldown_key input.category) due)
      → IsOutcome gap now m (unless_none_due now m skipped cfg fetch input due)
  unless_none_due-IsOutcome skipped [] free = inl (refl, refl)
  unless_none_due-IsOutcome skipped (a ∷ due) free = dispatch_due-IsOutcome skipped (a ∷ due) free

  disabled-IsOutcome :
      (disabled : Bool) (d : Dispatched)
      → IsOutcome gap now m d
      → IsOutcome gap now m (if disabled then nothing_posted now m 0 false [] else d)
  disabled-IsOutcome true d h = inl (refl, refl)
  disabled-IsOutcome false d h = h

  pub dispatch-IsOutcome : IsOutcome gap now m (dispatch cfg fetch now input m)
  unfolding dispatch
  dispatch-IsOutcome =
      disabled-IsOutcome cfg.disabled _ (unless_none_due-IsOutcome _ _ (IsFree-due input.alerts))
