-- ===== src/Gateway/Health/Cooldown.antt =====
-- What a failure writes to the row of its key, and when the key is live again.
use proxy2api.Base.{
  ℕ, ◌+◌, ◌^◌, ◌<◌, ◌≡◌, refl, ◌⊎◌, inl, inr, Bool, true, false, map, arith, if◌then◌else◌,
  Bool-cases, ℤ, pos, negsuc, ◌+ℤ◌, ◌*ℤ◌, ◌≤ℤ◌, ◌<ℤ◌, ltb_ℤ, leb_ℤ, eq_ℤ, add64, int_laws, add64-id,
  Str, Result, ok, err,
}
use mathlib.Core.Path.{subst}
use proxy2api.Store.Gorm.{Gorm, GormLaws}
use proxy2api.Store.Rows.{ProviderKey}
use proxy2api.Store.Tables.{Store}
use proxy2api.Store.Lists.{update_provider_key_health}
use proxy2api.Gateway.Types.{ProviderState, ProviderKeyState}
use proxy2api.Gateway.Snapshot.{seconds, from_unix}
use proxy2api.Gateway.Health.{unix_of, max_duration, next_health, mark_provider_key_failure}

-- A second of whole seconds is lost at most.
unix_of-from : (t : ℤ) → t <ℤ from_unix (unix_of t) +ℤ pos 1000000000
unfolding unix_of ◌+ℤ◌ ◌*ℤ◌
unix_of-from (pos n) = ground arith
unix_of-from (negsuc n) = ground arith

from_unix-le : (t : ℤ) → from_unix (unix_of t) ≤ℤ t
unfolding unix_of ◌*ℤ◌
from_unix-le (pos n) = ground arith
from_unix-le (negsuc n) = ground arith

add64_one : (n : ℕ) → n < 2 ^ 62 → add64 (pos n) (pos 1) ≡ pos (n + 1)
add64_one n h =
    rw (add64-id (pos n) (pos 1) (unfold ◌+ℤ◌ in ground arith)) (unfold ◌+ℤ◌ in ground arith)

max_duration-bounds :
    (a b : ℤ)
    → (a ≤ℤ max_duration a b)
      × (b ≤ℤ max_duration a b)
      × ((max_duration a b ≡ a) ⊎ (max_duration a b ≡ b))
max_duration-bounds a b = elim (Bool-cases (ltb_ℤ b a)) [
  | inl e ↦ rw e (omega int_laws, ground arith, inl refl)
  | inr e ↦ rw e (ground arith, omega int_laws, inr refl)
]

-- The instant, in whole seconds, at which both durations from `now` on are over: not more than a
-- second before the end of either, and not after the end of both.
pub record EndsBoth (now : ℕ) (a b : ℤ) (until : ℤ) : Type 0 where
  pub after_first : pos now +ℤ a <ℤ from_unix until +ℤ pos 1000000000
  pub after_second : pos now +ℤ b <ℤ from_unix until +ℤ pos 1000000000
  pub not_later : (from_unix until ≤ℤ pos now +ℤ a) ⊎ (from_unix until ≤ℤ pos now +ℤ b)

below_sum : (n a m x : ℤ) → a ≤ℤ m → n +ℤ m <ℤ x → n +ℤ a <ℤ x
below_sum n a m x h l = omega int_laws

max_duration-EndsBoth :
    (now : ℕ) (a b : ℤ) → EndsBoth now a b (unix_of (pos now +ℤ max_duration a b))
max_duration-EndsBoth now a b =
    let (above_a, above_b, one_of) = max_duration-bounds a b in
    let m = max_duration a b in
    let low = unix_of-from (pos now +ℤ m) in
    let high = from_unix-le (pos now +ℤ m) in
    record {
      after_first = below_sum (pos now) a m _ above_a low;
      after_second = below_sum (pos now) b m _ above_b low;
      not_later = elim one_of [
        | inl e ↦ inl (subst (λ x. from_unix (unix_of (pos now +ℤ m)) ≤ℤ pos now +ℤ x) e high)
        | inr e ↦ inr (subst (λ x. from_unix (unix_of (pos now +ℤ m)) ≤ℤ pos now +ℤ x) e high)
      ];
    }

next_health-at :
    (m c : ℤ) (p : ProviderState) (k : ProviderKeyState) (n now : ℕ)
    → n < 2 ^ 62
    → k.consecutive_errs ≡ pos n
    → leb_ℤ m (pos (n + 1)) ≡ true
    → next_health m c p k now
      ≡ (pos 0, unix_of (pos now +ℤ max_duration p.recover_interval (seconds c)))
unfolding next_health
next_health-at m c p k n now small e full = rw (e, add64_one n small, full) refl

next_health-below :
    (m c : ℤ) (p : ProviderState) (k : ProviderKeyState) (n now : ℕ)
    → n < 2 ^ 62
    → k.consecutive_errs ≡ pos n
    → leb_ℤ m (pos (n + 1)) ≡ false
    → next_health m c p k now ≡ (pos (n + 1), pos 0)
unfolding next_health
next_health-below m c p k n now small e full = rw (e, add64_one n small, full) refl

module _ (g : Gorm) (laws : GormLaws g) where
  -- The rows of an id have got a counter, an end of the cooldown and a status, and nothing else has
  -- changed.
  pub record IsWritten (id errs until : ℤ) (status : Str) (s s' : Store g) : Type 0 where
    pub rows :
        g.rows s'.provider_keys
        ≡ map
            (λ y.
              if eq_ℤ y.id id
              then record y {
                consecutive_errs = errs;
                cooldown_until = until;
                last_status = status;
              }
              else y)
            (g.rows s.provider_keys)
    pub others : s' ≡ record s { provider_keys = s'.provider_keys }

  -- The statement that writes a health for the id is an error.
  abbrev pub Unwritten : ℤ → Str → Store g → Type 0
  Unwritten id status s =
      (errs : ℤ) × (until : ℤ) × (e : Str) × ((update_provider_key_health g id errs until status
          s).0
        ≡ err e)

  update-IsWritten :
      (id errs until : ℤ) (status : Str) (s : Store g)
      → IsWritten id errs until status s (update_provider_key_health g id errs until status s).1
        ⊎ (((update_provider_key_health g id errs until status s).1 ≡ s) × Unwritten id status s)
  unfolding update_provider_key_health
  update-IsWritten id errs until status s = ran (g.updates same write s.provider_keys) refl
    where
      same : ProviderKey → Bool
      same k = eq_ℤ k.id id

      write : ProviderKey → ProviderKey
      write k = record k { consecutive_errs = errs; cooldown_until = until; last_status = status }

      ran :
          (m : Result (ℕ × g.Table ProviderKey))
          → g.updates same write s.provider_keys ≡ m
          → IsWritten id errs until status s (update_provider_key_health g id errs until status s).1
            ⊎ (((update_provider_key_health g id errs until status s).1 ≡ s)
                × Unwritten id status s)
      ran (err e) h = inr (
        rw (update_provider_key_health, h) refl,
        (errs, until, e, rw (update_provider_key_health, h) refl),
      )
      ran (ok (n, keys)) h =
          let rows = (laws.updates_rows same write s.provider_keys n keys h).1 in
          rw (update_provider_key_health, h) (inl (record { rows = rows; others = refl }))

  -- The end of a failure of a key with the counter `n`.
  abbrev pub Failed :
      (threshold cooldown_sec : ℤ) → ProviderState → ℤ → ℕ → Str → ℕ → Store g → Store g → Type 0
  Failed threshold cooldown_sec p id n status now s s' =
      ((pos (n + 1) <ℤ threshold) × IsWritten id (pos (n + 1)) (pos 0) status s s')
      ⊎ ((threshold ≤ℤ pos (n + 1))
          × ((until : ℤ) × EndsBoth now p.recover_interval (seconds cooldown_sec) until
              × IsWritten id (pos 0) until status s s'))

  -- A failure of a key with the counter `n`, below 2 ^ 62, either counts up, where `n + 1` is below
  -- the threshold, with no cooldown; or it sets the counter to zero and the cooldown to the whole
  -- second in which the longer one of the provider's interval and of the configured one ends. Both
  -- are written to the rows of the key, with the status, and nothing else changes. Or the statement
  -- is an error and nothing changes.
  pub mark_provider_key_failure-Failed :
      (threshold cooldown_sec : ℤ) (p : ProviderState) (k : ProviderKeyState) (n : ℕ) (status : Str)
      (now : ℕ) (s : Store g)
      → n < 2 ^ 62
      → k.consecutive_errs ≡ pos n
      → Failed threshold cooldown_sec p k.id n status now s
          (mark_provider_key_failure g threshold cooldown_sec p k status now s)
        ⊎ ((mark_provider_key_failure g threshold cooldown_sec p k status now s ≡ s)
            × Unwritten k.id status s)
  unfolding mark_provider_key_failure
  mark_provider_key_failure-Failed threshold cooldown_sec p k n status now s small counted =
      elim (Bool-cases (leb_ℤ threshold (pos (n + 1)))) [
        | inl e ↦
            let until =
              unix_of (pos now +ℤ max_duration p.recover_interval (seconds cooldown_sec)) in
            rw
              (
                mark_provider_key_failure,
                next_health-at threshold cooldown_sec p k n now small counted e,
              )
              (elim (update-IsWritten k.id (pos 0) until status s) [
                | inl w ↦ inl (
                    inr (
                      ground arith,
                      (
                        until,
                        max_duration-EndsBoth now p.recover_interval (seconds cooldown_sec),
                        w,
                      ),
                    ))
                | inr x ↦ inr x
              ])
        | inr e ↦
            rw
              (
                mark_provider_key_failure,
                next_health-below threshold cooldown_sec p k n now small counted e,
              )
              (elim (update-IsWritten k.id (pos (n + 1)) (pos 0) status s) [
                | inl w ↦ inl (inl (ground arith, w))
                | inr x ↦ inr x
              ])
      ]
