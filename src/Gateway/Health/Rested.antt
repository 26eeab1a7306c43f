-- ===== src/Gateway/Health/Rested.antt =====
-- A key whose failures have reached the threshold rests, and is live again afterwards.
use proxy2api.Base.{
  ℕ, ◌+◌, ◌^◌, ◌<◌, ◌≡◌, refl, ap, ◌∙◌, ◌⊎◌, inl, inr, true, false, arith, if◌then◌else◌,
  Bool-cases, ℤ, pos, ◌+ℤ◌, ◌≤ℤ◌, ◌<ℤ◌, eq_ℤ, int_laws, In, In-map_of, eq_ℤ_refl, Str,
}
use proxy2api.Store.Gorm.{Gorm, GormLaws}
use proxy2api.Store.Rows.{ProviderKey}
use proxy2api.Store.Tables.{Store}
use proxy2api.Gateway.Types.{ProviderState, ProviderKeyState}
use proxy2api.Gateway.Keys.{is_live}
use proxy2api.Gateway.Snapshot.{seconds, from_unix, key_state}
use proxy2api.Gateway.Health.{mark_provider_key_failure}
use proxy2api.Gateway.Health.Cooldown.{
  EndsBoth, IsWritten, Unwritten, mark_provider_key_failure-Failed,
}

-- Before the end.
resting :
    (n a e : ℤ) (soon : ℕ)
    → pos (soon + 1000000000) ≤ℤ n +ℤ a
    → n +ℤ a <ℤ e +ℤ pos 1000000000
    → pos soon ≤ℤ e
resting n a e soon h l = omega int_laws

past : (n a e : ℤ) (late : ℕ) → e ≤ℤ n +ℤ a → n +ℤ a <ℤ pos late → e <ℤ pos late
past n a e late h l = omega int_laws

-- Instants at which a key rests, and at which it does so no more, after a failure at `now`.
pub record Around (now : ℕ) (a b : ℤ) (soon late : ℕ) : Type 0 where
  pub before : (pos (soon + 1000000000) ≤ℤ pos now +ℤ a) ⊎ (pos (soon + 1000000000) ≤ℤ pos now +ℤ b)
  pub after_first : pos now +ℤ a <ℤ pos late
  pub after_second : pos now +ℤ b <ℤ pos late

Around-until :
    (now : ℕ) (a b : ℤ) (soon late : ℕ) (until : ℤ)
    → EndsBoth now a b until
    → Around now a b soon late
    → (pos soon ≤ℤ from_unix until) × (from_unix until <ℤ pos late)
Around-until now a b soon late until ends t = (
  elim t.before [
    | inl h ↦ resting (pos now) a (from_unix until) soon h ends.after_first
    | inr h ↦ resting (pos now) b (from_unix until) soon h ends.after_second
  ],
  elim ends.not_later [
    | inl h ↦ past (pos now) a (from_unix until) late h t.after_first
    | inr h ↦ past (pos now) b (from_unix until) late h t.after_second
  ],
)

is_live-resting : (k : ProviderKeyState) (t : ℕ) → pos t ≤ℤ k.cooldown_until → is_live t k ≡ false
is_live-resting k t h = ground arith

is_live-past : (k : ProviderKeyState) (t : ℕ) → k.cooldown_until <ℤ pos t → is_live t k ≡ k.enabled
is_live-past k t h = ground arith

-- What the next snapshot reads of a row: no failure, not live at the one instant, and at the other
-- one live if it is enabled.
pub record Rested (soon late : ℕ) (y : ProviderKey) : Type 0 where
  pub counter : (key_state y).consecutive_errs ≡ pos 0
  pub rests : is_live soon (key_state y) ≡ false
  pub recovers : is_live late (key_state y) ≡ y.enabled

module _ (g : Gorm) (laws : GormLaws g) where
  written_row :
      (id until : ℤ) (status : Str) (s s' : Store g) (y : ProviderKey)
      → IsWritten g laws id (pos 0) until status s s'
      → In y (g.rows s'.provider_keys)
      → y.id ≡ id
      → (y.consecutive_errs ≡ pos 0) × (y.cooldown_until ≡ until)
  written_row id until status s s' y w listed same =
      let (x, was, made) = In-map_of _ y (g.rows s.provider_keys) (rw w.rows at listed) in
      row x made
    where
      row :
          (x : ProviderKey)
          → (if eq_ℤ x.id id
              then record x {
                consecutive_errs = pos 0;
                cooldown_until = until;
                last_status = status;
              }
              else x)
            ≡ y
          → (y.consecutive_errs ≡ pos 0) × (y.cooldown_until ≡ until)
      row x made = elim (Bool-cases (eq_ℤ x.id id)) [
        | inl e ↦ rw (← (rw e at made)) (refl, refl)
        | inr e ↦
            let kept : x ≡ y = rw e at made in
            let same_id : eq_ℤ x.id id ≡ true =
              rw (ap (λ (z : ProviderKey). z.id) kept ∙ same) (eq_ℤ_refl id) in
            absurd cc
      ]

  rows-Rested :
      (id until : ℤ) (status : Str) (s s' : Store g) (now : ℕ) (a b : ℤ) (soon late : ℕ)
      (y : ProviderKey)
      → EndsBoth now a b until
      → Around now a b soon late
      → IsWritten g laws id (pos 0) until status s s'
      → In y (g.rows s'.provider_keys)
      → y.id ≡ id
      → Rested soon late y
  rows-Rested id until status s s' now a b soon late y ends t w listed same =
      let (none_left, ends_at) = written_row id until status s s' y w listed same in
      let (low, high) = Around-until now a b soon late until ends t in
      record {
        counter = none_left;
        rests = is_live-resting (key_state y) soon (rw (← ends_at) at low);
        recovers = is_live-past (key_state y) late (rw (← ends_at) at high);
      }

  -- After a failure that reaches the threshold, unless the statement for it is an error, every row
  -- of the key, as the next snapshot reads it, has no failures counted; it is not live at an instant
  -- that is at least a second before the end of the provider's interval or of the configured
  -- cooldown, both from the failure on; and past the end of both it is live, if it is enabled.
  pub mark_provider_key_failure-Rested :
      (threshold cooldown_sec : ℤ) (p : ProviderState) (k : ProviderKeyState) (n : ℕ) (status : Str)
      (now soon late : ℕ) (s : Store g)
      → n < 2 ^ 62
      → k.consecutive_errs ≡ pos n
      → threshold ≤ℤ pos (n + 1)
      → Around now p.recover_interval (seconds cooldown_sec) soon late
      → (y : ProviderKey)
      → In y (
          g.rows
            (mark_provider_key_failure g threshold cooldown_sec p k status now s).provider_keys)
      → y.id ≡ k.id
      → Rested soon late y ⊎ Unwritten g laws k.id status s
  mark_provider_key_failure-Rested threshold cooldown_sec p k n status now soon late s small counted
        full t y listed same =
      elim (mark_provider_key_failure-Failed g laws threshold cooldown_sec p k n status now s small
        counted) [
          | inr (unchanged, why) ↦ inr why
          | inl (inl (below, w)) ↦ absurd (omega arith)
          | inl (inr (reached, (until, ends, w))) ↦ inl (
              rows-Rested k.id until status s _ now p.recover_interval (seconds cooldown_sec) soon
                late y ends t w listed same)
        ]
