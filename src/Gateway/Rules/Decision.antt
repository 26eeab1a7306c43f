-- ===== src/Gateway/Rules/Decision.antt =====
-- What the rules decide together.
use proxy2api.Base.{
  ◌≡◌, refl, ◌∙◌, inl, inr, Bool, true, false, not, ◌&&◌, Option, none, some, List, [], ◌∷◌, map,
  arith, if◌then◌else◌, Bool-cases, keep, any, Str,
}
use proxy2api.Text.{is_empty}
use proxy2api.Float.{Float64, FloatOps, is_positive}
use proxy2api.Gateway.Types.{RuleState}
use proxy2api.Gateway.Rules.{
  RuleContext, Verdict, Js, eval_rule, forced_by, multiplied_by, rules_loop, apply_rules,
}

-- A condition that fails counts as one that is false.
abbrev pub is_true : Option Bool → Bool
is_true none = false
is_true (some b) = b

module _ (fo : FloatOps) (js : Js) (ctx : RuleContext) where
  abbrev pub matches : RuleState → Bool
  matches rule = rule.enabled && is_true (eval_rule js rule.condition ctx)

  abbrev pub denies : RuleState → Bool
  denies rule = matches rule && rule.action.deny

  -- The providers that rules force, and their positive multipliers.
  abbrev pub forced : List RuleState → List Str
  forced rules = keep (λ p. not (is_empty p)) (map (λ r. r.action.force_provider) rules)

  abbrev pub multipliers : List RuleState → List Float64
  multipliers rules = keep is_positive (map (λ r. r.action.rate_multiplier) rules)

  abbrev pub last_or : Str → List Str → Str
  last_or d [] = d
  last_or d (p ∷ ps) = last_or p ps

  abbrev pub product : Float64 → List Float64 → Float64
  product mul [] = mul
  product mul (x ∷ xs) = product (fo.mul mul x) xs

  -- The rules before the first one that denies.
  abbrev pub before_denial : List RuleState → List RuleState
  before_denial [] = []
  before_denial (r ∷ rs) = if denies r then [] else r ∷ before_denial rs

  -- The verdict on the whole list.
  abbrev pub verdict_of : List RuleState → Str → Float64 → Verdict
  verdict_of rules force mul =
      if any denies rules
      then record {
        force_provider = [];
        denied = true;
        multiplier = product mul (multipliers (keep matches (before_denial rules)));
      }
      else record {
        force_provider = last_or force (forced (keep matches rules));
        denied = false;
        multiplier = product mul (multipliers (keep matches rules));
      }

  -- The same by the steps of the loop.
  abbrev last_forced : Str → List RuleState → Str
  last_forced force [] = force
  last_forced force (r ∷ rs) = last_forced (forced_by r.action force) rs

  abbrev all_multiplied : Float64 → List RuleState → Float64
  all_multiplied mul [] = mul
  all_multiplied mul (r ∷ rs) = all_multiplied (multiplied_by fo r.action mul) rs

  abbrev folded : List RuleState → Str → Float64 → Verdict
  folded rules force mul =
      if any denies rules
      then record {
        force_provider = [];
        denied = true;
        multiplier = all_multiplied mul (keep matches (before_denial rules));
      }
      else record {
        force_provider = last_forced force (keep matches rules);
        denied = false;
        multiplier = all_multiplied mul (keep matches rules);
      }

  rules_loop-folded :
      (rules : List RuleState) (force : Str) (mul : Float64)
      → rules_loop fo js ctx rules force mul ≡ folded rules force mul
  unfolding rules_loop
  rules_loop-folded [] force mul = refl
  rules_loop-folded (r ∷ rs) force mul = ground (
    arith,
    rules_loop-folded rs force mul,
    rules_loop-folded rs (forced_by r.action force) (multiplied_by fo r.action mul),
  )

  last_forced-last_or :
      (force : Str) (rs : List RuleState) → last_forced force rs ≡ last_or force (forced rs)
  last_forced-last_or force [] = refl
  last_forced-last_or force (r ∷ rs) = elim (Bool-cases (is_empty r.action.force_provider)) [
    | inl e ↦ rw e (last_forced-last_or force rs)
    | inr e ↦ rw e (last_forced-last_or r.action.force_provider rs)
  ]

  all_multiplied-product :
      (mul : Float64) (rs : List RuleState) → all_multiplied mul rs ≡ product mul (multipliers rs)
  all_multiplied-product mul [] = refl
  all_multiplied-product mul (r ∷ rs) = elim (Bool-cases (is_positive r.action.rate_multiplier)) [
    | inl e ↦ rw e (all_multiplied-product (fo.mul mul r.action.rate_multiplier) rs)
    | inr e ↦ rw e (all_multiplied-product mul rs)
  ]

  folded-verdict_of :
      (rules : List RuleState) (force : Str) (mul : Float64)
      → folded rules force mul ≡ verdict_of rules force mul
  folded-verdict_of rules force mul =
      rw
        (
          all_multiplied-product mul (keep matches (before_denial rules)),
          all_multiplied-product mul (keep matches rules),
          last_forced-last_or force (keep matches rules),
        )
        refl

  -- A request is denied exactly when some rule that is enabled and matches it denies, wherever the
  -- rule stands, and then no provider is forced. Otherwise the provider is the last one that a
  -- matching rule forces, and the multiplier is multiplied by each positive one of a matching rule,
  -- in order. A condition that raises an error does not match.
  pub apply_rules-verdict_of :
      (rules : List RuleState) (mul : Float64)
      → apply_rules fo js rules ctx mul ≡ verdict_of rules [] mul
  unfolding apply_rules
  apply_rules-verdict_of rules mul = rules_loop-folded rules [] mul ∙ folded-verdict_of rules [] mul
