-- ===== src/Gateway/Rules.antt =====
-- `applyRules` and `evalRule` of internal/gateway/server.go. The JavaScript engine, goja, is the
-- argument `run`: the truth value of an expression in a context, or `none` for an error.
pub mod Decision
use proxy2api.Base.{
  ◌-◌, ◌/◌, String, ap, Bool, true, false, not, Option, none, some, List, [], ◌∷◌, if◌then◌else◌,
  pos, take, Str, err,
}
use proxy2api.Text.{is_empty}
use proxy2api.Float.{Float64, FloatOps, is_positive}
use proxy2api.Gateway.Types.{RuleState, RuleAction}

-- The object `ctx` of a condition.
pub record RuleContext : Type 0 where
  pub api_key : Str
  pub model : Str
  pub path : Str

-- The named results, and the multiplier behind the pointer.
pub record Verdict : Type 0 where
  pub force_provider : Str
  pub denied : Bool
  pub multiplier : Float64

-- The engine: `none` is an error of `Set` or of `RunString`.
pub record Js : Type 1 where
  pub Vm : Type 0
  pub Value : Type 0
  pub new_vm : Vm
  pub set_ctx : RuleContext → Vm → Option Vm
  pub run_string : Str → Vm → Option Value
  pub to_boolean : Value → Bool

abbrev pub forced_by : RuleAction → Str → Str
forced_by action force = if is_empty action.force_provider then force else action.force_provider

abbrev pub multiplied_by : FloatOps → RuleAction → Float64 → Float64
multiplied_by fo action mul =
    if is_positive action.rate_multiplier then fo.mul mul action.rate_multiplier else mul

unfoldable pub eval_rule : Js → Str → RuleContext → Option Bool
eval_rule js expr ctx = elim (js.set_ctx ctx js.new_vm) [
  | none ↦ none
  | some vm ↦ elim (js.run_string expr vm) [ none ↦ none | some value ↦ some (js.to_boolean value) ]
]

module _ (fo : FloatOps) (js : Js) where
  unfoldable pub rules_loop : RuleContext → List RuleState → Str → Float64 → Verdict
  rules_loop ctx [] force mul = record { force_provider = force; denied = false; multiplier = mul }
  rules_loop ctx (rule ∷ rules) force mul =
      let skipped = rules_loop ctx rules force mul in
      let taken =
        rules_loop ctx rules (forced_by rule.action force) (multiplied_by fo rule.action mul) in
      if not rule.enabled then skipped else elim (eval_rule js rule.condition ctx) [
        | none ↦ skipped
        | some matched ↦
            if not matched
            then skipped
            else if rule.action.deny
            then record { force_provider = []; denied = true; multiplier = mul }
            else taken
      ]

  unfoldable pub apply_rules : List RuleState → RuleContext → Float64 → Verdict
  apply_rules rules ctx multiplier = rules_loop ctx rules [] multiplier
