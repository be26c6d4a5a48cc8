-- ===== src/Plan/Loading.antt =====
-- engine/plan.go: when an update is constrained.
use pulumi_engine.Prelude.{
  String, true, not, ◌&&◌, ◌||◌, ◌==◌, ◌≡◌, refl, sym, ◌∙◌, none, Dict, Bool-cases, inl, inr, ◌↔◌,
  arith, [], lookup, overlay, lookup-overlay-some, lookup-overlay-none, IsMap, Option-cases,
  or_else, ◌∷◌,
}
use pulumi_engine.Text.{trim_space}
use pulumi_engine.Errors.{Kind}
use pulumi_engine.Errors.Fallible.{Fallible, ok, err}
use pulumi_engine.Plan.{
  Options, PlanApi, is_up, is_preview, validate_plan_options, raw_plan, decode_plan, some_plan,
  load_plan, merge_env,
}

module _ (api : PlanApi) where
  some_plan-not_none : (m : Fallible api.DeployPlan) → some_plan api m ≡ ok none → ⊥
  unfolding some_plan
  some_plan-not_none (ok p) h = cc h
  some_plan-not_none (err e) h = cc h

  -- Once the text of a plan is there, no plan is loaded, and no error is returned, exactly if the
  -- text is blank: an empty plan file leaves an update without a constraint.
  pub load_plan_blank :
      (opts : Options) (raw : String)
      → raw_plan api opts ≡ ok raw
      → (load_plan api opts ≡ ok none) ↔ ((trim_space raw == "") ≡ true)
  unfolding load_plan
  load_plan_blank opts raw h = elim (Bool-cases (trim_space raw == "")) [
    | inl blank ↦ rw (load_plan, h, blank) (λ x. refl, λ x. refl)
    | inr text ↦
        rw (load_plan, h, text)
          (λ x. absurd (some_plan-not_none (decode_plan api raw) x), λ x. absurd (cc x))
  ]

-- What the plan options of an operation that is accepted can be: a plan is given to `Up` only,
-- and in one way only, and one is asked for of `Preview` only.
pub validate_plan_options-eq-ok :
    (kind : Kind) (opts : Options)
    → (validate_plan_options kind opts ≡ ok tt) ↔ (
        ((is_up kind || (opts.plan == "" && opts.plan_json == "")) ≡ true)
        × ((opts.plan == "" || opts.plan_json == "") ≡ true)
        × ((is_preview kind || (opts.save_plan == "" && not opts.generate_plan)) ≡ true))
unfolding validate_plan_options
validate_plan_options-eq-ok kind opts = (λ h. ground arith, λ h. ground arith)

lookup-overlay_empty :
    (base : Dict String) (k : String) → IsMap base → lookup k (overlay [] base) ≡ lookup k base
unfolding lookup
lookup-overlay_empty base k ub = elim (Option-cases (lookup k base)) [
  | inl n ↦ lookup-overlay-none k [] base n ∙ rw n refl
  | inr (v, n) ↦ lookup-overlay-some k v [] base ub n ∙ sym n
]

lookup-overlay_both :
    (base op : Dict String) (k : String)
    → IsMap base
    → IsMap op
    → lookup k (overlay (overlay [] base) op) ≡ or_else (lookup k op) (lookup k base)
lookup-overlay_both base op k ub uo = elim (Option-cases (lookup k op)) [
  | inl n ↦ rw (n) (lookup-overlay-none k (overlay [] base) op n ∙ lookup-overlay_empty base k ub)
  | inr (v, n) ↦ rw (n) (lookup-overlay-some k v (overlay [] base) op uo n)
]

-- The environment that an operation gives to the processes it starts has for a key the operation's
-- own value, where it has one, and otherwise the stack's.
pub lookup-merge_env :
    (base op : Dict String) (k : String)
    → IsMap base
    → IsMap op
    → lookup k (merge_env base op) ≡ or_else (lookup k op) (lookup k base)
unfolding merge_env lookup
lookup-merge_env [] [] k ub uo = refl
lookup-merge_env [] (e ∷ op) k ub uo = lookup-overlay_both [] (e ∷ op) k ub uo
lookup-merge_env (e ∷ base) op k ub uo = lookup-overlay_both (e ∷ base) op k ub uo
