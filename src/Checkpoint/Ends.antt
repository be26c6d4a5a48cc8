-- ===== src/Checkpoint/Ends.antt =====
-- engine/stack.go: how `Remove` and `Cancel` leave a stack, and what `GetTags` returns.
use pulumi_engine.Prelude.{
  String, Bool, true, false, ◌≡◌, ◌↔◌, refl, List, [], ◌∷◌, map, Option, none, some, All, arith,
  Dict, lookup, overlay, IsMap, lookup-overlay-none, lookup-overlay-some, Option-cases, inl, inr,
  sym, ap, ◌∙◌,
}
use pulumi_engine.Errors.{GoError}
use pulumi_engine.Errors.Fallible.{Fallible, ok, err, ok_inj}
use pulumi_engine.Operation.{Operation, cancel}
use pulumi_engine.Checkpoint.{remove_stack, cancel_stack, get_tags, fresh_stack}

-- `Remove` returns no error exactly if the backend removed the stack and no resources were left,
-- and a project file that was there is gone exactly then.
pub remove_stack-eq-none :
    (name : String) (removed : Fallible Bool)
    → ((remove_stack name removed true).0 ≡ none ↔ (removed ≡ ok false))
      × ((remove_stack name removed true).1 ≡ false ↔ (removed ≡ ok false))
unfolding remove_stack
remove_stack-eq-none name (ok true) = ((λ h. cc, λ h. cc), (λ h. cc, λ h. cc))
remove_stack-eq-none name (ok false) = ((λ h. refl, λ h. refl), (λ h. refl, λ h. refl))
remove_stack-eq-none name (err e) = ((λ h. cc, λ h. cc), (λ h. cc, λ h. cc))

cancel-requested : (ops : List Operation) → All (λ o. o.cancel_requested ≡ true) (map cancel ops)
unfolding cancel
cancel-requested [] = tt
cancel-requested (o ∷ ops) = (ground arith, cancel-requested ops)

-- After `Cancel` every operation that ran on the handle has a cancel requested, whether or not the
-- backend can cancel the stack's update, or fails to.
pub cancel_stack-requested :
    (name : String) (progress : Bool) (current : Option GoError) (running : List Operation)
    → All (λ o. o.cancel_requested ≡ true) (cancel_stack name progress current running).1
unfolding cancel_stack
cancel_stack-requested name false current running = cancel-requested running
cancel_stack-requested name true none running = cancel-requested running
cancel_stack-requested name true (some e) running = cancel-requested running

-- What `GetTags` returns answers every key as the backend's tags do.
lookup-get_tags :
    (name : String) (tags copy : Dict String) (k : String)
    → IsMap tags
    → get_tags name (ok (some tags)) ≡ ok copy
    → lookup k copy ≡ lookup k tags
unfolding get_tags fresh_stack lookup
lookup-get_tags name tags copy k m h =
    let same : overlay [] tags ≡ copy = ok_inj _ copy h in
    ap (lookup k) (sym same) ∙ elim (Option-cases (lookup k tags)) [
      | inl n ↦ lookup-overlay-none k [] tags n ∙ sym n
      | inr (v, n) ↦ lookup-overlay-some k v [] tags m n ∙ sym n
    ]
