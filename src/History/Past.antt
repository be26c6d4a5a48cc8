-- ===== src/History/Past.antt =====
-- engine/stack.go: what `History` does with secrets.
use pulumi_engine.Prelude.{
  ℕ, String, false, ◌≡◌, refl, ◌∙◌, ap, List, [], ◌∷◌, Dict, if◌then◌else◌, Bool-cases, inl, inr,
  insert, leb,
}
use pulumi_engine.Errors.Fallible.{Fallible, ◌>>=◌, map_err}
use pulumi_engine.Errors.Classify.{classify_backend_error}
use pulumi_engine.Spec.{ConfigValue}
use pulumi_engine.Config.{ConfigApi}
use pulumi_engine.History.{
  BackendUpdate, HistoryOptions, history_value, history_config, history_entry, history_entries,
  history,
}

module _ (api : ConfigApi) (nop : String → Fallible String) (d e : String → Fallible String) where
  history_value_blind :
      (k : String) (v : api.Value)
      → history_value api nop d false k v ≡ history_value api nop e false k v
  unfolding history_value
  history_value_blind k v = elim (Bool-cases (api.is_secure v)) [
    | inl s ↦ rw (s) refl
    | inr s ↦ rw (s) refl
  ]

  history_config_blind :
      (out : Dict ConfigValue) (m : Dict api.Value)
      → history_config api nop d false out m ≡ history_config api nop e false out m
  unfolding history_config
  history_config_blind out [] = refl
  history_config_blind out ((k, v) ∷ m) =
      ap (λ r. r >>= λ cv. history_config api nop d false (insert k cv out) m)
        (history_value_blind k v)
      ∙ ap (λ f. history_value api nop e false k v >>= f)
          (λ i cv. history_config_blind (insert k cv out) m i)

  history_entries_blind :
      (us : List (BackendUpdate api nop))
      → history_entries api nop d false us ≡ history_entries api nop e false us
  unfolding history_entries history_entry
  history_entries_blind [] = refl
  history_entries_blind (u ∷ us) =
      rw (history_config_blind [] u.config, history_entries_blind us) refl

  -- Without `showSecrets`, the history does not depend on the stack's decrypter, whatever the
  -- updates hold: neither an entry nor an error comes from it.
  pub history_blind :
      (get_history : ℕ → ℕ → Fallible (List (BackendUpdate api nop))) (name : String)
      (opts : HistoryOptions)
      → opts.show_secrets ≡ false
      → history api nop d get_history name opts ≡ history api nop e get_history name opts
  unfolding history
  history_blind get_history name opts hidden = rw (hidden) (
      ap
        (λ f.
          map_err (classify_backend_error name)
            (get_history opts.limit (if leb 1 opts.page then opts.page else 1))
          >>= f)
        (λ i us. history_entries_blind us i))
