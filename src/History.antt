-- ===== src/History.antt =====
-- engine/stack.go: `History`.
pub mod Past
use pulumi_engine.Prelude.{
  ℕ, zero, suc, leb, String, Bool, true, false, not, ◌&&◌, ◌==◌, List, [], ◌∷◌, ◌++◌, map, Option,
  none, some, Dict, insert, if◌then◌else◌,
}
use pulumi_engine.Text.{concat, sort_by}
use pulumi_engine.Errors.{GoError, invalid, unsupported, unclassified, wrapped}
use pulumi_engine.Errors.Classify.{classify_backend_error}
use pulumi_engine.Errors.Fallible.{Fallible, ok, err, ◌>>=◌, ◌>>◌, reject_if, map_err}
use pulumi_engine.Spec.{StackSpec, BackendSpec, ConfigValue, SpecEnv, validate}
use pulumi_engine.Config.{ConfigApi}

-- `UpdateInfo`; times are numbers
pub record UpdateInfo : Type 0 where
  pub kind : String
  pub result : String
  pub message : String
  pub start_time : ℕ
  pub end_time : ℕ
  pub version : ℕ
  pub environment : Dict String
  pub config : Dict ConfigValue
  pub resource_changes : Dict ℕ

pub record HistoryOptions : Type 0 where
  pub limit : ℕ
  pub page : ℕ
  pub show_secrets : Bool

module _ (api : ConfigApi) (nop_decrypter : String → Fallible String) where
  -- The backend's record of an update, its configuration by key.
  pub record BackendUpdate : Type 0 where
    pub kind : String
    pub result : String
    pub message : String
    pub start_time : ℕ
    pub end_time : ℕ
    pub version : ℕ
    pub environment : Dict String
    pub config : Dict api.Value
    pub resource_changes : Dict ℕ

  -- `cv.Value, _ = v.Value(config.NopDecrypter)`
  stored_text : api.Value → String
  stored_text v = elim (api.reveal nop_decrypter v) [ ok t ↦ t | err e ↦ "" ]

  history_value : (String → Fallible String) → Bool → String → api.Value → Fallible ConfigValue
  unfolding stored_text
  history_value decrypt show k v =
      if api.is_secure v && show
      then (map_err (λ e. unclassified (wrapped (concat ("decrypting history config " ∷ k ∷ [])) e))
            (api.reveal decrypt v)
          >>= (λ t. ok (record { value = t; secret = api.is_secure v; object = api.is_object v })))
      else ok (record { value = stored_text v; secret = api.is_secure v; object = api.is_object v })

  history_config :
      (String → Fallible String)
      → Bool
      → Dict ConfigValue
      → Dict api.Value
      → Fallible (Dict ConfigValue)
  unfolding history_value
  history_config decrypt show out [] = ok out
  history_config decrypt show out ((k, v) ∷ m) =
      history_value decrypt show k v >>= λ cv. history_config decrypt show (insert k cv out) m

  history_entry : (String → Fallible String) → Bool → BackendUpdate → Fallible UpdateInfo
  unfolding history_config
  history_entry decrypt show u = do
    config ← history_config decrypt show [] u.config
    ok (record {
      kind = u.kind;
      result = u.result;
      message = u.message;
      start_time = u.start_time;
      end_time = u.end_time;
      version = u.version;
      environment = u.environment;
      config = config;
      resource_changes = u.resource_changes;
    })

  history_entries :
      (String → Fallible String) → Bool → List BackendUpdate → Fallible (List UpdateInfo)
  unfolding history_entry
  history_entries decrypt show [] = ok []
  history_entries decrypt show (u ∷ us) = do
    info ← history_entry decrypt show u
    infos ← history_entries decrypt show us
    ok (info ∷ infos)

  -- `History` of the stack with a name, over the backend's `GetHistory` with a limit and a page; a
  -- page below 1 is page 1
  unfoldable pub history :
      (String → Fallible String)
      → (ℕ → ℕ → Fallible (List BackendUpdate))
      → String
      → HistoryOptions
      → Fallible (List UpdateInfo)
  unfolding history_entries
  history decrypt get_history name opts = do
    updates ←
        map_err (classify_backend_error name)
          (get_history opts.limit (if leb 1 opts.page then opts.page else 1))
    history_entries decrypt opts.show_secrets updates
