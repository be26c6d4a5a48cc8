-- ===== src/Host.antt =====
-- engine/pluginhost.go: the plugin host of one operation, which wraps Pulumi's default host. What
-- it starts, cancels and closes is kept in a log.
pub mod Calls
pub mod Opened
pub mod Lifetime
use Prim.Native.Char.{Char, code}
use Prim.Native.String as Text
use pulumi_engine.Prelude.{
  ℕ, String, Bool, true, false, ◌==◌, List, [], ◌∷◌, ◌++◌, Option, none, some, Dict, is_empty,
  if◌then◌else◌, eqb, lookup, insert, overlay,
}
use pulumi_engine.Text.{concat}
use pulumi_engine.Errors.{GoError, plain_error, wrapped, joined}
use pulumi_engine.Errors.Fallible.{Fallible, ok, err, ◌>>=◌}

-- `workspace.PluginDescriptor`, by its kind and name
pub data PluginKind : Type 0 where
  analyzer language resource converter tool : PluginKind

pub record PluginDescriptor : Type 0 where
  pub kind : PluginKind
  pub name : String

-- `plugin.Flags`
pub record Flags : Type 0 where
  pub analyzers : Bool
  pub languages : Bool
  pub resources : Bool

-- Pulumi's default host, the lookup and launch of plugins, and the language hosts' processes.
-- An environment is none where it or its store is nil.
pub record HostApi : Type 1 where
  pub Plug : Type 0
  pub Runtime : Type 0
  pub Provider : Type 0
  -- the default host's operations
  pub default_runtime : String → Fallible Runtime
  pub default_provider : PluginDescriptor → Option (Dict String) → Fallible Provider
  pub default_analyzer : String → Option GoError
  pub default_signal : Option GoError
  pub default_close : Option GoError
  pub server_addr : String
  -- `plugin.GetLanguageAttachPort`, `workspace.GetPluginPath`, and the delimiter of a qualified name
  pub attach_port : String → Fallible (Option ℕ)
  pub plugin_path : String → Fallible String
  pub delimiter : Char
  pub kind_text : PluginKind → String
  -- `upstream.LaunchLanguagePlugin` with its path, runtime, arguments and environment
  pub launch : String → String → List String → Dict String → Fallible Plug
  -- `plugin.NewLanguageRuntimeClient` on the plugin's connection
  pub client : String → Plug → Runtime
  pub cancel_runtime : Runtime → Option GoError
  pub close_plug : Plug → Option GoError
  -- `envutil.NewEnv(envutil.Global)`
  pub global_env : Option (Dict String)
  -- the order in which a `range` over a map takes its entries, which Go leaves open
  pub range : {A : Type 0} → Dict A → Dict A

-- `errors.Join` of an error that may be nil and one that may be
abbrev pub join : Option GoError → Option GoError → Option GoError
join none e = e
join (some d) none = some d
join (some d) (some e) = some (joined d e)

-- `strings.ReplaceAll` of a delimiter of one character
replace_char : Char → Char → String → String
replace_char old new Text.[] = ""
replace_char old new (Text.◌∷◌ c s) =
    Text.◌∷◌ (if eqb (code c) (code old) then new else c) (replace_char old new s)

module _ (api : HostApi) where
  open api use {
    Plug, Runtime, Provider, default_runtime, default_provider, default_analyzer, default_signal,
    default_close, server_addr, kind_text, attach_port, plugin_path, delimiter, launch, client,
    cancel_runtime, close_plug, global_env, range,
  }

  pub data Effect : Type 0 where
    launched closed : Plug → Effect
    cancelled : Runtime → Effect
    default_signalled default_closed context_closed : Effect

  -- `launchedLanguageHost`
  pub record Launched : Type 0 where
    pub plug : Plug
    pub runtime : Runtime

  -- `operationHost`; `ended` is what `once` has run to, with the error it left
  pub record OperationHost : Type 0 where
    pub env : Dict String
    pub langs : Dict Launched
    pub ended : Option (Option GoError)
    pub log : List Effect

  -- `newOperationHost`, its default host made
  abbrev pub new_host : Dict String → OperationHost
  new_host env = record { env = env; langs = []; ended = none; log = [] }

  abbrev store_of : Option (Dict String) → Dict String
  store_of none = []
  store_of (some store) = store

  -- `pluginEnv`
  unfoldable pub plugin_env : OperationHost → Option (Dict String) → Option (Dict String)
  plugin_env h e = if is_empty h.env then e else some (overlay (overlay [] (store_of e)) h.env)

  -- `Provider`
  unfoldable pub provider :
      OperationHost → PluginDescriptor → Option (Dict String) → Fallible Provider
  provider h descriptor e = default_provider descriptor (plugin_env h e)

  -- the plugin of a runtime, launched with the operation's environment
  pub launch_plug : OperationHost → String → Fallible Plug
  unfolding replace_char
  launch_plug h runtime = do
    path ← plugin_path (replace_char delimiter "_" runtime)
    launch path runtime (server_addr ∷ []) h.env

  abbrev pub add_host : OperationHost → String → Plug → OperationHost
  add_host h runtime plug = record h {
    langs = insert runtime (record { plug = plug; runtime = client runtime plug }) h.langs;
    log = h.log ++ launched plug ∷ [];
  }

  pub launch_host : OperationHost → String → Fallible Runtime × OperationHost
  launch_host h runtime = elim (launch_plug h runtime) [
    | err e ↦ (err e, h)
    | ok plug ↦ (ok (client runtime plug), add_host h runtime plug)
  ]

  -- under the host's lock: the language host that was launched before, or a new one
  pub own_runtime : OperationHost → String → Fallible Runtime × OperationHost
  unfolding launch_host launch_plug
  own_runtime h runtime = elim (lookup runtime h.langs) [
    | some l ↦ (ok l.runtime, h)
    | none ↦ launch_host h runtime
  ]

  -- `LanguageRuntime`
  unfoldable pub language_runtime : OperationHost → String → Fallible Runtime × OperationHost
  unfolding own_runtime
  language_runtime h runtime =
      if is_empty h.env then (default_runtime runtime, h) else elim (attach_port runtime) [
        | err e ↦ (default_runtime runtime, h)
        | ok (some port) ↦ (default_runtime runtime, h)
        | ok none ↦ own_runtime h runtime
      ]

  -- `fmt.Errorf("failed to load ... plugin ...: %w", err)`
  abbrev not_loaded : String → String → GoError → GoError
  not_loaded kind name e = wrapped (concat ("failed to load " ∷ kind ∷ " plugin " ∷ name ∷ [])) e

  ensure_analyzer : String → Option GoError
  ensure_analyzer name = elim (default_analyzer name) [
    | none ↦ none
    | some e ↦ some (not_loaded "analyzer" name e)
  ]

  pub ensure_language : OperationHost → String → Option GoError × OperationHost
  ensure_language h name =
      let (found, after) = language_runtime h name in
      elim found [ ok r ↦ (none, after) | err e ↦ (some (not_loaded "language" name e), after) ]

  ensure_resource : OperationHost → PluginDescriptor → Option GoError
  ensure_resource h p = elim (provider h p global_env) [
    | ok r ↦ none
    | err e ↦ some (not_loaded "resource" p.name e)
  ]

  -- the error of one plugin of `EnsurePlugins`, if any
  pub ensure_plugin :
      Flags → OperationHost → PluginKind → PluginDescriptor → Option GoError × OperationHost
  unfolding ensure_analyzer ensure_language ensure_resource
  ensure_plugin flags h analyzer p =
      if flags.analyzers then (ensure_analyzer p.name, h) else (none, h)
  ensure_plugin flags h language p = if flags.languages then ensure_language h p.name else (none, h)
  ensure_plugin flags h resource p = if flags.resources then (ensure_resource h p, h) else (none, h)
  ensure_plugin flags h kind p =
      (some (plain_error (concat ("unexpected plugin kind: " ∷ kind_text kind ∷ []))), h)

  -- `EnsurePlugins`: the errors, in order, of all plugins that fail
  unfoldable pub ensure_plugins :
      Flags → OperationHost → List PluginDescriptor → List GoError × OperationHost
  unfolding ensure_plugin
  ensure_plugins flags h [] = ([], h)
  ensure_plugins flags h (p ∷ ps) =
      let (failure, h') = ensure_plugin flags h p.kind p in
      let (failures, after) = ensure_plugins flags h' ps in
      (elim failure [ none ↦ failures | some e ↦ e ∷ failures ], after)

  cancel_all : Dict Launched → Option GoError → Option GoError
  cancel_all [] e = e
  cancel_all ((k, l) ∷ ls) e = cancel_all ls (join e (cancel_runtime l.runtime))

  pub cancel_log : Dict Launched → List Effect
  cancel_log [] = []
  cancel_log ((k, l) ∷ ls) = cancelled l.runtime ∷ cancel_log ls

  -- `SignalCancellation`
  unfoldable pub signal_cancellation : OperationHost → Option GoError × OperationHost
  unfolding cancel_all cancel_log
  signal_cancellation h = (
    cancel_all (range h.langs) default_signal,
    record h { log = h.log ++ default_signalled ∷ cancel_log (range h.langs) },
  )

  -- the errors of closing the language hosts, and then the default host
  close_errors : Dict Launched → Option GoError
  close_errors [] = default_close
  close_errors ((k, l) ∷ ls) = join (close_plug l.plug) (close_errors ls)

  pub close_log : Dict Launched → List Effect
  close_log [] = default_closed ∷ []
  close_log ((k, l) ∷ ls) = closed l.plug ∷ close_log ls

  -- `Close`
  unfoldable pub close_host : OperationHost → Option GoError × OperationHost
  unfolding close_errors close_log
  close_host h = elim h.ended [
    | some e ↦ (e, h)
    | none ↦ (
      close_errors (range h.langs),
      record h {
        langs = [];
        ended = some (close_errors (range h.langs));
        log = h.log ++ close_log (range h.langs);
      },
    )
  ]

  -- `close`, whose errors are dropped
  unfoldable pub release_host : OperationHost → OperationHost
  unfolding close_host
  release_host h =
      let (e, after) = close_host h in record after { log = after.log ++ context_closed ∷ [] }
