-- ===== src/Host/Calls.antt =====
-- engine/pluginhost.go: sequences of calls of a plugin host, and what its log says of plugins.
use mathlib.Core.List.{Perm}
use mathlib.Core.List.Perm
use pulumi_engine.Prelude.{
  String, List, [], ◌∷◌, ◌++◌, ◌≡◌, refl, ap, none, map, Dict, lookup, insert, arith,
}
use pulumi_engine.Host.{
  HostApi, PluginDescriptor, Flags, Effect, launched, closed, cancelled, default_signalled,
  default_closed, context_closed, Launched, OperationHost, language_runtime, ensure_plugins,
  signal_cancellation, cancel_log, close_log, close_host,
}

module _ (api : HostApi) where
  open api use {Plug, Runtime}

  -- What the engine and the operation ask of the host.
  pub data Call : Type 0 where
    load : String → Call
    ensure : Flags → List PluginDescriptor → Call
    signal close : Call

  unfoldable pub step : OperationHost api → Call → OperationHost api
  step h (load runtime) = (language_runtime api h runtime).1
  step h (ensure flags ps) = (ensure_plugins api flags h ps).1
  step h signal = (signal_cancellation api h).1
  step h close = (close_host api h).1

  unfoldable pub run : OperationHost api → List Call → OperationHost api
  run h [] = h
  run h (c ∷ cs) = run (step h c) cs

  -- The plugins that a log says were launched, and closed, in order.
  abbrev pub launched_in : List (Effect api) → List Plug
  launched_in [] = []
  launched_in (launched p ∷ es) = p ∷ launched_in es
  launched_in (closed p ∷ es) = launched_in es
  launched_in (cancelled r ∷ es) = launched_in es
  launched_in (default_signalled ∷ es) = launched_in es
  launched_in (default_closed ∷ es) = launched_in es
  launched_in (context_closed ∷ es) = launched_in es

  abbrev pub closed_in : List (Effect api) → List Plug
  closed_in [] = []
  closed_in (launched p ∷ es) = closed_in es
  closed_in (closed p ∷ es) = p ∷ closed_in es
  closed_in (cancelled r ∷ es) = closed_in es
  closed_in (default_signalled ∷ es) = closed_in es
  closed_in (default_closed ∷ es) = closed_in es
  closed_in (context_closed ∷ es) = closed_in es

  pub launched_in-append :
      (xs ys : List (Effect api)) → launched_in (xs ++ ys) ≡ launched_in xs ++ launched_in ys
  launched_in-append [] ys = refl
  launched_in-append (launched p ∷ es) ys = ap (λ l. p ∷ l) (launched_in-append es ys)
  launched_in-append (closed p ∷ es) ys = launched_in-append es ys
  launched_in-append (cancelled r ∷ es) ys = launched_in-append es ys
  launched_in-append (default_signalled ∷ es) ys = launched_in-append es ys
  launched_in-append (default_closed ∷ es) ys = launched_in-append es ys
  launched_in-append (context_closed ∷ es) ys = launched_in-append es ys

  pub closed_in-append :
      (xs ys : List (Effect api)) → closed_in (xs ++ ys) ≡ closed_in xs ++ closed_in ys
  closed_in-append [] ys = refl
  closed_in-append (launched p ∷ es) ys = closed_in-append es ys
  closed_in-append (closed p ∷ es) ys = ap (λ l. p ∷ l) (closed_in-append es ys)
  closed_in-append (cancelled r ∷ es) ys = closed_in-append es ys
  closed_in-append (default_signalled ∷ es) ys = closed_in-append es ys
  closed_in-append (default_closed ∷ es) ys = closed_in-append es ys
  closed_in-append (context_closed ∷ es) ys = closed_in-append es ys

  abbrev pub plugs_of : Dict (Launched api) → List Plug
  plugs_of ls = map (λ e. e.1.plug) ls

  pub plugs_of-Perm : {ls ms : Dict (Launched api)} → Perm ls ms → Perm (plugs_of ls) (plugs_of ms)
  plugs_of-Perm p = Perm.map (λ e. e.1.plug) p

  pub plugs_of-insert :
      (k : String) (l : Launched api) (ls : Dict (Launched api))
      → lookup k ls ≡ none
      → plugs_of (insert k l ls) ≡ plugs_of ls ++ l.plug ∷ []
  unfolding lookup insert
  plugs_of-insert k l [] h = refl
  plugs_of-insert k l ((j, m) ∷ ls) h = ground (arith, plugs_of-insert k l ls)

  pub launched_in-cancel_log : (ls : Dict (Launched api)) → launched_in (cancel_log api ls) ≡ []
  unfolding cancel_log
  launched_in-cancel_log [] = refl
  launched_in-cancel_log ((k, l) ∷ ls) = launched_in-cancel_log ls

  pub closed_in-cancel_log : (ls : Dict (Launched api)) → closed_in (cancel_log api ls) ≡ []
  unfolding cancel_log
  closed_in-cancel_log [] = refl
  closed_in-cancel_log ((k, l) ∷ ls) = closed_in-cancel_log ls

  pub launched_in-close_log : (ls : Dict (Launched api)) → launched_in (close_log api ls) ≡ []
  unfolding close_log
  launched_in-close_log [] = refl
  launched_in-close_log ((k, l) ∷ ls) = launched_in-close_log ls

  pub closed_in-close_log : (ls : Dict (Launched api)) → closed_in (close_log api ls) ≡ plugs_of ls
  unfolding close_log
  closed_in-close_log [] = refl
  closed_in-close_log ((k, l) ∷ ls) = ap (λ x. l.plug ∷ x) (closed_in-close_log ls)
