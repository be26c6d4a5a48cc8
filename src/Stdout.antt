-- ===== src/Stdout.antt =====
-- engine/stdout.go: the pump that reads the pipe in place of standard output, sends banner lines to
-- the operations that run, and forwards the rest; and the listeners by stack. A listener is the
-- part of an operation that the routing reads, with a number in place of its address.
pub mod Forwarding
pub mod Routing
pub mod Flush
pub mod Accounts
use Prim.Native.Char.{Char, code}
use Prim.Native.String as Text
use Prim.Native.String.{◌++◌ as append}
use pulumi_engine.Prelude.{
  ℕ, String, Bool, true, false, not, ◌||◌, ◌&&◌, ◌==◌, List, [], ◌∷◌, ◌++◌, Option, none, some,
  Dict, lookup, insert, erase, any, eqb, is_empty, if◌then◌else◌,
}
use pulumi_engine.Text.{concat, has_prefix, trim_prefix, trim_space}
use pulumi_engine.Errors.{Kind, preview, up, refresh, destroy}

abbrev pub flush_sentinel : String
flush_sentinel = "\0pulumi-engine-stdout-flush:"

abbrev banner_prefixes : List String
banner_prefixes =
    "Previewing " ∷ "Updating " ∷ "Refreshing " ∷ "Destroying " ∷ "Importing " ∷ "Renaming " ∷ []

unfoldable pub maybe_banner : String → Bool
maybe_banner partial =
    has_prefix partial flush_sentinel
    || has_prefix flush_sentinel partial
    || any (λ p. has_prefix p partial || has_prefix partial p) banner_prefixes

-- `strings.HasSuffix(chunk, "\n")`
unfoldable pub ends_line : String → Bool
ends_line Text.[] = false
ends_line (Text.◌∷◌ c s) = let later = ends_line s in if s == "" then eqb (code c) 10 else later

-- What the pump does with a text: it is written to the original output, or consumed.
pub data Piece : Type 0 where
  forwarded routed : String → Piece

-- One `ReadString('\n')`: a text with a nil error, or the last one, with an error.
pub data Chunk : Type 0 where
  read last : String → Chunk

-- The pump's builder, what it did, oldest first, and whether it has returned; `routes` is what
-- `routeStdoutLine` reads and writes.
pub record PumpState (R : Type 0) : Type 0 where
  pub partial : String
  pub pieces : List Piece
  pub returned : Bool
  pub routes : R

module _ {R : Type 0} (route : String → R → Bool × R) where
  -- a whole line: consumed, or forwarded
  unfoldable pub whole_line : String → PumpState R → PumpState R
  whole_line line p =
      let (consumed, r) = route line p.routes in
      record p {
        partial = "";
        pieces = p.pieces ++ (if consumed then routed line else forwarded line) ∷ [];
        routes = r;
      }

  unfoldable pub take_text : String → PumpState R → PumpState R
  unfolding whole_line
  take_text chunk p =
      let text = append p.partial chunk in
      if chunk == ""
      then p
      else if ends_line chunk
      then whole_line text p
      else if not (maybe_banner text)
      then record p { partial = ""; pieces = p.pieces ++ forwarded text ∷ [] }
      else record p { partial = text }

  -- what is left when the pipe ends
  unfoldable pub flush_partial : PumpState R → PumpState R
  flush_partial p =
      if p.partial == ""
      then record p { returned = true }
      else record p { partial = ""; pieces = p.pieces ++ forwarded p.partial ∷ []; returned = true }

  -- `pumpStdout`, on the chunks that the reads give
  unfoldable pub pump_stdout : List Chunk → PumpState R → PumpState R
  unfolding take_text flush_partial
  pump_stdout [] p = p
  pump_stdout (read chunk ∷ more) p = pump_stdout more (take_text chunk p)
  pump_stdout (last chunk ∷ more) p = flush_partial (take_text chunk p)

pub record Listener : Type 0 where
  pub id : ℕ
  pub kind : Kind
  pub dry_run : Bool

unfoldable pub banner_verb : Listener → String
banner_verb o = elim o.kind [
  | preview ↦ "Previewing update"
  | up ↦ "Updating"
  | refresh ↦ if o.dry_run then "Previewing refresh" else "Refreshing"
  | destroy ↦ if o.dry_run then "Previewing destroy" else "Destroying"
]

-- `stdoutCapture`, with the flushes that are closed and the lines that each listener was handed
pub record Capture : Type 0 where
  pub listeners : Dict (List Listener)
  pub flushes : Dict (Unit {0})
  pub flushed : List String
  pub handed : List (ℕ × String)

abbrev pub listening : Option (List Listener) → List Listener
listening none = []
listening (some ops) = ops

unfoldable pub first_with_verb : String → List Listener → Option Listener
first_with_verb verb [] = none
first_with_verb verb (o ∷ ops) =
    let later = first_with_verb verb ops in if banner_verb o == verb then some o else later

-- `plain` is the line without its end and its colours, which are Pulumi's `colors.Never`, and
-- `match_banner` is `bannerRe`, with the verb and the stack of a match.
module _ (plain : String → String) (match_banner : String → Option (String × String)) where
  unfoldable pub flush_waiter : String → Capture → Bool × Capture
  flush_waiter id c = elim (lookup id c.flushes) [
    | none ↦ (true, c)
    | some _ ↦ (true, record c { flushes = erase id c.flushes; flushed = c.flushed ++ id ∷ [] })
  ]

  unfoldable pub route_banner : String → Option (String × String) → Capture → Bool × Capture
  route_banner text none c = (false, c)
  route_banner text (some (verb, stack)) c =
      elim (first_with_verb verb (listening (lookup stack c.listeners))) [
        | none ↦ (false, c)
        | some o ↦ (true, record c { handed = c.handed ++ (o.id, append text "\n") ∷ [] })
      ]

  -- `routeStdoutLine`
  unfoldable pub route_stdout_line : String → Capture → Bool × Capture
  unfolding flush_waiter route_banner
  route_stdout_line line c =
      if has_prefix line flush_sentinel
      then flush_waiter (trim_space (trim_prefix line flush_sentinel)) c
      else route_banner (plain line) (match_banner (plain line)) c

unfoldable pub listen_stdout : String → Listener → Capture → Capture
listen_stdout stack o c = record c {
  listeners = insert stack (listening (lookup stack c.listeners) ++ o ∷ []) c.listeners;
}

-- `append(ops[:i], ops[i+1:]...)` at the first operation that is o
unfoldable pub without_listener : Listener → List Listener → List Listener
without_listener o [] = []
without_listener o (p ∷ ops) =
    let later = without_listener o ops in if eqb p.id o.id then ops else p ∷ later

unfoldable pub unlisten_stdout : String → Listener → Capture → Capture
unlisten_stdout stack o c =
    let ops = without_listener o (listening (lookup stack c.listeners)) in
    record c {
      listeners = if is_empty ops then erase stack c.listeners else insert stack ops c.listeners;
    }
