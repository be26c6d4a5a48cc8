-- ===== src/Tests/Lines.antt =====
-- engine/stdout.go: a line of the host, a banner that is routed, and a flush behind a prompt.
use Prim.Native.String.{◌++◌ as append}
use pulumi_engine.Prelude.{
  ℕ, suc, if◌then◌else◌, String, Bool, true, false, ◌==◌, ◌≡◌, refl, List, [], ◌∷◌, map, All, any,
  not, lookup, ◌++◌, Option, none, some,
}
use pulumi_engine.Text.{concat, decimal, trim_space}
use pulumi_engine.Errors.{up}
use pulumi_engine.Stdout.{
  Chunk, first_with_verb, banner_verb, route_stdout_line, take_text, flush_sentinel, read,
  PumpState, pump_stdout, ends_line, Listener, Capture,
}
use pulumi_engine.Stdout.Flush.{
  Capturing, begin_flush, is_waiting, route, wakes, begin_flush-waiting,
}
use pulumi_engine.Stdout.Accounts.{handed_texts, route_line, IsAccounted, pump_stdout-accounts}
use pulumi_engine.Stdout.Forwarding.{chunks_text, held_text, IsLine, pump_stdout-whole_lines}

-- The routes are the number of banners so far.
abbrev count_banners : String → ℕ → Bool × ℕ
count_banners line n = if line == "Updating (dev):\n" then (true, suc n) else (false, n)

abbrev at_start : PumpState ℕ
at_start = record { partial = ""; pieces = []; returned = false; routes = 0 }

abbrev lines : List String
lines = "hello\n" ∷ "Updating (dev):\n" ∷ []

pump_stdout-whole_lines_example :
    ((pump_stdout count_banners (map read lines) at_start).partial ≡ "")
    × All IsLine (pump_stdout count_banners (map read lines) at_start).pieces
unfolding ends_line
pump_stdout-whole_lines_example =
    pump_stdout-whole_lines count_banners lines at_start (refl, (refl, tt)) refl tt

abbrev updating : Listener
updating = record { id = 1; kind = up; dry_run = false }

abbrev running : Capture
running = record {
  listeners = ("dev", record { id = 2; kind = up; dry_run = false } ∷ []) ∷ [];
  flushes = [];
  flushed = [];
  handed = [];
}

abbrev capturing : Capturing
capturing = record { enabled = true; started = true; flush_count = 0; capture = running }

abbrev no_banner : String → Option (String × String)
no_banner line = none

-- The sentinel of the first flush stands behind a prompt.
abbrev glued : List String
glued = "hello\n" ∷ append "name? " (append flush_sentinel "1\n") ∷ []

begin_flush-waiting_example :
    let p : PumpState Capture = record {
      partial = "";
      pieces = [];
      returned = false;
      routes = (begin_flush capturing).1.capture;
    } in
    ((begin_flush capturing).0 ≡ some (decimal 1, concat (flush_sentinel ∷ decimal 1 ∷ "\n" ∷ [])))
    × (is_waiting (decimal 1) (pump_stdout (route (λ s. s) no_banner) (map read glued) p).routes
        ≡ not (any (wakes (λ s. s) no_banner (decimal 1)) glued))
    × (wakes (λ s. s) no_banner (decimal 1) (concat (flush_sentinel ∷ decimal 1 ∷ "\n" ∷ []))
        ≡ true)
unfolding ends_line
begin_flush-waiting_example =
    begin_flush-waiting (λ s. s) no_banner capturing glued [] refl (refl, (refl, tt))

glued-wakes : any (wakes (λ s. s) no_banner (decimal 1)) glued ≡ false
unfolding decimal
glued-wakes = refl

-- A line of the host, a banner of the update that listens on dev, and the line of a flush.
abbrev update_banner : String → Option (String × String)
update_banner line = if line == "Updating (dev):" then some ("Updating", "dev") else none

abbrev at_banner : PumpState Capture
at_banner = record { partial = ""; pieces = []; returned = false; routes = running }

abbrev mixed : List Chunk
mixed = map read (lines ++ append flush_sentinel "1\n" ∷ [])

pump_stdout-accounts_example :
    let q = pump_stdout (route_line trim_space update_banner) mixed at_banner in
    (held_text (route_line trim_space update_banner) q
      ≡ append (held_text (route_line trim_space update_banner) at_banner) (chunks_text mixed))
    × IsAccounted trim_space update_banner q
pump_stdout-accounts_example = pump_stdout-accounts trim_space update_banner mixed at_banner refl

mixed-handed :
    handed_texts (pump_stdout (route_line trim_space update_banner) mixed at_banner).routes
    ≡ "Updating (dev):\n" ∷ []
unfolding pump_stdout route_stdout_line take_text ends_line lookup first_with_verb banner_verb
    trim_space
mixed-handed = refl
