-- ===== src/Stdout/Flush.antt =====
-- engine/stdout.go: the start of the capture, and a flush, which waits for its own line to come
-- through the pipe.
use Prim.Native.String.{◌++◌ as append}
use text.Mathlib.TextLemmas.{nil-append}
use pulumi_engine.Prelude.{
  ℕ, ◌+◌, String, Bool, true, false, not, ◌||◌, ◌&&◌, ◌==◌, ◌≡◌, refl, sym, ◌∙◌, ap, List, [], ◌∷◌,
  Option, none, some, lookup, insert, lookup-erase, lookup-insert, any, is_some, map, All,
  if◌then◌else◌, Bool-cases, Option-cases, inl, inr, arith, eq_iff, eq_refl,
}
use pulumi_engine.Text.{concat, decimal, has_prefix, trim_prefix, trim_space}
use pulumi_engine.Text.Trimmed.{
  has_prefix-append, trim_prefix-append, trim_space_newline, decimal-no_space,
}
use pulumi_engine.Stdout.{
  flush_sentinel, ends_line, read, Piece, PumpState, whole_line, take_text, pump_stdout, Capture,
  first_with_verb, listening, flush_waiter, route_banner, route_stdout_line,
}

-- The rest of `stdoutCapture`: whether it may start and has started, and the last flush's number.
pub record Capturing : Type 0 where
  pub enabled : Bool
  pub started : Bool
  pub flush_count : ℕ
  pub capture : Capture

-- `SetStdoutCapture`
unfoldable pub set_stdout_capture : Bool → Capturing → Capturing
set_stdout_capture enabled c = record c { enabled = enabled }

-- `startStdoutCapture`, by whether `os.Pipe` makes a pipe; a start is that of the pump
unfoldable pub start_stdout_capture : Bool → Capturing → Capturing
start_stdout_capture piped c =
    if not c.enabled || c.started then c else if piped then record c { started = true } else c

-- `flushStdoutCapture` up to the write: the flush's name and the line to write, if the capture runs
unfoldable pub begin_flush : Capturing → Option (String × String) × Capturing
begin_flush c =
    let id = decimal (c.flush_count + 1) in
    if not c.started then (none, c) else (
      some (id, concat (flush_sentinel ∷ id ∷ "\n" ∷ [])),
      record c {
        flush_count = c.flush_count + 1;
        capture = record c.capture { flushes = insert id tt c.capture.flushes };
      },
    )

-- whether the flush of this name still waits
abbrev pub is_waiting : String → Capture → Bool
is_waiting id c = is_some (lookup id c.flushes)

not_either : (a b c : Bool) → (a && not b) && not c ≡ a && not (b || c)
not_either true true c = refl
not_either true false c = refl
not_either false b c = refl

and_true : (a : Bool) → a && true ≡ a
and_true true = refl
and_true false = refl

module _ (plain : String → String) (match_banner : String → Option (String × String)) where
  abbrev pub route : String → Capture → Bool × Capture
  route = route_stdout_line plain match_banner

  -- a line that wakes the flush of this name
  abbrev pub wakes : String → String → Bool
  wakes id line =
      has_prefix line flush_sentinel && trim_space (trim_prefix line flush_sentinel) == id

  flush_waiter-waiting :
      (name id : String) (c : Capture)
      → is_waiting id (flush_waiter plain match_banner name c).1
        ≡ is_waiting id c && not (name == id)
  unfolding flush_waiter
  flush_waiter-waiting name id c = elim (Option-cases (lookup name c.flushes)) [
    | inl n ↦
        rw (flush_waiter, n)
          (elim (Bool-cases (name == id)) [
            | inl same ↦
                rw same (ground (arith, ap (λ k. lookup k c.flushes) ((eq_iff name id).0 same), n))
            | inr other ↦ rw other (sym (and_true (is_waiting id c)))
          ])
    | inr (t, n) ↦
        rw (flush_waiter, n)
          (elim (Bool-cases (name == id)) [
            | inl same ↦ ground (arith, lookup-erase name id c.flushes, same)
            | inr other ↦ ground (arith, lookup-erase name id c.flushes, other)
          ])
  ]

  route_banner-flushes :
      (text : String) (m : Option (String × String)) (c : Capture)
      → (route_banner plain match_banner text m c).1.flushes ≡ c.flushes
  unfolding route_banner
  route_banner-flushes text none c = refl
  route_banner-flushes text (some (verb, stack)) c =
      elim (Option-cases (first_with_verb verb (listening (lookup stack c.listeners)))) [
        | inl n ↦ rw (route_banner, n) refl
        | inr (o, n) ↦ rw (route_banner, n) refl
      ]

  route-waiting :
      (id line : String) (c : Capture)
      → is_waiting id (route line c).1 ≡ is_waiting id c && not (wakes id line)
  unfolding route_stdout_line
  route-waiting id line c = elim (Bool-cases (has_prefix line flush_sentinel)) [
    | inl y ↦
        rw (route_stdout_line, y)
          (flush_waiter-waiting (trim_space (trim_prefix line flush_sentinel)) id c)
    | inr n ↦
        rw (route_stdout_line, n)
          (ap (λ f. is_some (lookup id f))
              (route_banner-flushes (plain line) (match_banner (plain line)) c)
            ∙ sym (and_true (is_waiting id c)))
  ]

  take_text-routes :
      (line : String) (p : PumpState Capture)
      → ends_line line ≡ true
      → p.partial ≡ ""
      → (take_text route line p).routes ≡ (route line p.routes).1
        × ((take_text route line p).partial ≡ "")
  unfolding take_text whole_line ends_line
  take_text-routes line p h e = elim (Bool-cases (line == "")) [
    | inl empty ↦ absurd (cc (ap ends_line ((eq_iff line "").0 empty), h))
    | inr n ↦ rw (take_text, n, h, whole_line, e, nil-append line) (refl, refl)
  ]

  -- What the pump reads wakes a flush exactly if a line names it.
  pump_stdout-waiting :
      (id : String) (reads : List String) (p : PumpState Capture)
      → All (λ r. ends_line r ≡ true) reads
      → p.partial ≡ ""
      → is_waiting id (pump_stdout route (map read reads) p).routes
        ≡ is_waiting id p.routes && not (any (wakes id) reads)
  unfolding pump_stdout
  pump_stdout-waiting id [] p ends e = ground arith
  pump_stdout-waiting id (r ∷ reads) p ends e =
      let (routed, held) = take_text-routes r p ends.0 e in
      pump_stdout-waiting id reads (take_text route r p) ends.1 held
      ∙ ap (λ c. is_waiting id c && not (any (wakes id) reads)) routed
      ∙ ap (λ b. b && not (any (wakes id) reads)) (route-waiting id r p.routes)
      ∙ not_either (is_waiting id p.routes) (wakes id r) (any (wakes id) reads)

  begin_flush-eq-some :
      (c : Capturing)
      → c.started ≡ true
      → let id = decimal (c.flush_count + 1) in
        ((begin_flush c).0 ≡ some (id, concat (flush_sentinel ∷ id ∷ "\n" ∷ [])))
        × (is_waiting id (begin_flush c).1.capture ≡ true)
  unfolding begin_flush
  begin_flush-eq-some c s =
      let id = decimal (c.flush_count + 1) in
      rw (begin_flush, s)
        (refl, ground (arith, lookup-insert id id tt c.capture.flushes, eq_refl id))

  -- The line that a flush writes wakes it.
  wakes_own : (n : ℕ) → wakes (decimal n) (concat (flush_sentinel ∷ decimal n ∷ "\n" ∷ [])) ≡ true
  unfolding concat
  wakes_own n =
      let rest = append (decimal n) "\n" in
      rw
        (
          has_prefix-append flush_sentinel rest,
          trim_prefix-append flush_sentinel rest,
          trim_space_newline (decimal n) (decimal-no_space n),
        )
        (eq_refl (decimal n))

  -- A flush of a capture that runs takes the next number and gives the line of its sentinel to
  -- write. After any lines that the pump then reads with nothing held back, the flush still waits
  -- exactly if none of them begins with the sentinel and names it; the line that it gave is one that
  -- does. So the flush is woken when its line comes through as a line of its own, and stays waiting
  -- after a line in which the sentinel stands behind text that was written without a newline.
  pub begin_flush-waiting :
      (c : Capturing) (reads : List String) (pieces : List Piece)
      → c.started ≡ true
      → All (λ r. ends_line r ≡ true) reads
      → let id = decimal (c.flush_count + 1) in
        let p : PumpState Capture = record {
          partial = "";
          pieces = pieces;
          returned = false;
          routes = (begin_flush c).1.capture;
        } in
        ((begin_flush c).0 ≡ some (id, concat (flush_sentinel ∷ id ∷ "\n" ∷ [])))
        × (is_waiting id (pump_stdout route (map read reads) p).routes ≡ not (any (wakes id) reads))
        × (wakes id (concat (flush_sentinel ∷ id ∷ "\n" ∷ [])) ≡ true)
  begin_flush-waiting c reads pieces s ends =
      let id = decimal (c.flush_count + 1) in
      let (made, waits) = begin_flush-eq-some c s in
      (
        made,
        pump_stdout-waiting id reads _ ends refl ∙ ap (λ b. b && not (any (wakes id) reads)) waits,
        wakes_own (c.flush_count + 1),
      )
