-- ===== src/Drift/Header/Lines.antt =====
-- internal/upstream/drift/drift.go: what the pattern of a source reads from the line that `Update`
-- writes.
use Prim.Native.Char.{Char, code}
use Prim.Native.String.{[], ◌∷◌, ◌++◌ as append}
use text.Mathlib.TextLemmas.{nil-append, cons-append, append-nil, append_assoc, cons≢nil}
use pulumi_engine.Prelude.{
  ℕ, String, Bool, true, false, not, ◌&&◌, ◌==◌, none, some, eqb, ◌≡◌, refl, sym, ap, ◌∙◌, arith,
  Bool-cases, inl, inr, eq_iff,
}
use pulumi_engine.Text.{concat}
use pulumi_engine.Text.Trimmed.{strip_prefix-append}
use pulumi_engine.Drift.{Source}
use pulumi_engine.Drift.Header.{
  is_blank, skip_blanks, strip_prefix, span_word, next_word, directive, split_last, all_hex,
  is_digest, source_line, header_line,
}

-- a text without white space
abbrev pub no_blank : String → Bool
no_blank [] = true
no_blank (c ∷ s) = not (is_blank c) && no_blank s

-- a text without the character that separates a version
abbrev pub no_at : String → Bool
no_at [] = true
no_at (c ∷ s) = not (eqb (code c) b'@') && no_at s

-- the fields of a source, each as its group of the pattern wants it
pub record IsSource (s : Source) : Type 0 where
  pub module_word : no_blank s.module_path ≡ true
  pub module_there : (s.module_path == "") ≡ false
  pub version_word : no_blank s.version ≡ true
  pub version_there : (s.version == "") ≡ false
  pub version_at : no_at s.version ≡ true
  pub path_word : no_blank s.path ≡ true
  pub path_there : (s.path == "") ≡ false
  pub digest : is_digest s.sha256 ≡ true

blank : Char
blank = " "

span_word-append :
    (w : String) (c : Char) (r : String)
    → no_blank w ≡ true
    → is_blank c ≡ true
    → span_word (append w (c ∷ r)) ≡ (w, c ∷ r)
unfolding span_word
span_word-append [] c r h b = rw (nil-append (c ∷ r)) (ground (arith, b))
span_word-append (d ∷ w) c r h b =
    rw (cons-append d w (c ∷ r)) (ground (arith, span_word-append w c r))

span_word_all : (w : String) → no_blank w ≡ true → span_word w ≡ (w, [])
unfolding span_word
span_word_all [] h = refl
span_word_all (d ∷ w) h = ground (arith, span_word_all w)

skip_blanks-word :
    (w r : String) → no_blank w ≡ true → (w == "") ≡ false → skip_blanks (append w r) ≡ append w r
unfolding skip_blanks
skip_blanks-word [] r h n = absurd (cc n)
skip_blanks-word (d ∷ w) r h n = rw (cons-append d w r) (ground arith)

pub no_blank-append :
    (v w : String) → no_blank v ≡ true → no_blank w ≡ true → no_blank (append v w) ≡ true
no_blank-append [] w hv hw = rw (nil-append w) hw
no_blank-append (d ∷ v) w hv hw = rw (cons-append d v w) (ground (arith, no_blank-append v w))

split_last-no_at : (v : String) → no_at v ≡ true → split_last v ≡ none
unfolding split_last
split_last-no_at [] h = refl
split_last-no_at (c ∷ v) h = ground (arith, split_last-no_at v)

pub split_last-append :
    (m v : String)
    → no_at v ≡ true
    → (v == "") ≡ false
    → split_last (append m (append "@" v)) ≡ some (m, v)
unfolding split_last
split_last-append [] v h n =
    rw (nil-append (append "@" v), cons-append "@" "" v, nil-append v)
      (ground (arith, split_last-no_at v))
split_last-append (c ∷ m) v h n =
    rw (cons-append c m (append "@" v)) (ground (arith, split_last-append m v))

space : (r : String) → append " " r ≡ blank ∷ r
unfolding blank
space r = cons-append " " "" r ∙ ap (λ t. " " ∷ t) (nil-append r)

skipped_blank : (r : String) → skip_blanks (blank ∷ r) ≡ skip_blanks r
unfolding skip_blanks is_blank blank
skipped_blank r = refl

is_blank-blank : is_blank blank ≡ true
unfolding is_blank blank
is_blank-blank = refl

next_word-word :
    (w r : String)
    → no_blank w ≡ true
    → (w == "") ≡ false
    → next_word (append " " (append w (append " " r))) ≡ some (w, append " " r)
unfolding next_word
next_word-word w r h n =
    let after : span_word (append w (append " " r)) ≡ (w, append " " r) =
      rw (space r) (span_word-append w blank r h is_blank-blank) in
    rw (space (append w (append " " r)), is_blank-blank, skip_blanks-word w (append " " r) h n)
      (rw (after, n) refl)

next_word_last :
    (w : String) → no_blank w ≡ true → (w == "") ≡ false → next_word (append " " w) ≡ some (w, "")
unfolding next_word
next_word_last w h n =
    let same : skip_blanks w ≡ w =
      ap skip_blanks (sym (append-nil w)) ∙ skip_blanks-word w "" h n ∙ append-nil w in
    rw (space w, is_blank-blank, same, span_word_all w h, n) refl

directive_upstream :
    (r : String) → directive "upstream:" (append "// upstream: " r) ≡ some (append " " r)
unfolding directive skip_blanks is_blank
directive_upstream r =
    let word : append "upstream: " r ≡ append "upstream:" (append " " r) =
      append_assoc "upstream:" " " r in
    let opened : strip_prefix "//" (append "// upstream: " r) ≡ some (append " upstream: " r) =
      ap (strip_prefix "//") (append_assoc "//" " upstream: " r) ∙ strip_prefix-append "//" _ in
    let skipped : skip_blanks (append " upstream: " r) ≡ append "upstream:" (append " " r) =
      ap skip_blanks
        (append_assoc " " "upstream: " r ∙ space (append "upstream: " r) ∙ ap (λ t. blank ∷ t) word)
      ∙ skipped_blank (append "upstream:" (append " " r))
      ∙ skip_blanks-word "upstream:" (append " " r) refl refl in
    rw (opened, skipped) (strip_prefix-append "upstream:" (append " " r))

-- what `Update` writes, piece by piece
header_pieces :
    (s : Source)
    → header_line s
      ≡ append "// upstream: " (
          append
            (append s.module_path (append "@" s.version))
            (append " " (append s.path (append " " (append "sha256=" s.sha256)))))
unfolding header_line concat
header_pieces s =
    rw (append-nil s.sha256, append_assoc " " "sha256=" s.sha256) (simp (append_assoc))

pub cons_there : (c : Char) (s : String) → ((c ∷ s) == "") ≡ false
cons_there c s = elim (Bool-cases ((c ∷ s) == "")) [
  | inl e ↦ absurd (cons≢nil ((eq_iff (c ∷ s) "").0 e))
  | inr e ↦ e
]

word_there : (w r : String) → (w == "") ≡ false → (append w r == "") ≡ false
word_there [] r n = absurd (cc n)
word_there (c ∷ w) r n = rw (cons-append c w r) (cons_there c (append w r))

pub all_hex-no_blank : (s : String) → all_hex s ≡ true → no_blank s ≡ true
unfolding all_hex is_blank
all_hex-no_blank [] h = refl
all_hex-no_blank (c ∷ s) h = ground (arith, all_hex-no_blank s)

module _ (s : Source) (v : IsSource s) where
  qualified_word : no_blank (append s.module_path (append "@" s.version)) ≡ true
  unfolding is_blank
  qualified_word =
      no_blank-append s.module_path (append "@" s.version) v.module_word
        (no_blank-append "@" s.version refl v.version_word)

  digest_word : no_blank (append "sha256=" s.sha256) ≡ true
  unfolding is_blank
  digest_word =
      no_blank-append "sha256=" s.sha256 refl (all_hex-no_blank s.sha256 (ground (arith, v.digest)))

  -- The pattern of a source reads back, from the line that `Update` writes for a source, that
  -- source, with the number of the line.
  pub source_line-header_line :
      (n : ℕ) → source_line n (header_line s) ≡ some (record s { line = n })
  unfolding source_line
  source_line-header_line n =
      let digits = append "sha256=" s.sha256 in
      let after_path = append " " digits in
      let after_name = append " " (append s.path after_path) in
      let name = append s.module_path (append "@" s.version) in
      let e1 = directive_upstream (append name after_name) in
      let e2 =
        next_word-word name (append s.path after_path) qualified_word
          (word_there s.module_path _ v.module_there) in
      let e3 = next_word-word s.path digits v.path_word v.path_there in
      let e4 = next_word_last digits digest_word (word_there "sha256=" s.sha256 refl) in
      rw
        (
          header_pieces s,
          e1,
          e2,
          e3,
          e4,
          strip_prefix-append "sha256=" s.sha256,
          split_last-append s.module_path s.version v.version_at v.version_there,
          v.module_there,
          v.digest,
        )
        refl
