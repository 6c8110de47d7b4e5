-- ===== src/Server/Label.antt =====
-- crates/server/src/metrics.rs: label values, as a reader of the exposition format reads them.
use Prim.Native.Char.{Char, code}
use Prim.Native.String.{[], ◌∷◌, ◌++◌}
use text.Mathlib.TextLemmas.{nil-append, cons-append}
use text.Mathlib.TextEquality.{Char-path}
use responses_api_store.Common.{
  ℕ, String, Option, none, some, ◌≡◌, ◌≢◌, refl, ap, ◌∙◌, sym, inl, inr, arith, eqb, Bool-cases,
  if◌then◌else◌,
}
use responses_api_store.Server.Metrics.{
  replace, escape_prometheus_label_value, backslash, newline, quote,
}

-- What the exposition format says of a label's value: a backslash stands before a backslash, a quote
-- or the letter n for a line feed; a bare quote or line feed ends the value.
abbrev push : Char → Option String → Option String
push c none = none
push c (some s) = some (c ∷ s)

abbrev after_backslash : Char → Option String → Option String
after_backslash c rest =
    if eqb (code c) backslash
    then push "\\" rest
    else if eqb (code c) b'n'
    then push "\n" rest
    else if eqb (code c) quote
    then push "\"" rest
    else none

abbrev plain : Char → Option String → Option String
plain c rest =
    if eqb (code c) quote then none else if eqb (code c) newline then none else push c rest

unfoldable pub read_label : String → Option String
read_label [] = some []
read_label (c ∷ []) = if eqb (code c) backslash then none else plain c (some [])
read_label (c ∷ (d ∷ s)) =
    let two = after_backslash d (read_label s) in
    let one = plain c (read_label (d ∷ s)) in if eqb (code c) backslash then two else one

read_plain :
    (c : Char) (s : String)
    → code c ≢ backslash
    → code c ≢ newline
    → code c ≢ quote
    → read_label (c ∷ s) ≡ push c (read_label s)
unfolding read_label
read_plain c [] h k l = ground arith
read_plain c (d ∷ s) h k l = ground arith

replace-hit :
    (from : ℕ) (to : String) (c : Char) (s : String)
    → code c ≡ from
    → replace from to (c ∷ s) ≡ to ++ replace from to s
unfolding replace
replace-hit from to c s h = ground arith

replace-miss :
    (from : ℕ) (to : String) (c : Char) (s : String)
    → code c ≢ from
    → replace from to (c ∷ s) ≡ c ∷ replace from to s
unfolding replace
replace-miss from to c s h = ground arith

-- A text of two characters in front of another.
two : (a b : Char) (s : String) → (a ∷ (b ∷ [])) ++ s ≡ a ∷ (b ∷ s)
two a b s = rw (cons-append, cons-append, nil-append) refl

escape-backslash :
    (c : Char) (s : String)
    → code c ≡ backslash
    → escape_prometheus_label_value (c ∷ s) ≡ "\\" ∷ ("\\" ∷ escape_prometheus_label_value s)
unfolding escape_prometheus_label_value replace
escape-backslash c s h =
    ap (λ t. replace quote "\\\"" (replace newline "\\n" t))
      (replace-hit backslash "\\\\" c s h ∙ two "\\" "\\" (replace backslash "\\\\" s))

escape-newline :
    (c : Char) (s : String)
    → code c ≡ newline
    → escape_prometheus_label_value (c ∷ s) ≡ "\\" ∷ ("n" ∷ escape_prometheus_label_value s)
unfolding escape_prometheus_label_value replace
escape-newline c s h =
    ap (λ t. replace quote "\\\"" (replace newline "\\n" t))
      (replace-miss backslash "\\\\" c s (omega (arith, h)))
    ∙ ap (λ t. replace quote "\\\"" t)
        (replace-hit newline "\\n" c (replace backslash "\\\\" s) h
          ∙ two "\\" "n" (replace newline "\\n" (replace backslash "\\\\" s)))

escape-quote :
    (c : Char) (s : String)
    → code c ≡ quote
    → escape_prometheus_label_value (c ∷ s) ≡ "\\" ∷ ("\"" ∷ escape_prometheus_label_value s)
unfolding escape_prometheus_label_value
escape-quote c s h =
    rw
      (
        replace-miss backslash _ c s (omega (arith, h)),
        replace-miss newline _ c _ (omega (arith, h)),
        replace-hit quote _ c _ h,
      )
      (two "\\" "\"" _)

escape-plain :
    (c : Char) (s : String)
    → code c ≢ backslash
    → code c ≢ newline
    → code c ≢ quote
    → escape_prometheus_label_value (c ∷ s) ≡ c ∷ escape_prometheus_label_value s
unfolding escape_prometheus_label_value
escape-plain c s h k l =
    rw (replace-miss backslash _ c s h, replace-miss newline _ c _ k, replace-miss quote _ c _ l)
      refl

escaped :
    (c : Char) (s : String)
    → read_label (escape_prometheus_label_value s) ≡ some s
    → read_label (escape_prometheus_label_value (c ∷ s)) ≡ some (c ∷ s)
unfolding read_label
escaped c s ih = elim (Bool-cases (eqb (code c) backslash)) [
  | inl b ↦
      rw (escape-backslash c s (ground arith), ih)
        (ap (λ d. some (d ∷ s)) (sym (Char-path c "\\" (ground arith))))
  | inr not_backslash ↦ elim (Bool-cases (eqb (code c) newline)) [
    | inl b ↦
        rw (escape-newline c s (ground arith), ih)
          (ap (λ d. some (d ∷ s)) (sym (Char-path c "\n" (ground arith))))
    | inr not_newline ↦ elim (Bool-cases (eqb (code c) quote)) [
      | inl b ↦
          rw (escape-quote c s (ground arith), ih)
            (ap (λ d. some (d ∷ s)) (sym (Char-path c "\"" (ground arith))))
      | inr not_quote ↦
          let (h, k, l) : (code c ≢ backslash) × (code c ≢ newline) × (code c ≢ quote) =
            (ground arith, ground arith, ground arith) in
          rw (escape-plain c s h k l)
            (read_plain c (escape_prometheus_label_value s) h k l ∙ ap (push c) ih)
    ]
  ]
]

-- A reader of the Prometheus exposition format reads the escaped label value as the value:
-- nothing in it ends the label, and no two values are escaped to one text.
pub read_label-escape_prometheus_label_value :
    (value : String) → read_label (escape_prometheus_label_value value) ≡ some value
unfolding escape_prometheus_label_value replace read_label
read_label-escape_prometheus_label_value [] = refl
read_label-escape_prometheus_label_value (c ∷ s) =
    escaped c s (read_label-escape_prometheus_label_value s)
