-- ===== src/Probe/Address.antt =====
-- crates/probe/src/main.rs: the address that is probed.
use Prim.Native.Char.{Char, code}
use Prim.Native.String.{◌++◌}
use text.Mathlib.Text.{starts_with}
use text.Mathlib.TextLemmas.{cons-append, nil-append}
use text.Mathlib.TextEquality.{starts_with_iff}
use responses_api_store.Common.{
  ℕ, String, false, Option, none, some, ◌≡◌, ◌≢◌, refl, sym, ap, inl, inr, arith, Bool-cases, ◌||◌,
}
use responses_api_store.Common.Text.{
  replace_text, strip_prefix, is_whitespace, trim_start, trim_before, trim_end, is_blank, trim,
}
use responses_api_store.Common.Text.Parts.{Avoids}
use responses_api_store.Probe.{probe_endpoint_from_env}

first_dot : (s : String) → Avoids 46 s → strip_prefix ".0.0.0:" s ≡ none
unfolding strip_prefix
first_dot String.[] h = refl
first_dot (String.◌∷◌ d s) (h, _) = ground arith

no_match : (c : Char) (s : String) → Avoids 46 s → strip_prefix "0.0.0.0:" (String.◌∷◌ c s) ≡ none
unfolding strip_prefix
no_match c s h = ground (arith, first_dot s h)

-- A text without a dot has no match.
replace_text-Avoids : (s to : String) → Avoids 46 s → replace_text "0.0.0.0:" to 0 s ≡ s
unfolding replace_text
replace_text-Avoids String.[] to h = refl
replace_text-Avoids (String.◌∷◌ c s) to (_, h) =
    rw (no_match c s h, replace_text-Avoids s to h) refl

-- The address of all interfaces, character by character.
abbrev any_address : String → String
any_address port = String.◌∷◌ "0" (
    String.◌∷◌ "." (
      String.◌∷◌ "0"
        (String.◌∷◌ "." (String.◌∷◌ "0" (String.◌∷◌ "." (String.◌∷◌ "0" (String.◌∷◌ ":" port)))))))

any_address_lem : (port : String) → "0.0.0.0:" ++ port ≡ any_address port
any_address_lem port =
    rw
      (
        cons-append "0" ".0.0.0:" port,
        cons-append "." "0.0.0:" port,
        cons-append "0" ".0.0:" port,
        cons-append "." "0.0:" port,
        cons-append "0" ".0:" port,
        cons-append "." "0:" port,
        cons-append "0" ":" port,
        cons-append ":" "" port,
        nil-append port,
      )
      refl

dialled :
    (port : String)
    → Avoids 46 port
    → replace_text "0.0.0.0:" "127.0.0.1:" 0 ("0.0.0.0:" ++ port) ≡ "127.0.0.1:" ++ port
unfolding replace_text
dialled port h = rw any_address_lem (rw (replace_text-Avoids port "127.0.0.1:" h) refl)

trim_before-cons :
    (c : Char) (s : String)
    → is_whitespace (code c) ≡ false
    → (t : String) × (trim_before c s ≡ String.◌∷◌ c t)
trim_before-cons c String.[] h = (String.[], rw h refl)
trim_before-cons c (String.◌∷◌ d s) h = (String.◌∷◌ d s, refl)

trim_end-cons :
    (c : Char) (s : String)
    → is_whitespace (code c) ≡ false
    → (t : String) × (trim_end (String.◌∷◌ c s) ≡ String.◌∷◌ c t)
unfolding trim_end
trim_end-cons c s h = trim_before-cons c (trim_end s) h

trim-cons :
    (c : Char) (s : String)
    → is_whitespace (code c) ≡ false
    → is_blank (trim (String.◌∷◌ c s)) ≡ false
unfolding trim_start
trim-cons c s h = let (t, e) = trim_end-cons c s h in rw (e, h) refl

not_blank : (port : String) → is_blank (trim ("0.0.0.0:" ++ port)) ≡ false
not_blank port = rw any_address_lem (trim-cons "0" _ refl)

first : String → ℕ
first String.[] = 0
first (String.◌∷◌ c s) = code c

-- A text that begins with another character than "h" has no scheme.
not_h :
    (c : Char) (s t : String)
    → code c ≢ code "h"
    → starts_with (String.◌∷◌ c s) (String.◌∷◌ "h" t) ≡ false
unfolding first
not_h c s t apart = elim (Bool-cases (starts_with (String.◌∷◌ c s) (String.◌∷◌ "h" t))) [
  | inr h ↦ h
  | inl h ↦
      let (u, e) = (starts_with_iff (String.◌∷◌ c s) (String.◌∷◌ "h" t)).0 h in
      absurd (apart (sym (ap first (rw cons-append at e))))
]

no_scheme :
    (port : String)
    → (starts_with ("127.0.0.1:" ++ port) "http://"
        || starts_with ("127.0.0.1:" ++ port) "https://")
      ≡ false
no_scheme port =
    rw (cons-append "1" "27.0.0.1:" port)
      (rw (not_h "1" _ "ttp://" (omega arith), not_h "1" _ "ttps://" (omega arith)) refl)

-- A listen address of 0.0.0.0 and a port is probed at 127.0.0.1 and that port; for a port text
-- without a dot.
pub probe_endpoint_from_env-any :
    (var : String → Option String) (port : String)
    → Avoids 46 port
    → var "GRPC_LISTEN_ADDR" ≡ some ("0.0.0.0:" ++ port)
    → probe_endpoint_from_env var ≡ "http://" ++ ("127.0.0.1:" ++ port)
unfolding probe_endpoint_from_env
probe_endpoint_from_env-any var port h e =
    rw (e, not_blank port, dialled port h, no_scheme port) refl
