-- ===== src/Common/Text.antt =====
-- JavaScript's texts: templates, searching, cutting and joining. Positions count bytes, which are
-- JavaScript's positions on ASCII texts.
use Prim.Native.Nat.{ℕ, zero, suc, ◌+◌, ◌-◌}
use Prim.Native.String.{String, len, slice, compare, ◌++◌ as append}
use text.Mathlib.Text.{find?, is_le}
use mathlib.Core.Bool.{Bool, true, false, ◌||◌}
use mathlib.Core.Path.{◌≡◌, refl}
use mathlib.Core.Option.{Option, none, some}
use mathlib.Core.List.{List, [], ◌∷◌}
use sandstorm_monorepo.Common.Tests.{◌==◌, string_eq, if◌then◌else◌}

infixr 65 ◌+s◌
abbrev pub ◌+s◌ : String → String → String
s +s t = append s t

-- `s.includes(t)`
abbrev pub text_includes : String → String → Bool
text_includes s t = elim (find? s t) [ none ↦ false | some i ↦ true ]

-- `texts.join(separator)`
abbrev pub join : String → List String → String
join separator [] = ""
join separator (s ∷ []) = s
join separator (s ∷ t ∷ ts) = s +s separator +s join separator (t ∷ ts)

-- `text || ''`
abbrev pub or_text : Option String → String → String
or_text none fallback = fallback
or_text (some s) fallback = if s == "" then fallback else s

-- `s.substring(from, to)` with from ≤ to
abbrev pub substring : String → ℕ → ℕ → String
substring s from to = slice s from to

-- `s.split(separator)`: a piece takes at least one byte, so the length is enough fuel.
abbrev pub split_on : ℕ → String → String → List String
split_on zero separator s = s ∷ []
split_on (suc fuel) separator s = elim (find? s separator) [
  | none ↦ s ∷ []
  | some i ↦ slice s 0 i ∷ split_on fuel separator (slice s (i + len separator) (len s))
]

abbrev pub split : String → String → List String
split separator s = split_on (len s) separator s

-- `s.replace(pattern, text)` for a text as the pattern, and for a regular expression with the flag g
-- that matches one text.
abbrev pub replace_first : String → String → String → String
replace_first pattern text s = elim (find? s pattern) [
  | none ↦ s
  | some i ↦ slice s 0 i +s text +s slice s (i + len pattern) (len s)
]

abbrev pub replace_all : String → String → String → String
replace_all pattern text s = join text (split pattern s)

-- `s.trim()`
abbrev pub is_blank : String → Bool
is_blank c = (c == " ") || (c == "\n") || (c == "\t") || (c == "\r")

abbrev pub trim_start : ℕ → String → String
trim_start zero s = s
trim_start (suc fuel) s = elim (is_blank (slice s 0 1)) [
  | true ↦ trim_start fuel (slice s 1 (len s))
  | false ↦ s
]

abbrev pub trim_end : ℕ → String → String
trim_end zero s = s
trim_end (suc fuel) s = elim (is_blank (slice s (len s - 1) (len s))) [
  | true ↦ trim_end fuel (slice s 0 (len s - 1))
  | false ↦ s
]

abbrev pub trim : String → String
trim s = trim_end (len s) (trim_start (len s) s)

-- `dirname(path)` of a path with a slash inside: the text before the last one.
abbrev pub before_last : List String → List String
before_last [] = []
before_last (s ∷ []) = []
before_last (s ∷ t ∷ ts) = s ∷ before_last (t ∷ ts)

abbrev pub dirname : String → String
dirname path = join "/" (before_last (split "/" path))

-- The order of `texts.sort()`.
abbrev pub text_le : String → String → Bool
text_le s t = is_le (compare s t)

-- A number's text, `Number(text)` and `parseFloat`, for the type of JavaScript's numbers.
pub record JsText (A : Type 0) : Type 0 where
  pub show : A → String
  pub number : String → A
  pub parse : String → A

-- Tests
replaced : replace_all "'" "'\\''" "it's 'a'" ≡ "it'\\''s '\\''a'\\''"
replaced = refl

trimmed : trim "  a b\n" ≡ "a b"
trimmed = refl

pieces : split "\n" "a\nb\n" ≡ "a" ∷ "b" ∷ "" ∷ []
pieces = refl

directory : dirname "/tmp/x/main.py" ≡ "/tmp/x"
directory = refl
