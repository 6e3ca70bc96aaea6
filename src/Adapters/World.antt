-- ===== src/Adapters/World.antt =====
-- packages/adapters: what the adapters share. The software development kit of a service is a
-- parameter: each of its calls reads and changes a state of the service, and may throw.
use sandstorm_monorepo.Common.{
  String, Bool, false, Option, none, some, List, [], ◌∷◌, if◌then◌else◌, not, ◌==◌, string_eq, ℕ,
  ◌&&◌, length,
}
use sandstorm_monorepo.Common.Number.{JsNumber, ◌⊕◌, ◌⊗◌, ◌≻◌}
use sandstorm_monorepo.Common.Text.{◌+s◌, text_includes}
use sandstorm_monorepo.Common.Io.{Thrown, error_of, value_of, Answer, Io}
use sandstorm_monorepo.Common.Dict.{get, set}
use sandstorm_monorepo.Core.Sandbox.{LogLine, info}

-- A provider's own state, and that of the service behind it.
pub record World (S R : Type 0) : Type 0 where
  pub provider : S
  pub remote : R

module _ {S R : Type 0} where
  abbrev pub with_remote : {A : Type 0} → S → Answer A × R → Answer A × World S R
  with_remote s (a, r) = (a, record { provider = s; remote = r })

  -- A call of the service.
  unfoldable pub call : {A : Type 0} → (R → Answer A × R) → Io (World S R) A
  call op w = with_remote w.provider (op w.remote)

  abbrev pub on_provider : (S → S) → World S R → World S R
  on_provider f w = record w { provider = f w.provider }

-- `error.message.includes(…)`, in order; another value than an `Error` is turned into a text.
abbrev pub service_error : String → Thrown → Thrown
service_error name (value_of t) = error_of (name +s " error: " +s t)
service_error name (error_of m) =
    if text_includes m "rate limit"
    then error_of (name +s " rate limit exceeded: " +s m)
    else if text_includes m "quota"
    then error_of (name +s " quota exceeded: " +s m)
    else if text_includes m "timeout"
    then error_of (name +s " execution timeout: " +s m)
    else error_of m

-- `logs?.map(log => ({ timestamp, level: 'info', message: log }))`
abbrev pub log_lines : String → List String → List LogLine
log_lines now [] = []
log_lines now (m ∷ ms) = (record { timestamp = now; level = info; message = m }) ∷ log_lines now ms

abbrev pub logs_of : String → Option (List String) → Option (List LogLine)
logs_of now none = none
logs_of now (some ms) = some (log_lines now ms)

-- `if (text)` on an optional text.
abbrev pub has_text : Option String → Bool
has_text none = false
has_text (some s) = not (s == "")

-- An object filled entry by entry.
abbrev pub record_of :
    List (String × String) → List (Option (String × String)) → List (String × String)
record_of files [] = files
record_of files (none ∷ rest) = record_of files rest
record_of files (some (path, content) ∷ rest) = record_of (set path content files) rest

-- What a run is given: its fresh id, the time that it takes in ms, and the time of its end.
pub record RunStamp (A : Type 0) : Type 0 where
  pub id : String
  pub duration : A
  pub now : String

abbrev pub is_true : Option Bool → Bool
is_true none = false
is_true (some b) = b

abbrev pub size_of : Option (List String) → ℕ
size_of none = 0
size_of (some xs) = length xs

module _ {A : Type 0} ⦃n : JsNumber A⦄ where
  abbrev pub exceeds : Option A → A → Bool
  exceeds none limit = false
  exceeds (some v) limit = n.truthy v && (v ≻ limit)

  -- A product is taken only where the code multiplies.
  abbrev pub times_if : Bool → A → A → A
  times_if b factor a = if b then a ⊗ factor else a

  abbrev pub plus_if : Bool → A → A → A
  plus_if b summand a = if b then a ⊕ summand else a

-- A change of the value of a key that the map has: the code changes the object that it put there.
abbrev pub updated :
    {V : Type 0} → String → (V → V) → Option V → List (String × V) → List (String × V)
updated id f none m = m
updated id f (some v) m = set id (f v) m

abbrev pub update : {V : Type 0} → String → (V → V) → List (String × V) → List (String × V)
update id f m = updated id f (get id m) m
