-- ===== src/Base/Text.antt =====
-- Equality of Go strings: a decision, and the Boolean `==` of the source.
use Prim.Native.String.{String}
use mathlib.Core.Path.{◌≡◌, refl}
use mathlib.Core.Logic.{◌↔◌}
use mathlib.Core.Bool.{Bool, true, false, false≢true}
use Prim.Native.String.{compare}
use text.Mathlib.Text.{◌==◌, is_lt}
use text.Mathlib.TextEquality.{eq_iff}

decide_by : (b : Bool) {A : Type 0} → (b ≡ true) ↔ A → Dec A
decide_by true h = yes (h.0 refl)
decide_by false h = no (λ a. false≢true (h.1 a))

unfoldable pub String_discrete : Discrete String
unfolding decide_by
String_discrete s t = decide_by (s == t) (eq_iff s t)

-- `s == t` of the source.
abbrev pub same : String → String → Bool
same s t = elim (String_discrete s t) [ yes _ ↦ true | no _ ↦ false ]

-- `s < t` of the source.
abbrev pub str_lt : String → String → Bool
str_lt s t = is_lt (compare s t)

-- `s + t` of the source.
abbrev pub cat : String → String → String
cat s t = Prim.Native.String.◌++◌ s t
