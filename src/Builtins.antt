-- ===== src/Builtins.antt =====
-- What the modules share of Python's built-ins on values: `str` and the case map of strings.
use circle_core.Prelude.{none, some, [], if◌then◌else◌}
use circle_core.Text.{Text}
use circle_core.Value.{Value, text_of, is_falsy}

-- `str` of a value that is no string, and `str.lower`.
pub record Builtins : Type 0 where
  pub to_text : Value → Text
  pub lower : Text → Text

-- `str(value)`
unfoldable pub str : Builtins → Value → Text
str o v = elim (text_of v) [ none ↦ o.to_text v | some t ↦ t ]

-- `str(value or "")`
unfoldable pub str_or_empty : Builtins → Value → Text
unfolding str
str_or_empty o v = if is_falsy v then [] else str o v

-- Built-ins for examples, on texts without capitals.
abbrev pub simple : Builtins
simple = record { to_text = λ v. []; lower = λ t. t }
