-- ===== src/Platform.antt =====
-- What the code takes from Python's `str` and `uuid.UUID` (Unicode tables, number formats), and
-- from the database's text order.
use coolproof.Base.{ℕ, ℤ, String, ◌≡◌, Bool, Option, some}
use coolproof.Json.{Value, str, uuid}

-- `to_text` is `str(value)`, `parse_uuid` is `UUID(text)` with its ValueError as `none`, and
-- `parse_int` is `int(text)`, and `collates` is the order of `ORDER BY` on a text column.
pub record Platform : Type 0 where
  pub to_text : Value → String
  pub parse_uuid : String → Option ℕ
  pub isoformat : ℕ → String
  pub collates : String → String → Bool
  pub casefold : String → String
  pub strip : String → String
  pub lower : String → String
  pub parse_int : String → Option ℤ

-- A text is its own `str`, and the text of a UUID reads back as that UUID.
pub record IsFaithful (p : Platform) : Type 0 where
  pub text_self : (s : String) → p.to_text (str s) ≡ s
  pub parse-show : (u : ℕ) → p.parse_uuid (p.to_text (uuid u)) ≡ some u
