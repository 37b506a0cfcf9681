-- ===== src/Base/Text.antt =====
-- Python text operations over the native `String`, which counts characters here.
use Prim.Native.Nat.{ℕ, zero, suc, ◌≤◌}
use Prim.Native.String.{String}
use mathlib.Core.Path.{◌≡◌, refl, ap}
use mathlib.Core.Bool.{Bool, true, false, ◌||◌}
use mathlib.Core.List.{List, [], ◌∷◌}
use native.Mathlib.Omega.{arith}
use Prim.Native.Char.{code}
use Prim.Native.String.{◌++◌ as ◌<>◌}
use text.Mathlib.Text.{◌==◌ as str_eq}
use text.Mathlib.TextEquality.{eq_iff}
use coolproof.Base.Tests.{◌==◌, if◌then◌else◌}

-- `s[:n]`
abbrev pub take_text : ℕ → String → String
take_text zero s = ""
take_text (suc n) String.[] = ""
take_text (suc n) (String.◌∷◌ c s) = String.◌∷◌ c (take_text n s)

-- `len(s)`
abbrev pub text_length : String → ℕ
text_length String.[] = 0
text_length (String.◌∷◌ c s) = suc (text_length s)

pub text_length-take_text : (n : ℕ) (s : String) → text_length (take_text n s) ≤ n
text_length-take_text zero s = omega arith
text_length-take_text (suc n) String.[] = omega arith
text_length-take_text (suc n) (String.◌∷◌ c s) = omega (arith, text_length-take_text n s)

-- Truncating twice to one length is truncating once.
pub take_text-take_text : (n : ℕ) (s : String) → take_text n (take_text n s) ≡ take_text n s
take_text-take_text zero s = refl
take_text-take_text (suc n) String.[] = refl
take_text-take_text (suc n) (String.◌∷◌ c s) = ap (String.◌∷◌ c) (take_text-take_text n s)

pub str_eq_refl : (s : String) → str_eq s s ≡ true
str_eq_refl s = (eq_iff s s).1 refl

-- `s in (...)`
unfoldable pub text_in : String → List String → Bool
text_in s [] = false
text_in s (t ∷ ts) = str_eq s t || text_in s ts

-- `s.endswith(suffix)`
unfoldable pub ends_with : String → String → Bool
ends_with suffix String.[] = str_eq "" suffix
ends_with suffix (String.◌∷◌ c s) = str_eq (String.◌∷◌ c s) suffix || ends_with suffix s

-- `s[n:]`
abbrev pub drop_text : ℕ → String → String
drop_text zero s = s
drop_text (suc n) String.[] = ""
drop_text (suc n) (String.◌∷◌ c s) = drop_text n s

-- `s.split(c)` for one character, with the piece that is being read.
split_from : ℕ → String → String → List String
split_from sep piece String.[] = piece ∷ []
split_from sep piece (String.◌∷◌ c s) =
    let next = split_from sep "" s in
    let more = split_from sep (piece <> String.◌∷◌ c "") s in
    if code c == sep then piece ∷ next else more

unfoldable pub split_on : ℕ → String → List String
unfolding split_from
split_on sep s = split_from sep "" s
