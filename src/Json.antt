-- ===== src/Json.antt =====
-- The values that a `dict[str, object]` holds, and Python's dict operations on them.
pub mod Laws
use coolproof.Base.{
  ℕ, ℤ, pos, negsuc, ◌==◌, ◌^◌, not, ◌||◌, String, str_eq, ◌≡◌, Bool, true, false, Option, none,
  some, List, [], ◌∷◌, if◌then◌else◌, is_some,
}

abbrev is_nonzero : ℤ → Bool
is_nonzero (pos n) = not (n == 0)
is_nonzero (negsuc n) = true

-- `float` is given by its 64-bit pattern: this code copies floats and does not compute with them.
mutual
  pub data Value : Type 0 where
    null : Value
    bool : Bool → Value
    int : ℤ → Value
    float : ℕ → Value
    str : String → Value
    uuid : ℕ → Value
    obj : Fields → Value
    arr : Items → Value

  pub data Fields : Type 0 where
    end : Fields
    field : String → Value → Fields → Fields

  pub data Items : Type 0 where
    nil : Items
    cons : Value → Items → Items

-- `d.get(key)`
unfoldable pub get : String → Fields → Option Value
get k end = none
get k (field j v d) = if str_eq j k then some v else get k d

-- `key in d`
abbrev pub has_key : String → Fields → Bool
has_key k d = is_some (get k d)

-- `d[key] = value`
unfoldable pub put : String → Value → Fields → Fields
put k v end = field k v end
put k v (field j w d) = if str_eq j k then field j v d else field j w (put k v d)

-- `{**a, **b}`
unfoldable pub merge : Fields → Fields → Fields
merge a end = a
merge a (field k v b) = merge (put k v a) b

-- `bool(d)`
abbrev pub is_truthy : Fields → Bool
is_truthy end = false
is_truthy (field k v d) = true

-- `bool(value)`; the two zeros among the floats are the patterns 0 and 2^63.
abbrev pub holds : Value → Bool
holds null = false
holds (bool b) = b
holds (int n) = is_nonzero n
holds (float x) = not (x == 0 || x == 2 ^ 63)
holds (str s) = not (str_eq s "")
holds (uuid u) = true
holds (arr nil) = false
holds (arr (cons v vs)) = true
holds (obj d) = is_truthy d

-- `a or b`, where a missing key is None.
abbrev pub or_value : Option Value → Option Value → Option Value
or_value none b = b
or_value (some a) b = if holds a then some a else b

abbrev pub items_of : List Value → Items
items_of [] = nil
items_of (v ∷ vs) = cons v (items_of vs)

abbrev pub list_of : Items → List Value
list_of nil = []
list_of (cons v vs) = v ∷ list_of vs

-- A dict literal with distinct keys.
abbrev pub dict : List (String × Value) → Fields
dict [] = end
dict ((k, v) ∷ d) = field k v (dict d)

-- `value if value is a dict else {}`
abbrev pub dict_or_empty : Option Value → Fields
dict_or_empty (some (obj d)) = d
dict_or_empty _ = end

-- `x or None` and `str(x) if x else None` as a JSON value.
abbrev pub optional_text : Option String → Value
optional_text none = null
optional_text (some s) = str s

-- No key is bound twice, as in every Python dict.
abbrev pub Distinct : Fields → Type 0
Distinct end = Unit
Distinct (field k v d) = (get k d ≡ none) × Distinct d

-- `d.pop(key, None)`
unfoldable pub remove : String → Fields → Fields
remove k end = end
remove k (field j v d) = let rest = remove k d in if str_eq j k then rest else field j v rest
