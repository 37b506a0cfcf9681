-- ===== src/Json/Laws.antt =====
-- The dict operations of `Json` as equations on lookups.
use coolproof.Base.{
  String, str_eq, eq_iff, ◌≡◌, refl, Option, none, some, arith, Bool-cases, inl, inr, if◌then◌else◌,
}
use coolproof.Json.{Value, Fields, end, field, get, put, merge, remove, Distinct}

pub get-put :
    (k j : String) (v : Value) (d : Fields)
    → get j (put k v d) ≡ (if str_eq k j then some v else get j d)
unfolding get put
get-put k j v end = refl
get-put k j v (field i w d) = ground (arith, eq_iff k j, eq_iff i k, eq_iff i j, get-put k j v d)

abbrev pub or_else : Option Value → Option Value → Option Value
or_else none b = b
or_else (some v) b = some v

-- The right operand of a merge wins.
pub get-merge :
    (j : String) (a b : Fields) → Distinct b → get j (merge a b) ≡ or_else (get j b) (get j a)
unfolding get merge
get-merge j a end h = refl
get-merge j a (field k v b) h =
    ground (arith, eq_iff k j, get-merge j (put k v a) b h.1, get-put k j v a)

-- A write keeps the keys distinct.
pub put-Distinct : (k : String) (v : Value) (d : Fields) → Distinct d → Distinct (put k v d)
unfolding get put
put-Distinct k v end h = (refl, tt)
put-Distinct k v (field j w d) h = elim (Bool-cases (str_eq j k)) [
  | inl same ↦ rw (same, put) h
  | inr other ↦
      rw (other, put)
        (ground (arith, eq_iff j k, eq_iff k j, get-put k j v d), put-Distinct k v d h.1)
]

pub get-remove :
    (k j : String) (d : Fields) → get j (remove k d) ≡ (if str_eq k j then none else get j d)
unfolding get remove
get-remove k j end = ground arith
get-remove k j (field i w d) = ground (arith, eq_iff k j, eq_iff i k, eq_iff i j, get-remove k j d)
