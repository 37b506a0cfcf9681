-- ===== src/Tests/Solver.antt =====
-- A solver that tries all assignments, with arithmetic on whole numbers: what is assumed of OR-Tools
-- and of floats can be met.
use coolproof.Base.{
  ℕ, zero, suc, ◌+◌, ◌-◌, ◌*◌, ◌≤◌, pos, Bool, true, false, ◌&&◌, ◌≡◌, refl, Option, none, some,
  some-injective, sym, ◌∙◌, Bool-cases, Option-cases, List, [], ◌∷◌, keep, length, map, All, leb,
  leb→le, ltb, ◌==◌, ◌⊎◌, inl, inr, arith, if◌then◌else◌,
}
use coolproof.Floats.{Floats, natural}
use coolproof.Portfolio.{Constraint, costs_at_most, at_least, at_most, fixed, Program, Solver}
use coolproof.Portfolio.Feasible.{chosen, Meets, IsSolver}

abbrev pub sum : List ℕ → ℕ
sum [] = 0
sum (x ∷ xs) = x + sum xs

abbrev pub whole : Floats
whole = record {
  add = λ x y. x + y;
  sub = λ x y. x - y;
  mul = λ x y. x * y;
  div = λ x y. x;
  lt = ltb;
  le = leb;
  negate = λ x. 0;
  magnitude = λ x. x;
  square_root = λ x. x;
  is_finite = λ x. true;
  round = λ x n. x;
  total = sum;
  of_int = natural;
  truncate = pos;
}

abbrev pub within : List ℕ → ℕ → Bool
within costs budget = leb (sum costs) budget

same_bool : Bool → Bool → Bool
same_bool true b = b
same_bool false true = false
same_bool false false = true

met : (ℕ → ℕ) → Constraint → Bool
unfolding same_bool keep
met v (costs_at_most terms budget) =
    within (map (λ (t : ℕ × ℕ). t.1) (keep (λ (t : ℕ × ℕ). chosen whole v t.0) terms)) budget
met v (at_least is n) = leb (natural n) (length (keep (chosen whole v) is))
met v (at_most is n) = leb (length (keep (chosen whole v) is)) n
met v (fixed i b) = same_bool (chosen whole v i) b

all_met : (ℕ → ℕ) → List Constraint → Bool
unfolding met
all_met v [] = true
all_met v (c ∷ cs) = met v c && all_met v cs

abbrev assign : ℕ → ℕ → (ℕ → ℕ) → ℕ → ℕ
assign k x v i = if i == k then x else v i

-- The variables below k are still open.
tries : ℕ → (ℕ → ℕ) → List Constraint → Option (ℕ → ℕ)
unfolding all_met
tries zero v cs = if all_met v cs then some v else none
tries (suc k) v cs = elim (tries k (assign k 1 v) cs) [
  | some w ↦ some w
  | none ↦ tries k (assign k 0 v) cs
]

unfoldable pub solve_all : Program → Option (ℕ → ℕ)
unfolding tries
solve_all prog = tries prog.variables (λ i. 0) prog.constraints

abbrev pub exhaustive : Solver
exhaustive = record { solve = solve_all; fits = within }

abbrev IsBinary : (ℕ → ℕ) → Type 0
IsBinary v = (i : ℕ) → v i ≤ 1

assign-IsBinary : (k x : ℕ) (v : ℕ → ℕ) → x ≤ 1 → IsBinary v → IsBinary (assign k x v)
assign-IsBinary k x v hx h i = ground (arith, h i)

both : (a b : Bool) → (a && b) ≡ true → (a ≡ true) × (b ≡ true)
both a b h = ground arith

same_bool-eq : (a b : Bool) → same_bool a b ≡ true → a ≡ b
unfolding same_bool
same_bool-eq true true h = refl
same_bool-eq false false h = refl
same_bool-eq true false h = absurd (cc h)
same_bool-eq false true h = absurd (cc h)

met-Meets : (v : ℕ → ℕ) (c : Constraint) → met v c ≡ true → Meets whole exhaustive v c
unfolding met
met-Meets v (costs_at_most terms budget) h = h
met-Meets v (at_least is n) h = leb→le _ _ h
met-Meets v (at_most is n) h = leb→le _ _ h
met-Meets v (fixed i b) h = same_bool-eq _ _ h

all_met-Meets :
    (v : ℕ → ℕ) (cs : List Constraint) → all_met v cs ≡ true → All (Meets whole exhaustive v) cs
unfolding all_met
all_met-Meets v [] h = tt
all_met-Meets v (c ∷ cs) h =
    let (first, rest) = both _ _ h in (met-Meets v c first, all_met-Meets v cs rest)

tries_sound :
    (k : ℕ) (v w : ℕ → ℕ) (cs : List Constraint)
    → IsBinary v
    → tries k v cs ≡ some w
    → IsBinary w × (all_met w cs ≡ true)
unfolding tries
tries_sound zero v w cs b h = elim (Bool-cases (all_met v cs)) [
  | inl good ↦ let same : w ≡ v = sym (some-injective _ _ (rw good at h)) in rw same (b, good)
  | inr bad ↦ absurd (cc (rw bad at h))
]
tries_sound (suc k) v w cs b h = elim (Option-cases (tries k (assign k 1 v) cs)) [
  | inl failed ↦
      tries_sound k (assign k 0 v) w cs (assign-IsBinary k 0 v (omega arith) b) (rw failed at h)
  | inr (u, found) ↦
      tries_sound k (assign k 1 v) w cs (assign-IsBinary k 1 v (omega arith) b)
        (found ∙ (rw found at h))
]

zero_or_one : (n : ℕ) → n ≤ 1 → (pos n ≡ pos 0) ⊎ (pos n ≡ pos 1)
zero_or_one zero h = inl refl
zero_or_one (suc zero) h = inr refl
zero_or_one (suc (suc n)) h = absurd (omega arith)

pub exhaustive-IsSolver : IsSolver whole exhaustive
unfolding solve_all
exhaustive-IsSolver = record {
  boolean = λ prog v i h lt.
      zero_or_one (v i)
        ((tries_sound prog.variables (λ j. 0) v prog.constraints (λ j. omega arith) h).0 i);
  meets = λ prog v h.
      all_met-Meets v prog.constraints
        (tries_sound prog.variables (λ j. 0) v prog.constraints (λ j. omega arith) h).1;
}
