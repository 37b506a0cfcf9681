-- ===== src/Documents/Embedding.antt =====
-- app/retrieval/documents.py: the deterministic local embedding, on Python's floats.
use Prim.Native.Nat.{◌%◌}
use coolproof.Base.{ℕ, zero, suc, ltb, String, Bool, List, [], ◌∷◌, map, if◌then◌else◌}
use coolproof.Floats.{Floats}
use coolproof.Failure.{Result, ok, err, value_error}
use coolproof.Verification.{is_truthy_float}

-- `tokens` is `re.findall(r"[a-z0-9]+", text.casefold())`, and `digest` the first eight bytes of a
-- token's BLAKE2b as a number, with the lowest bit of the ninth. `root` is `x ** 0.5`.
pub record Hashing : Type 0 where
  pub tokens : String → List String
  pub digest : String → ℕ × Bool
  pub root : ℕ → ℕ

-- 1.0 and -1.0 as floats.
abbrev pub one : ℕ
one = 4_607_182_418_800_017_408

abbrev pub minus_one : ℕ
minus_one = 13_830_554_455_654_793_216

abbrev pub sign_of : Bool → ℕ
sign_of b = if b then one else minus_one

unfoldable pub zeros : ℕ → List ℕ
zeros zero = []
zeros (suc n) = 0 ∷ zeros n

module _ (f : Floats) (h : Hashing) where
  -- `vector[index] += sign`
  unfoldable pub bump : ℕ → ℕ → List ℕ → List ℕ
  bump index sign [] = []
  bump zero sign (x ∷ xs) = f.add x sign ∷ xs
  bump (suc index) sign (x ∷ xs) = x ∷ bump index sign xs

  abbrev pub add_token : ℕ → String → List ℕ → List ℕ
  add_token dimensions token vector =
      let (number, odd) = h.digest token in bump (number % dimensions) (sign_of odd) vector

  unfoldable pub add_tokens : ℕ → List String → List ℕ → List ℕ
  unfolding bump
  add_tokens dimensions [] vector = vector
  add_tokens dimensions (t ∷ ts) vector = add_tokens dimensions ts (add_token dimensions t vector)

  abbrev pub norm_of : List ℕ → ℕ
  norm_of vector = h.root (f.total (map (λ x. f.mul x x) vector))

  abbrev pub normalized : List ℕ → List ℕ
  normalized vector =
      if is_truthy_float (norm_of vector)
      then map (λ x. f.div x (norm_of vector)) vector
      else vector

  unfoldable pub embed_text : ℕ → String → Result (List ℕ)
  unfolding add_tokens zeros
  embed_text dimensions text =
      if ltb dimensions 8
      then err (value_error "embedding dimensions must be at least eight")
      else ok (normalized (add_tokens dimensions (h.tokens text) (zeros dimensions)))
