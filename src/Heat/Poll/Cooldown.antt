-- ===== src/Heat/Poll/Cooldown.antt =====
-- Thirty seconds without calls: what `poll` does after the third failure in a row.
use coolproof.Base.{
  ℕ, ◌+◌, ◌*◌, ◌≤◌, ◌<◌, leb, ltb, String, str_eq, eq_iff, Bool, true, false, ◌≡◌, refl, ap, ◌∙◌,
  some, List, [], ◌∷◌, arith, Bool-cases, Option-cases, inl, inr,
}
use coolproof.Json.{Fields}
use coolproof.Platform.{Platform}
use coolproof.Failure.{Result, ok}
use coolproof.Auth.Claims.{present}
use coolproof.Db.Models.{HeatAnalysis, ProviderCircuit}
use coolproof.Db.Query.{scalar, scalar_sound}
use coolproof.Db.Query.Found.{scalar-cons, scalar-nil}
use coolproof.Db.Session.{Session}
use coolproof.Heat.Service.{second}
use coolproof.Heat.Poll.{
  fortyguard_circuit, blocks, tripped_circuit, save_named, trip_circuit, on_error, poll,
}
use coolproof.Heat.Poll.Circuit.{circuits-on_error}

abbrev is_fortyguard : ProviderCircuit → Bool
is_fortyguard c = str_eq c.provider "fortyguard"

is_fortyguard-eq : (c : ProviderCircuit) → is_fortyguard c ≡ true → c.provider ≡ "fortyguard"
is_fortyguard-eq c h = ground (arith, eq_iff c.provider "fortyguard")

scalar-save_named :
    (c c' : ProviderCircuit) (rows : List ProviderCircuit)
    → c.provider ≡ "fortyguard"
    → c'.provider ≡ "fortyguard"
    → scalar is_fortyguard rows ≡ some c
    → scalar is_fortyguard (save_named c' rows) ≡ some c'
unfolding save_named
scalar-save_named c c' [] named named' h = absurd (cc (h, scalar-nil is_fortyguard))
scalar-save_named c c' (x ∷ rows) named named' h = elim (Bool-cases (is_fortyguard x)) [
  | inl ours ↦
      let written : str_eq x.provider c'.provider ≡ true = ap (str_eq x.provider) named' ∙ ours in
      let found : is_fortyguard c' ≡ true = ap (λ s. str_eq s "fortyguard") named' in
      rw (written, scalar-cons is_fortyguard c', found) refl
  | inr other ↦
      let left : str_eq x.provider c'.provider ≡ false = ap (str_eq x.provider) named' ∙ other in
      let rest : scalar is_fortyguard rows ≡ some c = rw other at (rw scalar-cons at h) in
      rw (left, scalar-cons is_fortyguard x, other) (scalar-save_named c c' rows named named' rest)
]

-- The circuit that a poll with a provider's error leaves.
found_after_trip :
    (now : ℕ) (c : ProviderCircuit) (s : Session)
    → fortyguard_circuit s ≡ some c
    → fortyguard_circuit (trip_circuit now (some c) s) ≡ some (tripped_circuit now c)
unfolding tripped_circuit
found_after_trip now c s h =
    let named : c.provider ≡ "fortyguard" =
      scalar_sound (λ x. x.provider ≡ "fortyguard") is_fortyguard s.tables.circuits is_fortyguard-eq
        h in
    scalar-save_named c (tripped_circuit now c) s.tables.circuits named named h

blocks-tripped :
    (now later : ℕ) (c : ProviderCircuit)
    → 2 ≤ c.consecutive_failures
    → later < now + 30 * second
    → blocks later (some (tripped_circuit now c)) ≡ true
unfolding tripped_circuit
blocks-tripped now later c twice soon =
    let third : leb 3 (c.consecutive_failures + 1) ≡ true = ground arith in
    let early : ltb later (now + 30 * second) ≡ true = ground arith in rw (third, early) refl

module _ (p : Platform) (max_attempts ttl : ℕ) where
  blocked_poll :
      (later : ℕ) (b : HeatAnalysis) (answer : Result Fields) (s : Session)
      → blocks later (fortyguard_circuit s) ≡ true
      → poll p max_attempts ttl later b answer s ≡ (ok b, s)
  unfolding poll
  blocked_poll later b answer s h = elim (Option-cases (present b.provider_activity_id)) [
    | inl none_ ↦ rw (none_, poll) refl
    | inr (id, e) ↦ rw (e, h, poll) refl
  ]

  -- When a poll has met the provider's third failure in a row, then in the next thirty seconds a poll of
  -- whichever analysis gives that analysis back and changes nothing, whatever the provider would
  -- answer: it is not asked.
  pub on_error_blocks :
      (now later : ℕ) (a b : HeatAnalysis) (c : ProviderCircuit) (code message : String)
      (retryable : Bool) (s : Session) (answer : Result Fields)
      → fortyguard_circuit s ≡ some c
      → 2 ≤ c.consecutive_failures
      → later < now + 30 * second
      → poll p max_attempts ttl later b answer
          (on_error p max_attempts ttl now a (some c) code message retryable s).1
        ≡ (ok b, (on_error p max_attempts ttl now a (some c) code message retryable s).1)
  on_error_blocks now later a b c code message retryable s answer h twice soon =
      let after = (on_error p max_attempts ttl now a (some c) code message retryable s).1 in
      let found : fortyguard_circuit after ≡ some (tripped_circuit now c) =
        ap (scalar is_fortyguard)
          (circuits-on_error p max_attempts ttl now a (some c) code message retryable s)
        ∙ found_after_trip now c s h in
      blocked_poll later b answer after (rw found (blocks-tripped now later c twice soon))
