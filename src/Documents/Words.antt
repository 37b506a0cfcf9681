-- ===== src/Documents/Words.antt =====
-- Chunking loses no word of a document, and keeps their order.
use coolproof.Base.{
  ℕ, zero, suc, ◌+◌, ◌≤◌, String, str_eq, eq_iff, Bool, false, ◌≡◌, refl, sym, ap, ◌∙◌, List, [],
  ◌∷◌, ◌++◌, append_assoc, map, take, drop, length, All, All-append, arith, Bool-cases, inl, inr,
  some, Option, any, take, ◌==◌, ltb,
}
use coolproof.Failure.{ok, err≢ok, ok-injective}
use coolproof.Documents.{
  TextTools, Chunk, joined, slices, all_slices, page_chunks, page_label, text_chunks, pages_of,
  from_text, extract_text_chunks, begins_with, pdf_magic, is_empty,
}

unfoldable pub concat {ℓ} : {A : Type ℓ} → List (List A) → List A
concat [] = []
concat (xs ∷ xss) = xs ++ concat xss

take-drop {ℓ} : {A : Type ℓ} (n : ℕ) (xs : List A) → take n xs ++ drop n xs ≡ xs
take-drop zero xs = refl
take-drop (suc n) [] = refl
take-drop (suc n) (x ∷ xs) = ap (λ ys. x ∷ ys) (take-drop n xs)

length-drop {ℓ} : {A : Type ℓ} (n : ℕ) (xs : List A) → length (drop n xs) ≤ length xs
length-drop zero xs = omega arith
length-drop (suc n) [] = omega arith
length-drop (suc n) (x ∷ xs) = omega (arith, length-drop n xs)

length-take {ℓ} : {A : Type ℓ} (n : ℕ) (xs : List A) → length (take n xs) ≤ n
length-take zero xs = omega arith
length-take (suc n) [] = omega arith
length-take (suc n) (x ∷ xs) = omega (arith, length-take n xs)

-- With enough fuel the slices are the whole list.
concat-slices :
    (fuel n : ℕ) (ws : List String) → length ws ≤ fuel → concat (slices fuel (suc n) ws) ≡ ws
unfolding concat slices
concat-slices zero n [] h = refl
concat-slices zero n (w ∷ ws) h = absurd (omega arith)
concat-slices (suc fuel) n [] h = refl
concat-slices (suc fuel) n (w ∷ ws) h =
    let shorter : length (drop n ws) ≤ fuel = omega (arith, length-drop {0} n ws) in
    ap (λ ys. (w ∷ take n ws) ++ ys) (concat-slices fuel n (drop n ws) shorter)
    ∙ ap (λ ys. w ∷ ys) (take-drop n ws)

-- A slice is not empty and has at most so many words.
abbrev IsSlice : ℕ → List String → Type 0
IsSlice n ws = (1 ≤ length ws) × (length ws ≤ n)

slices-IsSlice : (fuel n : ℕ) (ws : List String) → All (IsSlice (suc n)) (slices fuel (suc n) ws)
unfolding slices
slices-IsSlice zero n ws = tt
slices-IsSlice (suc fuel) n [] = tt
slices-IsSlice (suc fuel) n (w ∷ ws) =
    (omega (arith, length-take {0} n ws), slices-IsSlice fuel n (drop n ws))

-- What Python documents of `split`, `join` and `strip`: splitting gives words, an empty text has none,
-- and words that are joined by spaces are split again, also after the text was stripped.
pub record IsSplitting (tools : TextTools) : Type 1 where
  pub IsWord : String → Type 0
  pub words-IsWord : (s : String) → All IsWord (tools.words s)
  pub words-empty : tools.words "" ≡ []
  pub words-joined :
      (ws : List String) → All IsWord ws → tools.words (tools.platform.strip (joined ws)) ≡ ws

All-take {ℓ κ} : {A : Type ℓ} (P : A → Type κ) (n : ℕ) (xs : List A) → All P xs → All P (take n xs)
All-take P zero xs h = tt
All-take P (suc n) [] h = tt
All-take P (suc n) (x ∷ xs) h = (h.0, All-take P n xs h.1)

All-drop {ℓ κ} : {A : Type ℓ} (P : A → Type κ) (n : ℕ) (xs : List A) → All P xs → All P (drop n xs)
All-drop P zero xs h = h
All-drop P (suc n) [] h = tt
All-drop P (suc n) (x ∷ xs) h = All-drop P n xs h.1

module _ (tools : TextTools) (law : IsSplitting tools) where
  slices-IsWord :
      (fuel n : ℕ) (ws : List String) → All law.IsWord ws → All (All law.IsWord) (slices fuel n ws)
  unfolding slices
  slices-IsWord zero n ws h = tt
  slices-IsWord (suc fuel) n [] h = tt
  slices-IsWord (suc fuel) n (w ∷ ws) h = (
    All-take law.IsWord n (w ∷ ws) h,
    slices-IsWord fuel n (drop n (w ∷ ws)) (All-drop law.IsWord n (w ∷ ws) h),
  )

  -- The words of the chunks, one list for each.
  abbrev pub chunk_words : List Chunk → List (List String)
  chunk_words chunks = map (λ (c : Chunk). tools.words c.1) chunks

  words-page_chunks :
      (n : ℕ) (page : Option ℕ) (wss : List (List String))
      → All (All law.IsWord) wss
      → All (IsSlice n) wss
      → chunk_words (page_chunks tools page wss) ≡ wss
  unfolding page_chunks
  words-page_chunks n page [] h k = refl
  words-page_chunks n page (ws ∷ wss) h k =
      let value : String = tools.platform.strip (joined ws) in
      let split : tools.words value ≡ ws = law.words-joined ws h.0 in
      elim (Bool-cases (str_eq value "")) [
        | inl empty ↦
            let blank : value ≡ "" = (eq_iff value "").0 empty in
            let none_left : ws ≡ [] = sym split ∙ ap tools.words blank ∙ law.words-empty in
            let bad : 1 ≤ length {A = String} [] = rw none_left at k.0.0 in absurd (omega arith)
        | inr full ↦ rw (full, split, words-page_chunks n page wss h.1 k.1) refl
      ]

  -- The words of the pages of a text.
  abbrev pub page_words : List String → List String
  page_words pages = concat (map tools.words pages)

  abbrev Chunked : ℕ → List Chunk → List String → Type 0
  Chunked n chunks ws = (concat (chunk_words chunks) ≡ ws) × All (IsSlice n) (chunk_words chunks)

  concat-append : (xs ys : List (List String)) → concat (xs ++ ys) ≡ concat xs ++ concat ys
  unfolding concat
  concat-append [] ys = refl
  concat-append (x ∷ xs) ys =
      rw (concat-append xs ys) (sym (append_assoc x (concat xs) (concat ys)))

  chunk_words-append : (a b : List Chunk) → chunk_words (a ++ b) ≡ chunk_words a ++ chunk_words b
  chunk_words-append [] b = refl
  chunk_words-append (c ∷ a) b = ap (λ r. tools.words c.1 ∷ r) (chunk_words-append a b)

  text_chunks-Chunked :
      (n : ℕ) (several : Bool) (index : ℕ) (pages : List String)
      → Chunked (suc n) (text_chunks tools (suc n) several index pages) (page_words pages)
  unfolding text_chunks concat
  text_chunks-Chunked n several index [] = (refl, tt)
  text_chunks-Chunked n several index (page ∷ pages) =
      let ws : List String = tools.words page in
      let wss : List (List String) = all_slices (suc n) ws in
      let here : chunk_words (page_chunks tools (page_label tools several index) wss) ≡ wss =
        words-page_chunks (suc n) (page_label tools several index) wss
          (slices-IsWord (length ws) (suc n) ws (law.words-IsWord page))
          (slices-IsSlice (length ws) n ws) in
      let whole : concat wss ≡ ws = concat-slices (length ws) n ws (omega arith) in
      let (more, more_slices) = text_chunks-Chunked n several (index + 1) pages in
      rw (chunk_words-append, here)
        (
          concat-append wss _ ∙ rw (whole, more) refl,
          All-append (IsSlice (suc n)) wss _ (slices-IsSlice (length ws) n ws) more_slices,
        )

-- A text that is no PDF and is extracted into chunks of at most n words: the words of the chunks, one
-- after the other, are the words of the pages in their order, none lost and none added, and each chunk
-- has at least one word and at most n.
pub extract_text_chunks-words :
    (tools : TextTools) (law : IsSplitting tools) (n : ℕ) (content : List ℕ) (text : String)
    (chunks : List Chunk)
    → begins_with pdf_magic content ≡ false
    → is_empty content ≡ false
    → tools.decode content ≡ some text
    → extract_text_chunks tools (suc n) content ≡ ok chunks
    → (concat (chunk_words tools law chunks) ≡ page_words tools law (pages_of tools text))
      × All (λ ws. (1 ≤ length ws) × (length ws ≤ suc n)) (chunk_words tools law chunks)
unfolding extract_text_chunks
extract_text_chunks-words tools law n content text chunks plain full decoded h =
    elim (Bool-cases (any (λ b. b == 0) (take 8192 content))) [
      | inl binary ↦ absurd (err≢ok (rw binary at (rw (full, plain) at h)))
      | inr readable ↦
          let made : from_text tools (suc n) (some text) ≡ ok chunks =
            rw decoded at (rw readable at (rw (full, plain) at h)) in
          let same : chunks
              ≡ text_chunks tools (suc n) (ltb 1 (length (pages_of tools text))) 1
                  (pages_of tools text) =
            sym (ok-injective made) in
          rw same (text_chunks-Chunked tools law n _ 1 (pages_of tools text))
    ]
