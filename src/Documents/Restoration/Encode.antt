-- ===== src/Documents/Restoration/Encode.antt =====
-- The batches of `_encode`: every text is encoded in its place, to one row.
use semiconductor_agent_know.Base.{
  ℕ, zero, suc, ◌≤◌, String, ◌≡◌, refl, ap, sym, ◌∙◌, All, take-append-drop, ◌⊎◌, inl, inr, List,
  [], ◌∷◌, ◌++◌, map, arith, length, length-append, length-map, take, drop, length-take,
  length-drop,
}
use semiconductor_agent_know.Base.Result.{ok, err, Result-cases}
use semiconductor_agent_know.Documents.Model.{Chunk}
use semiconductor_agent_know.Documents.Codes.{Failure}
use semiconductor_agent_know.Documents.Service.{Services}
use semiconductor_agent_know.Documents.Restoration.{encode_from, encode_chunks}

append_assoc {ℓ} : {A : Type ℓ} (xs ys zs : List A) → (xs ++ ys) ++ zs ≡ xs ++ (ys ++ zs)
append_assoc [] ys zs = refl
append_assoc (x ∷ xs) ys zs = ap (λ r. x ∷ r) (append_assoc xs ys zs)

module _ {E : Type 0} where
  -- The texts of all batches, and the rows of all batches.
  abbrev pub joined_texts : List (List String × List E) → List String
  joined_texts [] = []
  joined_texts (b ∷ bs) = b.0 ++ joined_texts bs

  abbrev pub joined_rows : List (List String × List E) → List E
  joined_rows [] = []
  joined_rows (b ∷ bs) = b.1 ++ joined_rows bs

module _ {V E : Type 0} (env : Services V E) where
  -- The encoder answers a batch with one row for each text, or fails.
  abbrev pub IsRowwise : Type 0
  IsRowwise =
      (texts : List String) (es : List E) → env.encode texts ≡ ok es → length es ≡ length texts

  -- A batch that the encoder answered with a row for each text.
  abbrev pub Answered : List String × List E → Type 0
  Answered b =
      (env.encode b.0 ≡ ok b.1)
      × (length b.1 ≡ length b.0)
      × (length b.0 ≤ env.embedding_batch_size)

  -- The rows are the encoder's answers to consecutive batches that make up the texts.
  abbrev pub Batched : List String → List E → Type 0
  Batched texts es =
      (batches : List (List String × List E)) × All Answered batches
      × (joined_texts batches ≡ texts)
      × (joined_rows batches ≡ es)

  -- A batch of consecutive texts that the encoder failed on.
  abbrev pub FailedBatch : List String → String → Type 0
  FailedBatch texts w =
      (before : List String) × (batch : List String) × (after : List String) × (texts
        ≡ before ++ (batch ++ after))
      × (length batch ≤ env.embedding_batch_size)
      × (env.encode batch ≡ err w)

  module _ (rowwise : IsRowwise) (batched : 1 ≤ env.embedding_batch_size) where
    encode_from_rows :
        (fuel : ℕ) (texts : List String)
        → length texts ≤ fuel
        → ((es : List E) × (encode_from env fuel texts ≡ ok es)
            × (length es ≡ length texts)
            × Batched texts es)
          ⊎ ((w : String) × (encode_from env fuel texts ≡ err w) × FailedBatch texts w)
    unfolding encode_from
    encode_from_rows zero [] h = inl ([], refl, refl, ([], tt, refl, refl))
    encode_from_rows zero (t ∷ texts) h = absurd (omega arith)
    encode_from_rows (suc fuel) [] h = inl ([], refl, refl, ([], tt, refl, refl))
    encode_from_rows (suc fuel) (t ∷ texts) h =
        let n = env.embedding_batch_size in
        let l = t ∷ texts in
        let whole = take-append-drop n l in
        let small : length (take n l) ≤ n = omega (arith, length-take n l) in
        elim (Result-cases (env.encode (take n l))) [
          | inr (w, e) ↦ inr (w, rw e refl, ([], take n l, drop n l, sym whole, small, e))
          | inl (es, e) ↦ elim (encode_from_rows fuel (drop n l) (omega (arith, length-drop n l))) [
            | inr (w, k, (before, batch, after, split, fits, f)) ↦ inr (
              w,
              rw (e, k) refl,
              (
                take n l ++ before,
                batch,
                after,
                sym whole
                    ∙ ap (λ r. take n l ++ r) split
                    ∙ sym (append_assoc (take n l) before (batch ++ after)),
                fits,
                f,
              ),
            )
            | inl (fs, k, m, (bs, answered, texts_of, rows_of)) ↦ inl (
              es ++ fs,
              rw (e, k) refl,
              omega (
                arith,
                length-append es fs,
                m,
                rowwise (take n l) es e,
                length-take n l,
                length-drop n l,
              ),
              (
                (take n l, es) ∷ bs,
                ((e, rowwise (take n l) es e, small), answered),
                ap (λ r. take n l ++ r) texts_of ∙ whole,
                ap (λ r. es ++ r) rows_of,
              ),
            )
          ]
        ]

    -- With a batch size of at least one and an encoder that answers a row for each text, the texts of
    -- the chunks are encoded in their order: the rows are the encoder's answers to consecutive
    -- batches, none longer than the batch size, that together are the texts of all chunks, and there
    -- is one row for each chunk. The only error is that of the encoder on such a batch of the texts.
    pub encode_chunks_rows :
        (chunks : List Chunk)
        → ((es : List E) × (encode_chunks env chunks ≡ ok es)
            × (length es ≡ length chunks)
            × Batched (map (λ (c : Chunk). c.chunk_text) chunks) es)
          ⊎ ((w : String) × (encode_chunks env chunks ≡ err (Failure.external w))
              × FailedBatch (map (λ (c : Chunk). c.chunk_text) chunks) w)
    unfolding encode_chunks
    encode_chunks_rows chunks =
        let texts : List String = map (λ (c : Chunk). c.chunk_text) chunks in
        let same : length texts ≡ length chunks = length-map chunks (λ c. c.chunk_text) in
        elim (encode_from_rows (length chunks) texts (omega arith)) [
          | inl (es, e, m, b) ↦ inl (es, rw e (ground (arith, m, same)), omega arith, b)
          | inr (w, e, f) ↦ inr (w, rw e refl, f)
        ]
