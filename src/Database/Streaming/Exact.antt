-- ===== src/Database/Streaming/Exact.antt =====
-- What the streaming loop returns, by the two caps.
use neo4j_mcp_canary.Prelude.{
  ℕ, ◌+◌, ◌≤◌, ◌<◌, true, false, List, [], ◌∷◌, ◌++◌, Option, none, some, ◌≡◌, ◌⊎◌, inl, inr, refl,
  arith, length,
}
use neo4j_mcp_canary.Database.Streaming.{
  reason_none, reason_rows, reason_bytes, StreamState, counted,
}

module _ {R : Type 0} (measure : R → Option ℕ) where
  -- The measured size of a record; a record that cannot be measured counts nothing.
  abbrev pub size : R → ℕ
  size r = counted measure 0 (measure r)

  abbrev pub total : List R → ℕ
  total [] = 0
  total (r ∷ rs) = size r + total rs

  -- The byte count is that many bytes, and stays 0 without a cap on bytes.
  abbrev pub CountIs : Option ℕ → ℕ → ℕ → Type 0
  CountIs none count n = count ≡ 0
  CountIs (some cap) count n = count ≡ n

  abbrev pub RowsWithin : Option ℕ → List R → Type 0
  RowsWithin none records = Unit
  RowsWithin (some cap) records = length records ≤ cap

  abbrev pub behind_first : List R → List R
  behind_first [] = []
  behind_first (r ∷ rs) = rs

  -- The records fit, or those behind the first one add no bytes that could be measured.
  abbrev pub BytesWithin : Option ℕ → List R → Type 0
  BytesWithin none records = Unit
  BytesWithin (some cap) records = (total records ≤ cap) ⊎ (total (behind_first records) ≡ 0)

  -- Why the loop ended with `rest` not returned.
  pub data Ending (max_rows max_bytes : Option ℕ) : StreamState R → List R → Type 0 where
    whole :
        {st : StreamState R}
        → st.truncated ≡ false
        → st.reason ≡ reason_none
        → CountIs max_bytes st.byte_count (total st.records)
        → Ending max_rows max_bytes st []
    at_row_cap :
        {st : StreamState R} {r : R} {rs : List R}
        → st.truncated ≡ true
        → st.reason ≡ reason_rows
        → max_rows ≡ some (length st.records)
        → CountIs max_bytes st.byte_count (total st.records + size r)
        → Ending max_rows max_bytes st (r ∷ rs)
    at_byte_cap :
        {st : StreamState R} {r : R} {rs : List R} (cap : ℕ)
        → st.truncated ≡ true
        → st.reason ≡ reason_bytes
        → max_bytes ≡ some cap
        → 1 ≤ length st.records
        → cap < total st.records + size r
        → st.byte_count ≡ total st.records
        → Ending max_rows max_bytes st (r ∷ rs)

  pub record Streamed (max_rows max_bytes : Option ℕ) (rows : List R) (st : StreamState R)
      : Type 0 where
    pub rest : List R
    pub split : rows ≡ st.records ++ rest
    pub rows_within : RowsWithin max_rows st.records
    pub bytes_within : BytesWithin max_bytes st.records
    pub ending : Ending max_rows max_bytes st rest

  total-snoc : (xs : List R) (r : R) → total (xs ++ r ∷ []) ≡ total xs + size r
  total-snoc [] r = omega arith
  total-snoc (x ∷ xs) r = omega (arith, total-snoc xs r)

  behind_first-snoc :
      (xs : List R) (r : R)
      → (total (behind_first (xs ++ r ∷ [])) ≡ 0)
        ⊎ (total (behind_first (xs ++ r ∷ [])) ≡ total (behind_first xs) + size r)
  behind_first-snoc [] r = inl refl
  behind_first-snoc (x ∷ xs) r = inr (total-snoc xs r)
