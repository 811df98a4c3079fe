-- ===== src/Database/Streaming.antt =====
-- database/service.go: the loop of `executeStreaming` over the records of a result, with its cap on
-- rows and its cap on bytes. The driver's result and the JSON measure of a record are parameters:
-- `measure r` is the length of json.Marshal(r.AsMap()), and none where that fails.

pub mod Exact
use neo4j_mcp_canary.Prelude.{
  ℕ, suc, ◌+◌, Bool, true, false, ◌&&◌, List, [], ◌∷◌, ◌++◌, Option, none, some, length, ltb, leb,
  if◌then◌else◌, ℤ, pos, negsuc, ◌⊎◌, inl, inr,
}

-- TruncationReason
pub data TruncationReason : Type 0 where
  reason_none : TruncationReason
  reason_rows : TruncationReason
  reason_bytes : TruncationReason

-- A cap that is not positive is off.
abbrev pub cap_of : ℤ → Option ℕ
cap_of (pos ℕ.zero) = none
cap_of (pos (suc n)) = some (suc n)
cap_of (negsuc n) = none

-- `records`, `truncated`, `truncationReason` and `byteCount`
pub record StreamState {ℓ} (R : Type ℓ) : Type ℓ where
  pub records : List R
  pub truncated : Bool
  pub reason : TruncationReason
  pub byte_count : ℕ

module _ {ℓ} {R : Type ℓ} where
  abbrev pub start_state : StreamState R
  start_state = record { records = []; truncated = false; reason = reason_none; byte_count = 0 }

  abbrev pub truncate : TruncationReason → StreamState R → StreamState R
  truncate why st = record st { truncated = true; reason = why }

module _ {ℓ} {R : Type ℓ} (measure : R → Option ℕ) where
  -- The byte count with a record, if its size is known.
  abbrev pub counted : ℕ → Option ℕ → ℕ
  counted count none = count
  counted count (some size) = count + size

  -- `mErr == nil && byteCount+len(recordBytes) > maxBytes`
  abbrev pub exceeds : ℕ → ℕ → Option ℕ → Bool
  exceeds cap count none = false
  exceeds cap count (some size) = ltb cap (count + size)

  -- Whether the byte cap stops the loop: the first record is always admitted.
  abbrev pub bytes_stop : Option ℕ → StreamState R → R → Bool
  bytes_stop none st r = false
  bytes_stop (some cap) st r = ltb 0 (length st.records) && exceeds cap st.byte_count (measure r)

  -- The byte count after the first part of a round that goes on.
  abbrev pub bytes_after : Option ℕ → StreamState R → R → ℕ
  bytes_after none st r = st.byte_count
  bytes_after (some cap) st r = counted st.byte_count (measure r)

  -- `maxRows > 0 && len(records) >= maxRows`
  abbrev pub rows_stop : Option ℕ → StreamState R → Bool
  rows_stop none st = false
  rows_stop (some cap) st = leb cap (length st.records)

  -- streamLoop
  unfoldable pub stream_loop : Option ℕ → Option ℕ → List R → StreamState R → StreamState R
  stream_loop max_rows max_bytes [] st = st
  stream_loop max_rows max_bytes (r ∷ rs) st =
      let counted_st = record st { byte_count = bytes_after max_bytes st r } in
      let rest =
        stream_loop max_rows max_bytes rs (record counted_st { records = st.records ++ r ∷ [] }) in
      if bytes_stop max_bytes st r
      then truncate reason_bytes st
      else if rows_stop max_rows st
      then truncate reason_rows counted_st
      else rest

-- What the driver holds: the records of the result in order, the error that `res.Err` reports after
-- the loop when it stopped early and when it did not, and the summary that `res.Consume` gives, if
-- it succeeds.
pub record ResultStream {ℓ κ μ} (R : Type ℓ) (E : Type κ) (S : Type μ) : Type (ℓ ⊔ κ ⊔ μ) where
  pub rows : List R
  pub error_after : Bool → Option E
  pub summary : Bool → Option S

-- QueryResult, with the summary of `streamOutcome`
pub record StreamOutcome {ℓ μ} (R : Type ℓ) (S : Type μ) : Type (ℓ ⊔ μ) where
  pub records : List R
  pub truncated : Bool
  pub truncation_reason : TruncationReason
  pub row_count : ℕ
  pub max_rows : ℤ
  pub byte_count : ℕ
  pub max_bytes : ℤ
  pub summary : Option S

module _ {ℓ μ} {R : Type ℓ} {S : Type μ} where
  abbrev pub outcome_of : ℤ → ℤ → Option S → StreamState R → StreamOutcome R S
  outcome_of max_rows max_bytes summary st = record {
    records = st.records;
    truncated = st.truncated;
    truncation_reason = st.reason;
    row_count = length st.records;
    max_rows = max_rows;
    byte_count = st.byte_count;
    max_bytes = max_bytes;
    summary = summary;
  }

module _ {ℓ κ μ} {R : Type ℓ} {E : Type κ} {S : Type μ} where
  -- `work`, once `tx.Run` has returned a result: an error of the stream, or the outcome.
  unfoldable pub stream_work : (R → Option ℕ) → ℤ → ℤ → ResultStream R E S → E ⊎ StreamOutcome R S
  unfolding stream_loop
  stream_work measure max_rows max_bytes res =
      let st = stream_loop measure (cap_of max_rows) (cap_of max_bytes) res.rows start_state in
      elim (res.error_after st.truncated) [
        | some e ↦ inl e
        | none ↦ inr (outcome_of max_rows max_bytes (res.summary st.truncated) st)
      ]
