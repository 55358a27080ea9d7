-- ===== src/Envelope.antt =====
-- The response envelope of src/obsidian_mcp/envelope.py. The type of a payload is a
-- parameter, with the payloads that the constructors make themselves; an item of a batch is
-- its outcome.
pub mod Tally
use brain_mcp.Base.{
  ℕ, zero, suc, ◌+◌, ◌-◌, Bool, true, false, Option, none, some, List, [], ◌∷◌, length, keep,
  if◌then◌else◌,
}
use brain_mcp.Base.Text.{Text, text, text_eq}
use brain_mcp.Base.Dict.{Dict, insert}
use brain_mcp.Errors.{Error}
use brain_mcp.Paths.{is_nil}

-- The values that a `meta` holds.
pub data MetaValue : Type 0 where
  number : ℕ → MetaValue
  string : Text → MetaValue
  flag : Bool → MetaValue

pub record Summary : Type 0 where
  pub total : ℕ
  pub succeeded : ℕ
  pub failed : ℕ

pub record BatchItem {ℓ} (A : Type ℓ) : Type ℓ where
  pub success : Bool
  pub path : Text
  pub revision : Option Text
  pub payload : Option A
  pub error : Option Error

pub data Payload {ℓ} (A : Type ℓ) : Type ℓ where
  empty : Payload A
  payload_of : A → Payload A
  items_of : List A → Payload A
  batch_of : Summary → List (BatchItem A) → Payload A

pub record Envelope {ℓ} (A : Type ℓ) : Type ℓ where
  pub success : Bool
  pub path : Option Text
  pub revision : Option Text
  pub payload : Payload A
  pub meta : Option (Dict Text MetaValue)

-- `{**first, **second}`: the second's entries win.
unfoldable pub merge_meta : Dict Text MetaValue → Dict Text MetaValue → Dict Text MetaValue
merge_meta first [] = first
merge_meta first ((key, value) ∷ second) = merge_meta (insert key value first) second

-- `meta or {}`
abbrev pub meta_or_empty : Option (Dict Text MetaValue) → Dict Text MetaValue
meta_or_empty none = []
meta_or_empty (some meta) = meta

abbrev pub some_meta : Option (Dict Text MetaValue) → Option (Dict Text MetaValue)
some_meta none = none
some_meta (some meta) = if is_nil meta then none else some meta

module _ {ℓ} {A : Type ℓ} where
  abbrev pub payload_or_empty : Option A → Payload A
  payload_or_empty none = empty
  payload_or_empty (some a) = payload_of a

  -- `_envelope`
  abbrev pub envelope :
      Bool → Option Text → Option Text → Payload A → Option (Dict Text MetaValue) → Envelope A
  envelope success path revision payload meta = record {
    success = success;
    path = path;
    revision = revision;
    payload = payload;
    meta = some_meta meta;
  }

  unfoldable pub read_result :
      Option Text → Option A → Option Text → Option (Dict Text MetaValue) → Envelope A
  read_result path data_value revision meta =
      envelope true path revision (payload_or_empty data_value) meta

  unfoldable pub list_result : List A → Option (Dict Text MetaValue) → Envelope A
  unfolding merge_meta
  list_result items meta =
      envelope true none none (items_of items)
        (some (merge_meta ((text "count", number (length items)) ∷ []) (meta_or_empty meta)))

  unfoldable pub write_result :
      Text → Text → Option Text → Option A → Option (Dict Text MetaValue) → Envelope A
  unfolding merge_meta
  write_result path action revision data_value meta =
      envelope true (some path) revision (payload_or_empty data_value)
        (some (merge_meta ((text "action", string action) ∷ []) (meta_or_empty meta)))

  unfoldable pub batch_result : List (BatchItem A) → Summary → Envelope A
  batch_result results summary = envelope true none none (batch_of summary results) none

  unfoldable pub batch_item : Text → Option Text → Option A → BatchItem A
  batch_item path revision data_value = record {
    success = true;
    path = path;
    revision = revision;
    payload = data_value;
    error = none;
  }

  unfoldable pub batch_error : Text → Error → BatchItem A
  batch_error path e = record {
    success = false;
    path = path;
    revision = none;
    payload = none;
    error = some e;
  }

  unfoldable pub batch_summary : List (BatchItem A) → Summary
  batch_summary results =
      let succeeded = length (keep (λ (item : BatchItem A). item.success) results) in
      record { total = length results; succeeded = succeeded; failed = length results - succeeded }
