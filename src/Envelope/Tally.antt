-- ===== src/Envelope/Tally.antt =====
-- What a client can rely on in an envelope: the count of a listing and the tally of a batch.
use brain_mcp.Base.{
  ℕ, suc, ◌+◌, ◌-◌, ◌≡◌, refl, ap, ◌∙◌, inl, inr, Option, none, some, List, [], ◌∷◌, map, length,
  keep, ◌==◌, ==_refl, Bool-cases, arith, Result, ok, err,
}
use brain_mcp.Base.Text.{Text, text, text_eq}
use brain_mcp.Base.Dict.{Dict, lookup, insert, lookup-insert}
use brain_mcp.Errors.{Error}
use brain_mcp.Envelope.{
  MetaValue, number, Summary, BatchItem, merge_meta, meta_or_empty, some_meta, list_result,
  batch_item, batch_error, batch_summary,
}

-- The writes of a batch that returned a revision, and those that raised.
abbrev pub count_ok : List (Text × Result Error Text) → ℕ
count_ok [] = 0
count_ok ((path, ok revision) ∷ outcomes) = suc (count_ok outcomes)
count_ok ((path, err e) ∷ outcomes) = count_ok outcomes

abbrev pub count_err : List (Text × Result Error Text) → ℕ
count_err [] = 0
count_err ((path, ok revision) ∷ outcomes) = count_err outcomes
count_err ((path, err e) ∷ outcomes) = suc (count_err outcomes)

minus : (a b : ℕ) → (a + b) - a ≡ b
minus a b = omega arith

module _ {ℓ} (A : Type ℓ) where
  -- The item of one outcome, a path with its revision or the exception.
  abbrev pub item_of : Text × Result Error Text → BatchItem A
  item_of (path, ok revision) = batch_item path (some revision) none
  item_of (path, err e) = batch_error path e

  length-outcomes :
      (outcomes : List (Text × Result Error Text))
      → length (map item_of outcomes) ≡ count_ok outcomes + count_err outcomes
  length-outcomes [] = omega arith
  length-outcomes ((path, ok revision) ∷ outcomes) = omega (arith, length-outcomes outcomes)
  length-outcomes ((path, err e) ∷ outcomes) = omega (arith, length-outcomes outcomes)

  length-succeeded :
      (outcomes : List (Text × Result Error Text))
      → length (keep (λ (item : BatchItem A). item.success) (map item_of outcomes))
        ≡ count_ok outcomes
  unfolding batch_item batch_error
  length-succeeded [] = refl
  length-succeeded ((path, ok revision) ∷ outcomes) = ap suc (length-succeeded outcomes)
  length-succeeded ((path, err e) ∷ outcomes) = length-succeeded outcomes

  abbrev tally : ℕ → ℕ → ℕ → Summary
  tally total succeeded failed = record { total = total; succeeded = succeeded; failed = failed }

  -- The summary of the items that a batch's outcomes give counts the writes that returned as
  -- succeeded, those that raised as failed, and both as the total.
  pub batch_summary-outcomes :
      (outcomes : List (Text × Result Error Text))
      → batch_summary (map item_of outcomes)
        ≡ tally (count_ok outcomes + count_err outcomes) (count_ok outcomes) (count_err outcomes)
  unfolding batch_summary
  batch_summary-outcomes outcomes =
      rw (length-succeeded outcomes, length-outcomes outcomes)
        (ap (tally (count_ok outcomes + count_err outcomes) (count_ok outcomes))
          (minus (count_ok outcomes) (count_err outcomes)))

  lookup-merge_meta :
      (key : Text) (first second : Dict Text MetaValue)
      → lookup key second ≡ none
      → lookup key (merge_meta first second) ≡ lookup key first
  unfolding lookup merge_meta
  lookup-merge_meta key first [] h = refl
  lookup-merge_meta key first ((k, v) ∷ second) h = elim (Bool-cases (k == key)) [
    | inl e ↦ cc (rw e at h)
    | inr e ↦
        lookup-merge_meta key (insert k v first) second (rw e at h)
        ∙ rw (lookup-insert k key v first, e)
  ]

  -- A listing whose caller gives no count of its own has a `meta` in which the count is the
  -- number of its items.
  pub list_result-count :
      (xs : List A) (meta : Option (Dict Text MetaValue))
      → lookup (text "count") (meta_or_empty meta) ≡ none
      → lookup (text "count") (meta_or_empty (list_result xs meta).meta) ≡ some (number (length xs))
  unfolding list_result
  list_result-count xs meta h =
      lookup-some_meta (merge_meta ((text "count", number (length xs)) ∷ []) (meta_or_empty meta))
      ∙ (lookup-merge_meta (text "count") ((text "count", number (length xs)) ∷ [])
            (meta_or_empty meta) h
          ∙ unfold lookup in rw (==_refl (text "count")))
    where
      lookup-some_meta :
          (d : Dict Text MetaValue)
          → lookup (text "count") (meta_or_empty (some_meta (some d))) ≡ lookup (text "count") d
      lookup-some_meta [] = refl
      lookup-some_meta (e ∷ d) = refl
