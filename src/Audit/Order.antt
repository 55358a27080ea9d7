-- ===== src/Audit/Order.antt =====
-- What `read_entries` of src/obsidian_mcp/storage/audit.py returns: the newest of the log's
-- entries that pass the filters, as many as it may.
use brain_mcp.Base.{
  ℕ, zero, suc, ◌+◌, ◌++◌, keep, if◌then◌else◌, ◌≡◌, refl, ap, ◌∙◌, Bool, true, false, Bool-cases,
  inl, inr, Option, none, some, List, [], ◌∷◌, reverse, length, length-append, ◌==◌, ==_iff, nat_eq,
  arith,
}
use mathlib.Core.List.{reverse-cons}
use brain_mcp.Base.Text.{Text, text_eq, strip}
use brain_mcp.Base.Sorting.{text_leb}
use brain_mcp.Audit.{
  AuditEntry, Filter, stamp, selects, insert_newest, newest_first, take, selected, matching,
  read_entries,
}

text_leb-total : (s t : Text) → text_leb s t ≡ false → text_leb t s ≡ true
unfolding text_leb
text_leb-total [] t h = cc
text_leb-total (c ∷ s) [] h = refl
text_leb-total (c ∷ s) (d ∷ t) h = ground (arith, ==_iff c d, ==_iff d c, text_leb-total s t)

abbrev pub IsNewestFirst : List AuditEntry → Type 0
IsNewestFirst [] = Unit
IsNewestFirst (entry ∷ []) = Unit
IsNewestFirst (entry ∷ other ∷ entries) =
    (text_leb (stamp other) (stamp entry) ≡ true) × IsNewestFirst (other ∷ entries)

-- After an entry that is older than it, the head stays.
insert_newest-below :
    (first entry : AuditEntry) (entries : List AuditEntry)
    → text_leb (stamp entry) (stamp first) ≡ true
    → IsNewestFirst (first ∷ entries)
    → IsNewestFirst (first ∷ insert_newest entry entries)
unfolding insert_newest
insert_newest-below first entry [] le h = (le, tt)
insert_newest-below first entry (other ∷ entries) le h =
    elim (Bool-cases (text_leb (stamp other) (stamp entry))) [
      | inl e ↦ rw e (le, (e, h.1))
      | inr e ↦ rw e (
        h.0,
        insert_newest-below other entry entries (text_leb-total (stamp other) (stamp entry) e) h.1,
      )
    ]

insert_newest-IsNewestFirst :
    (entry : AuditEntry) (entries : List AuditEntry)
    → IsNewestFirst entries
    → IsNewestFirst (insert_newest entry entries)
unfolding insert_newest
insert_newest-IsNewestFirst entry [] h = tt
insert_newest-IsNewestFirst entry (other ∷ entries) h =
    elim (Bool-cases (text_leb (stamp other) (stamp entry))) [
      | inl e ↦ rw e (e, h)
      | inr e ↦
          rw e (
            insert_newest-below other entry entries (text_leb-total (stamp other) (stamp entry) e)
              h)
    ]

newest_first-IsNewestFirst : (entries : List AuditEntry) → IsNewestFirst (newest_first entries)
unfolding newest_first
newest_first-IsNewestFirst [] = tt
newest_first-IsNewestFirst (entry ∷ entries) =
    insert_newest-IsNewestFirst entry (newest_first entries) (newest_first-IsNewestFirst entries)

-- The lesser of two numbers.
abbrev pub lesser : ℕ → ℕ → ℕ
lesser zero n = zero
lesser (suc m) zero = zero
lesser (suc m) (suc n) = suc (lesser m n)

length-take :
    (n : ℕ) (entries : List AuditEntry) → length (take n entries) ≡ lesser n (length entries)
unfolding take
length-take zero entries = refl
length-take (suc n) [] = refl
length-take (suc n) (entry ∷ entries) = ap suc (length-take n entries)

length-insert_newest :
    (entry : AuditEntry) (entries : List AuditEntry)
    → length (insert_newest entry entries) ≡ suc (length entries)
unfolding insert_newest
length-insert_newest entry [] = refl
length-insert_newest entry (other ∷ entries) = ground (arith, length-insert_newest entry entries)

length-newest_first : (entries : List AuditEntry) → length (newest_first entries) ≡ length entries
unfolding newest_first
length-newest_first [] = refl
length-newest_first (entry ∷ entries) =
    length-insert_newest entry (newest_first entries) ∙ ap suc (length-newest_first entries)

length-reverse : (entries : List AuditEntry) → length (reverse entries) ≡ length entries
length-reverse [] = refl
length-reverse (entry ∷ entries) =
    rw reverse-cons
      (omega (arith, length-append (reverse entries) (entry ∷ []), length-reverse entries))

-- How many entries pass a test.
abbrev pub count : (AuditEntry → Bool) → List AuditEntry → ℕ
count p entries = length (keep p entries)

-- The same entries, each as many times, in some order.
abbrev pub IsRearranged : List AuditEntry → List AuditEntry → Type 0
IsRearranged entries others = (p : AuditEntry → Bool) → count p entries ≡ count p others

count-cons :
    (p : AuditEntry → Bool) (entry : AuditEntry) (entries : List AuditEntry)
    → count p (entry ∷ entries) ≡ count p (entry ∷ []) + count p entries
count-cons p entry entries = elim (Bool-cases (p entry)) [
  | inl e ↦ rw e (omega arith)
  | inr e ↦ rw e (omega arith)
]

count-append :
    (p : AuditEntry → Bool) (entries others : List AuditEntry)
    → count p (entries ++ others) ≡ count p entries + count p others
count-append p [] others = omega arith
count-append p (entry ∷ entries) others = omega (
  arith,
  count-cons p entry (entries ++ others),
  count-cons p entry entries,
  count-append p entries others,
)

count-reverse :
    (p : AuditEntry → Bool) (entries : List AuditEntry)
    → count p (reverse entries) ≡ count p entries
count-reverse p [] = refl
count-reverse p (entry ∷ entries) =
    ap (count p) (reverse-cons entry entries)
    ∙ omega (
      arith,
      count-append p (reverse entries) (entry ∷ []),
      count-cons p entry entries,
      count-reverse p entries,
    )

count-insert_newest :
    (p : AuditEntry → Bool) (entry : AuditEntry) (entries : List AuditEntry)
    → count p (insert_newest entry entries) ≡ count p (entry ∷ entries)
unfolding insert_newest
count-insert_newest p entry [] = refl
count-insert_newest p entry (other ∷ entries) =
    elim (Bool-cases (text_leb (stamp other) (stamp entry))) [
      | inl e ↦ rw e refl
      | inr e ↦ rw e (
          omega (
            arith,
            count-cons p other (insert_newest entry entries),
            count-insert_newest p entry entries,
            count-cons p entry entries,
            count-cons p entry (other ∷ entries),
            count-cons p other entries,
          ))
    ]

newest_first-IsRearranged :
    (entries : List AuditEntry) → IsRearranged (newest_first entries) entries
unfolding newest_first
newest_first-IsRearranged [] p = refl
newest_first-IsRearranged (entry ∷ entries) p = omega (
  arith,
  count-insert_newest p entry (newest_first entries),
  count-cons p entry (newest_first entries),
  count-cons p entry entries,
  newest_first-IsRearranged entries p,
)

-- What `take` leaves.
left_out : ℕ → List AuditEntry → List AuditEntry
left_out zero entries = entries
left_out (suc n) [] = []
left_out (suc n) (entry ∷ entries) = left_out n entries

take-left_out : (n : ℕ) (entries : List AuditEntry) → take n entries ++ left_out n entries ≡ entries
unfolding take left_out
take-left_out zero entries = refl
take-left_out (suc n) [] = refl
take-left_out (suc n) (entry ∷ entries) = ap (λ x. entry ∷ x) (take-left_out n entries)

module _ (is_space : ℕ → Bool) (parse : Text → Option AuditEntry) (filter : Filter) where
  abbrev pub logged : Option AuditEntry → List AuditEntry → List AuditEntry
  logged none rest = rest
  logged (some entry) rest = entry ∷ rest

  abbrev pub parsed : Text → Option AuditEntry
  parsed line = if strip is_space line == [] then none else parse (strip is_space line)

  -- The entries of the log, in its order: each line that is not blank and that parses.
  abbrev pub entries_of : List Text → List AuditEntry
  entries_of [] = []
  entries_of (line ∷ lines) = logged (parsed line) (entries_of lines)

  selected-keep :
      (found : Option AuditEntry) (rest : List AuditEntry)
      → selected is_space parse filter found (keep (selects filter) rest)
        ≡ keep (selects filter) (logged found rest)
  selected-keep none rest = refl
  selected-keep (some entry) rest = elim (Bool-cases (selects filter entry)) [
    | inl e ↦ rw e refl
    | inr e ↦ rw e refl
  ]

  matching-keep :
      (lines : List Text)
      → matching is_space parse filter lines ≡ keep (selects filter) (entries_of lines)
  unfolding matching
  matching-keep [] = refl
  matching-keep (line ∷ lines) = elim (Bool-cases (strip is_space line == [])) [
    | inl e ↦ rw e (matching-keep lines)
    | inr e ↦ rw e (
        ap (selected is_space parse filter (parse (strip is_space line))) (matching-keep lines)
        ∙ selected-keep (parse (strip is_space line)) (entries_of lines))
  ]

  -- The log's entries that pass all filters, each as often as the log has it, the newest first:
  -- what `read_entries` returns is their beginning, as long as the limit allows.
  pub record IsNewest (lines : List Text) (limit : ℕ) (found : List AuditEntry) : Type 0 where
    pub ordered : List AuditEntry
    pub left : List AuditEntry
    pub complete : IsRearranged ordered (keep (selects filter) (entries_of lines))
    pub newest : IsNewestFirst ordered
    pub begins : found ++ left ≡ ordered
    pub bounded : length found ≡ lesser limit (length (keep (selects filter) (entries_of lines)))

  -- `read_entries` returns the newest of the log's entries that pass all filters: of all of
  -- these, each as often as the log has it and the newest first, as many from the beginning
  -- as the limit allows, no less and no more.
  pub read_entries-IsNewest :
      (lines : List Text) (limit : ℕ)
      → IsNewest lines limit (read_entries is_space parse filter lines limit)
  unfolding read_entries
  read_entries-IsNewest lines limit =
      let found = matching is_space parse filter lines in
      let same = matching-keep lines in
      record {
        ordered = newest_first (reverse found);
        left = left_out limit (newest_first (reverse found));
        complete = λ p.
            newest_first-IsRearranged (reverse found) p
            ∙ (count-reverse p found ∙ ap (count p) same);
        newest = newest_first-IsNewestFirst (reverse found);
        begins = take-left_out limit (newest_first (reverse found));
        bounded =
            length-take limit (newest_first (reverse found))
            ∙ ap (lesser limit)
                (length-newest_first (reverse found) ∙ (length-reverse found ∙ ap length same));
      }
