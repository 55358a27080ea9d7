-- ===== src/Tools/Sweep/Preview.antt =====
-- The preview of `find_replace_in_vault` of src/obsidian_mcp/tools/write.py tells what the
-- same call replaces.
use brain_mcp.Base.{
  ℕ, ◌+◌, ◌≡◌, refl, sym, ap, subst, ◌∙◌, Bool, true, false, Bool-cases, inl, inr, List, [], ◌∷◌,
  map, All, contains, Option, none, some, ◌||◌, ◌==◌, ==_iff, nat_eq, Result, ok, err, >>=-eq-ok,
  ok-injective, arith,
}
use brain_mcp.Base.Text.{Text, text_eq}
use brain_mcp.Errors.{Error, is_write_permission}
use brain_mcp.Models.{FileRevision}
use brain_mcp.Revisions.{Strings}
use brain_mcp.Tools.Store.{Store, IsStore, IsWritten, UnchangedBut}
use brain_mcp.Tools.Replace.{Pattern, Regex, Mode, compiled}
use brain_mcp.Tools.Sweep.{
  Listing, Candidate, Swept, replaced, total_matches, is_swept, writable_after, is_writable,
  sorted_in, matched, read_candidate, collect, lock_all, rewrite, write_all, sweep_preview,
  prepare_sweep, find_replace_in_vault,
}
use brain_mcp.Tools.Write.Safe.{attempt-ok, followed-ok, outcome-ok}

module _ {S : Type 0} (store : Store S) (listing : Listing S) (re : Regex) where
  -- A path in the form in which it resolves.
  abbrev pub IsResolved : Text → Type 0
  IsResolved rel = (target : Text) → store.resolve_write rel ≡ ok target → target ≡ rel

  -- A note that is neither excluded nor in the trash, may be written, and matches, with the
  -- text that was read.
  abbrev pub IsSweepable : Pattern → S → Candidate → Type 0
  IsSweepable pattern s c =
      (is_swept store listing re c.path ≡ true)
      × (is_writable store listing re c.path ≡ ok true)
      × ((c.count == 0) ≡ false)
      × (listing.read_text c.path s ≡ ok c.raw)
      × (pattern.findall c.raw ≡ c.count)
      × IsResolved c.path

  module _ (pattern : Pattern) (s : S) where
    sorted_in-IsSweepable :
        (c : Candidate) (found : List Candidate × List Text) (writable : Bool)
        → (is_writable store listing re c.path ≡ ok writable
            → writable ≡ true
            → IsSweepable pattern s c)
        → is_writable store listing re c.path ≡ ok writable
        → All (IsSweepable pattern s) found.0
        → All (IsSweepable pattern s) (sorted_in store listing re c found writable).0
    sorted_in-IsSweepable c (candidates, skipped) true fits w rest = (fits w refl, rest)
    sorted_in-IsSweepable c (candidates, skipped) false fits w rest = rest

    matched-IsSweepable :
        (c : Candidate) (rest : Result Error (List Candidate × List Text))
        (found : List Candidate × List Text)
        → is_swept store listing re c.path ≡ true
        → listing.read_text c.path s ≡ ok c.raw
        → pattern.findall c.raw ≡ c.count
        → IsResolved c.path
        → ((f : List Candidate × List Text) → rest ≡ ok f → All (IsSweepable pattern s) f.0)
        → matched store listing re c rest ≡ ok found
        → All (IsSweepable pattern s) found.0
    matched-IsSweepable c rest found swept raw counted same_path below h =
        elim (Bool-cases (c.count == 0)) [
          | inl e ↦ below found (rw e at h)
          | inr e ↦
              let (writable, w, h₁) =
                >>=-eq-ok (is_writable store listing re c.path) _ (rw e at h) in
              let (f, r, h₂) = >>=-eq-ok rest _ h₁ in
              let same =
                ok-injective {E = Error} (sorted_in store listing re c f writable) found h₂ in
              subst (λ x. All (IsSweepable pattern s) x.0) same
                (sorted_in-IsSweepable c f writable
                  (λ k t. (swept, k ∙ ap ok t, e, raw, counted, same_path)) w (below f r))
        ]

    read_candidate-IsSweepable :
        (rel : Text) (read : Result Error Text) (rest : Result Error (List Candidate × List Text))
        (found : List Candidate × List Text)
        → is_swept store listing re rel ≡ true
        → listing.read_text rel s ≡ read
        → IsResolved rel
        → ((f : List Candidate × List Text) → rest ≡ ok f → All (IsSweepable pattern s) f.0)
        → read_candidate store listing re pattern rel read rest ≡ ok found
        → All (IsSweepable pattern s) found.0
    read_candidate-IsSweepable rel (ok raw) rest found swept r same_path below h =
        matched-IsSweepable (record { path = rel; raw = raw; count = pattern.findall raw }) rest
          found swept r refl same_path below h
    read_candidate-IsSweepable rel (err e) rest found swept r same_path below h = below found h

    collect-IsSweepable :
        (files : List Text) (found : List Candidate × List Text)
        → All IsResolved files
        → collect store listing re pattern s files ≡ ok found
        → All (IsSweepable pattern s) found.0
    unfolding collect
    collect-IsSweepable [] found a h =
        subst (λ x. All (IsSweepable pattern s) x.0) (ok-injective {E = Error} ([], []) found h) tt
    collect-IsSweepable (rel ∷ files) found a h =
        elim (Bool-cases (is_swept store listing re rel)) [
          | inl e ↦
              read_candidate-IsSweepable rel (listing.read_text rel s)
                (collect store listing re pattern s files) found e refl a.0
                (λ f k. collect-IsSweepable files f a.1 k) (rw e at h)
          | inr e ↦ collect-IsSweepable files found a.1 (rw e at h)
        ]

  -- A loop of writes that returns has written each candidate.
  write_all-all :
      (pattern : Pattern) (replace : Text) (candidates : List Candidate) (s after : S)
      (done : List Text × ℕ)
      → write_all store listing re pattern replace candidates s ≡ (ok done, after)
      → done ≡ (map (λ (c : Candidate). c.path) candidates, total_matches candidates)
  unfolding write_all
  write_all-all pattern replace [] s after done h = sym (outcome-ok ([], 0) done s after h).0
  write_all-all pattern replace (c ∷ candidates) s after done h =
      let (revision, middle, w, h₁) =
        followed-ok (rewrite store listing re pattern replace c s) _ h in
      let (others, last, r, h₂) =
        followed-ok (write_all store listing re pattern replace candidates middle) _ h₁ in
      let all = write_all-all pattern replace candidates middle last others r in
      sym (outcome-ok (c.path ∷ others.0, c.count + others.1) done last after h₂).0
      ∙ ap (λ (x : List Text × ℕ). (c.path ∷ x.0, c.count + x.1)) all

  writable_after-ok :
      (answer : Result Error Text)
      → writable_after store listing re answer ≡ ok true
      → (target : Text) × (answer ≡ ok target)
  writable_after-ok (ok target) h = (target, refl)
  writable_after-ok (err e) h = elim (Bool-cases (is_write_permission e)) [
    | inl k ↦ cc (ok-injective {E = Error} false true (rw k at h))
    | inr k ↦ cc (rw k at h)
  ]

  -- A candidate that the list holds too, by its path.
  All-same :
      (P : Candidate → Type 0) (candidates : List Candidate) (path : Text)
      → All P candidates
      → contains (map (λ (c : Candidate). c.path) candidates) path ≡ true
      → (c : Candidate) × (c.path ≡ path) × P c
  All-same P [] path a h = cc
  All-same P (c ∷ candidates) path a h = elim (Bool-cases (path == c.path)) [
    | inl e ↦ (c, sym ((==_iff path c.path).0 e), a.0)
    | inr e ↦ All-same P candidates path a.1 (rw e at h)
  ]

  module _ (strings : Strings) (content : Text → S → Option Text)
      (current : Text → S → Option FileRevision) (IsReady : S → Type 0)
      (laws : IsStore strings content current store IsReady) (pattern : Pattern)
      (replace : Text) where
    -- The note has its text with the matches replaced.
    abbrev pub IsReplaced : S → Candidate → Type 0
    IsReplaced after c =
        (written : Text × ℕ) × (pattern.subn replace c.raw 0 ≡ ok written)
        × (content c.path after ≡ some written.0)

    rewrite-IsReplaced :
        (origin : S) (c : Candidate) (s after : S) (revision : FileRevision)
        → IsReady s
        → IsSweepable pattern origin c
        → rewrite store listing re pattern replace c s ≡ (ok revision, after)
        → IsReady after × IsReplaced after c × UnchangedBut strings content current c.path s after
    rewrite-IsReplaced origin c s after revision ready (_, w, _, _, _, same_path) h =
        let (written, a, h₁) = attempt-ok (pattern.subn replace c.raw 0) s _ h in
        let (target, t) = writable_after-ok (store.resolve_write c.path) w in
        let resolves = t ∙ ap ok (same_path target t) in
        let law =
          subst (λ x. IsWritten strings content current c.path written.0 none false s x) h₁
            (laws.writes c.path c.path written.0 none false s ready resolves) in
        (
          laws.stays c.path c.path written.0 none false s after revision ready resolves h₁,
          (written, a, law.2),
          law.3,
        )

    write_all-IsReplaced :
        (origin : S) (candidates : List Candidate) (s after : S) (done : List Text × ℕ)
        → IsReady s
        → All (IsSweepable pattern origin) candidates
        → write_all store listing re pattern replace candidates s ≡ (ok done, after)
        → All (IsReplaced after) candidates
          × ((path : Text)
              → contains (map (λ (c : Candidate). c.path) candidates) path ≡ false
              → content path after ≡ content path s)
    unfolding write_all
    write_all-IsReplaced origin [] s after done ready a h =
        let left = (outcome-ok ([], 0) done s after h).1 in
        (tt, λ path m. ap (content path) (sym left))
    write_all-IsReplaced origin (c ∷ candidates) s after done ready a h =
        let (revision, middle, w, h₁) =
          followed-ok (rewrite store listing re pattern replace c s) _ h in
        let (others, last, r, h₂) =
          followed-ok (write_all store listing re pattern replace candidates middle) _ h₁ in
        let left = (outcome-ok (c.path ∷ others.0, c.count + others.1) done last after h₂).1 in
        let (still, (written, b, stored), kept) =
          rewrite-IsReplaced origin c s middle revision ready a.0 w in
        let (all_of, none_of) =
          write_all-IsReplaced origin candidates middle after others still a.1
            (r ∙ ap (λ x. (ok others, x)) left) in
        (
          (
            elim (Bool-cases (contains (map (λ (x : Candidate). x.path) candidates) c.path)) [
              | inl m ↦
                  let (other, same, ((new, n, t), fits)) =
                    All-same (λ x. IsReplaced after x × IsSweepable pattern origin x) candidates
                      c.path (All-both candidates all_of a.1) m in
                  let raw : other.raw ≡ c.raw =
                    ok-injective {E = Error} other.raw c.raw
                      (sym fits.3 ∙ (ap (λ x. listing.read_text x origin) same ∙ a.0.3)) in
                  (
                    new,
                    ap (λ x. pattern.subn replace x 0) (sym raw) ∙ n,
                    ap (λ x. content x after) (sym same) ∙ t,
                  )
              | inr m ↦ (written, b, none_of c.path m ∙ stored)
            ],
            all_of,
          ),
          λ path m.
              let (apart, rest) =
                outside path c.path (contains (map (λ (x : Candidate). x.path) candidates) path)
                  m in
              none_of path rest ∙ kept path apart,
        )
      where
        All-both :
            (cs : List Candidate)
            → All (IsReplaced after) cs
            → All (IsSweepable pattern origin) cs
            → All (λ x. IsReplaced after x × IsSweepable pattern origin x) cs
        All-both [] x y = tt
        All-both (_ ∷ cs) x y = ((x.0, y.0), All-both cs x.1 y.1)

        outside :
            (path own : Text) (others : Bool)
            → (path == own || others) ≡ false
            → ((own == path) ≡ false) × (others ≡ false)
        outside path own others m =
            (ground (arith, ==_iff path own, ==_iff own path, m), ground (arith, m))

    -- What a run that returns has replaced is what a preview shows, which changes nothing: each
    -- of these notes has its text with the matches replaced, and no other note has changed.
    abbrev pub IsPredicted : Text → Mode → Text → S → Swept → S → Type 0
    IsPredicted find mode folder s result after =
        (candidates : List Candidate) × (skipped : List Text) × (find_replace_in_vault store listing
            re find replace mode folder true s
          ≡ (ok (sweep_preview store listing re pattern (candidates, skipped)), s))
        × (result
            ≡ replaced (map (λ (c : Candidate). c.path) candidates) (total_matches candidates)
                skipped)
        × All (IsSweepable pattern s) candidates
        × All (IsReplaced after) candidates
        × ((path : Text)
            → contains (map (λ (c : Candidate). c.path) candidates) path ≡ false
            → content path after ≡ content path s)

  pub find_replace_in_vault-IsPredicted :
      (strings : Strings) (content : Text → S → Option Text)
      (current : Text → S → Option FileRevision) (IsReady : S → Type 0)
      (laws : IsStore strings content current store IsReady) (find replace : Text) (mode : Mode)
      (folder : Text) (s after : S) (result : Swept)
      → IsReady s
      → ((files : List Text) → listing.list_files folder s ≡ ok files → All IsResolved files)
      → find_replace_in_vault store listing re find replace mode folder false s ≡ (ok result, after)
      → (pattern : Pattern) × IsPredicted strings content current IsReady laws pattern replace find
          mode folder s result after
  unfolding find_replace_in_vault prepare_sweep
  find_replace_in_vault-IsPredicted strings content current IsReady laws find replace mode folder s
        after result ready canonical h =
      let ((pattern, (candidates, skipped)), p, h₁) =
        attempt-ok (prepare_sweep store listing re find mode folder s) s _ h in
      let (u, l, h₂) = attempt-ok (lock_all store listing re candidates s) s _ h₁ in
      let (done, last, w, h₃) =
        followed-ok (write_all store listing re pattern replace candidates s) _ h₂ in
      let all = write_all-all pattern replace candidates s last done w in
      let (pattern₀, c, p₁) = >>=-eq-ok (compiled re mode find) _ p in
      let (files, f, p₂) = >>=-eq-ok (listing.list_files folder s) _ p₁ in
      let (found, g, p₃) = >>=-eq-ok (collect store listing re pattern₀ s files) _ p₂ in
      let same = ok-injective {E = Error} (pattern₀, found) (pattern, (candidates, skipped)) p₃ in
      let (shown, left) = outcome-ok (replaced done.0 done.1 skipped) result last after h₃ in
      let fits : All (IsSweepable pattern s) candidates =
        subst (λ (x : Pattern × (List Candidate × List Text)). All (IsSweepable x.0 s) x.1.0) same
          (collect-IsSweepable pattern₀ s files found (canonical files f) g) in
      let (all_of, none_of) =
        write_all-IsReplaced strings content current IsReady laws pattern replace s candidates s
          after done ready fits (w ∙ ap (λ x. (ok done, x)) left) in
      (
        pattern,
        (
          candidates,
          skipped,
          rw (p) refl,
          sym shown ∙ ap (λ (x : List Text × ℕ). replaced x.0 x.1 skipped) all,
          fits,
          all_of,
          none_of,
        ),
      )
