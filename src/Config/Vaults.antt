-- ===== src/Config/Vaults.antt =====
-- The vaults that `load_vaults_file` of src/obsidian_mcp/config.py accepts: no directory
-- belongs to two of them.
use mathlib.Core.Option.{some-injective}
use brain_mcp.Base.{
  ◌≡◌, refl, ap, sym, ◌∙◌, ◌⊎◌, inl, inr, Bool, true, false, ◌||◌, Option, none, some, List, [],
  ◌∷◌, any, ◌==◌, ==_iff, arith, Bool-cases, Result, ok, raise_if, ◌>>◌, ok-injective, subst,
  >>=-eq-ok,
}
use brain_mcp.Base.Text.{Text, text, text_eq}
use brain_mcp.Base.Dict.{Dict, lookup}
use brain_mcp.Errors.{Error, config_error}
use brain_mcp.Json.{Json, object, fields}
use brain_mcp.Identity.{Identity}
use brain_mcp.Policy.{Parts, is_relative_to}
use brain_mcp.Config.{
  Loader, VaultEntry, overlap, check_disjoint, load_vaults, load_identities, vaults_section,
  identities_section, load_document, load_vaults_file,
}

-- Two directories above one path: one is above the other.
is_relative_to-linear :
    (p x y : Parts)
    → is_relative_to p x ≡ true
    → is_relative_to p y ≡ true
    → (is_relative_to y x || is_relative_to x y) ≡ true
unfolding is_relative_to
is_relative_to-linear p [] [] h k = refl
is_relative_to-linear p [] (b ∷ y) h k = refl
is_relative_to-linear p (a ∷ x) [] h k = refl
is_relative_to-linear [] (a ∷ x) (b ∷ y) h k = cc
is_relative_to-linear (c ∷ p) (a ∷ x) (b ∷ y) h k =
    ground (arith, ==_iff c a, ==_iff c b, ==_iff a b, ==_iff b a, is_relative_to-linear p x y)

any-lookup :
    (test : VaultEntry → Bool) (b : Text) (w : VaultEntry) (vaults : Dict Text VaultEntry)
    → any (λ (other : Text × VaultEntry). test (other.1)) vaults ≡ false
    → lookup b vaults ≡ some w
    → test w ≡ false
unfolding lookup
any-lookup test b w [] h k = cc
any-lookup test b w ((name, v) ∷ vaults) h k = elim (Bool-cases (name == b)) [
  | inl e ↦ ground (arith, e, ap test {x = v} {y = w})
  | inr e ↦ any-lookup test b w vaults (ground arith) (ground (arith, e))
]

pub raise_if-ok {ℓ} :
    {A : Type ℓ} {a : A} (b : Bool) (m : Result Error A)
    → (raise_if b config_error >> m) ≡ ok a
    → (b ≡ false) × (m ≡ ok a)
raise_if-ok true m h = cc
raise_if-ok false m h = (refl, h)

overlap_comm : (v w : VaultEntry) → overlap v w ≡ overlap w v
unfolding overlap
overlap_comm v w = ground arith

check_disjoint-lookup :
    (a b : Text) (v w : VaultEntry) (vaults : Dict Text VaultEntry)
    → check_disjoint vaults ≡ ok tt
    → lookup a vaults ≡ some v
    → lookup b vaults ≡ some w
    → (a ≡ b) ⊎ (overlap v w ≡ false)
unfolding lookup check_disjoint
check_disjoint-lookup a b v w [] d h k = cc
check_disjoint-lookup a b v w ((name, x) ∷ vaults) d h k =
    let (apart, rest) =
      raise_if-ok (any (λ (other : Text × VaultEntry). overlap x (other.1)) vaults)
        (check_disjoint vaults) d in
    elim (Bool-cases (name == a)) [
      | inl e ↦ elim (Bool-cases (name == b)) [
        | inl f ↦ inl (sym ((==_iff name a).0 e) ∙ (==_iff name b).0 f)
        | inr f ↦ inr (
            ap (λ u. overlap u w) (sym (some-injective x v (rw e at h)))
            ∙ any-lookup (overlap x) b w vaults apart (rw f at k))
      ]
      | inr e ↦ elim (Bool-cases (name == b)) [
        | inl f ↦ inr (
            overlap_comm v w
            ∙ (ap (λ u. overlap u v) (sym (some-injective x w (rw f at k)))
                ∙ any-lookup (overlap x) a v vaults apart (rw e at h)))
        | inr f ↦ check_disjoint-lookup a b v w vaults rest (rw e at h) (rw f at k)
      ]
    ]

-- The steps of a document that was accepted.
pub load_vaults_file-inv :
    (loader : Loader) (global_read_only : Bool) (document : Option Json)
    (vaults : Dict Text VaultEntry) (identities : List Identity)
    → load_document loader global_read_only document ≡ ok (vaults, identities)
    → (check_disjoint vaults ≡ ok tt)
      × ((raw : List Json) × (load_identities loader global_read_only vaults raw ≡ ok identities))
load_vaults_file-inv loader ro none vaults identities h = cc
load_vaults_file-inv loader ro (some (object fs)) vaults identities h =
    let (vaults_raw, p, h₁) =
      >>=-eq-ok (vaults_section loader (lookup (text "vaults") (fields fs))) _ h in
    let (found, q, h₂) = >>=-eq-ok (load_vaults loader vaults_raw []) _ h₁ in
    let (tt', d, h₃) = >>=-eq-ok (check_disjoint found) _ h₂ in
    let (raw, r, h₄) =
      >>=-eq-ok (identities_section loader (lookup (text "identities") (fields fs))) _ h₃ in
    let (all_of, l, h₅) = >>=-eq-ok (load_identities loader ro found raw) _ h₄ in
    let same : (found, all_of) ≡ (vaults, identities) =
      ok-injective (found, all_of) (vaults, identities) h₅ in
    (
      subst (λ (x : Dict Text VaultEntry). check_disjoint x ≡ ok tt)
          (ap (λ (pair : Dict Text VaultEntry × List Identity). pair.0) same) d,
      (
        raw,
        subst
            (λ (pair : Dict Text VaultEntry × List Identity).
              load_identities loader ro (pair.0) raw ≡ ok (pair.1))
            same l,
      ),
    )
load_vaults_file-inv loader ro (some _) vaults identities h = cc

-- If the vaults file is accepted, then a path lies in the directory of at most one vault: two
-- vaults whose directories both contain the path (or are it) have the same name.
pub load_vaults_file-disjoint :
    (loader : Loader) (global_read_only : Bool) (file : Text) (vaults : Dict Text VaultEntry)
    (identities : List Identity)
    → load_vaults_file loader global_read_only file ≡ ok (vaults, identities)
    → (a b : Text) (v w : VaultEntry) (path : Parts) → lookup a vaults ≡ some v
    → lookup b vaults ≡ some w
    → is_relative_to path v.path ≡ true
    → is_relative_to path w.path ≡ true
    → a ≡ b
unfolding load_vaults_file overlap
load_vaults_file-disjoint loader ro file vaults identities h a b v w path p q r s =
    elim (check_disjoint-lookup a b v w vaults
      (load_vaults_file-inv loader ro (loader.load file) vaults identities h).0 p q) [
        | inl e ↦ e
        | inr apart ↦ cc (apart, is_relative_to-linear path v.path w.path r s)
      ]
