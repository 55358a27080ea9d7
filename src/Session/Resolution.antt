-- ===== src/Session/Resolution.antt =====
-- A request of the multi-vault server reaches a tool only inside a vault that its identity
-- may use.
use brain_mcp.Base.{
  ◌≡◌, refl, ap, subst, ◌∙◌, ◌⊎◌, inl, inr, Bool, true, false, not, ◌&&◌, ◌||◌, Option, none, some,
  List, [], ◌∷◌, All, contains, ◌==◌, arith, Bool-cases, Option-cases, Result, ok, err,
  ok-injective,
}
use mathlib.Core.Option.{some-injective}
use brain_mcp.Base.Text.{Text, text, text_eq}
use brain_mcp.Base.Dict.{Dict, lookup}
use brain_mcp.Errors.{Error}
use brain_mcp.Paths.{is_nil}
use brain_mcp.Identity.{IdentityType, api_key, github_login, Identity, is_none}
use brain_mcp.Config.{Loader, VaultEntry, load_vaults_file}
use brain_mcp.Config.Identities.{IsValid, load_vaults_file-IsValid}
use brain_mcp.Session.{
  AccessToken, Context, is_identity, find_identity, find_candidate, identity_for_token, default_of,
  select_vault, call_with, dispatch, on_call_tool,
}

-- The token's login or key, which is not empty, is the identity's.
abbrev pub authenticates : (Text → Text) → AccessToken → Identity → Bool
authenticates lower token identity =
    (not (is_nil (lower token.login)) && is_identity github_login (lower token.login) identity)
    || (not (is_nil token.client_id) && is_identity api_key token.client_id identity)

module _ {κ} (P : Identity → Type κ) where
  find_identity-All :
      (kind : IdentityType) (value : Text) (identities : List Identity) (identity : Identity)
      → All P identities
      → find_identity kind value identities ≡ some identity
      → P identity × (is_identity kind value identity ≡ true)
  unfolding find_identity
  find_identity-All kind value [] identity a h = cc
  find_identity-All kind value (i ∷ identities) identity a h =
      elim (Bool-cases (is_identity kind value i)) [
        | inl e ↦
            let same : i ≡ identity = some-injective i identity (rw e at h) in
            (subst P same a.0, subst (λ x. is_identity kind value x ≡ true) same e)
        | inr e ↦ find_identity-All kind value identities identity a.1 (rw e at h)
      ]

  find_candidate-All :
      (kind : IdentityType) (value : Text) (candidates : List (IdentityType × Text))
      (identities : List Identity) (identity : Identity)
      → All P identities
      → find_candidate ((kind, value) ∷ candidates) identities ≡ ok identity
      → (P identity × ((not (is_nil value) && is_identity kind value identity) ≡ true))
        ⊎ (find_candidate candidates identities ≡ ok identity)
  unfolding find_candidate
  find_candidate-All kind value candidates identities identity a h =
      elim (Bool-cases (is_nil value)) [
        | inl e ↦ inr (rw e at h)
        | inr e ↦ elim (Option-cases (find_identity kind value identities)) [
          | inl none_found ↦ inr (rw (e, none_found) at h)
          | inr (i, found) ↦
              let same : i ≡ identity = ok-injective i identity (rw (e, found) at h) in
              let (p, q) =
                find_identity-All kind value identities identity a (found ∙ ap some same) in
              inl (p, rw (e, q))
        ]
      ]

  by_key-All :
      (lower : Text → Text) (identities : List Identity) (token : AccessToken) (identity : Identity)
      → All P identities
      → find_candidate ((api_key, token.client_id) ∷ []) identities ≡ ok identity
      → P identity × (authenticates lower token identity ≡ true)
  by_key-All lower identities token identity a h =
      elim (find_candidate-All api_key token.client_id [] identities identity a h) [
        | inl (p, q) ↦ (p, ground (arith, q))
        | inr rest ↦ unfold find_candidate in cc (rest)
      ]

  identity_for_token-All :
      (lower : Text → Text) (identities : List Identity) (token : AccessToken) (identity : Identity)
      → All P identities
      → identity_for_token lower identities (some token) ≡ ok identity
      → P identity × (authenticates lower token identity ≡ true)
  unfolding identity_for_token
  identity_for_token-All lower identities token identity a h =
      elim (Bool-cases (is_nil (lower token.login))) [
        | inl e ↦ by_key-All lower identities token identity a (rw e at h)
        | inr e ↦
            elim (find_candidate-All github_login (lower token.login)
              ((api_key, token.client_id) ∷ []) identities identity a (rw e at h)) [
                | inl (p, q) ↦ (p, ground (arith, q))
                | inr rest ↦ by_key-All lower identities token identity a rest
              ]
      ]

select_vault-own :
    (loader : Loader) (ro : Bool) (vaults : Dict Text VaultEntry) (identity : Identity)
    (requested : Option Text) (name : Text)
    → IsValid loader ro vaults identity
    → select_vault identity requested ≡ ok name
    → contains identity.vaults name ≡ true
unfolding select_vault
select_vault-own loader ro vaults identity none name v h =
    v.own_default name (default_some identity.default h)
  where
    default_some : (o : Option Text) → default_of o ≡ ok name → o ≡ some name
    default_some none h = cc
    default_some (some a) h = ap some (ok-injective a name h)
select_vault-own loader ro vaults identity (some requested) name v h =
    elim (Bool-cases (contains identity.vaults requested)) [
      | inl e ↦
          subst (λ n. contains identity.vaults n ≡ true) (ok-injective requested name (rw e at h)) e
      | inr e ↦ cc (rw e at h)
    ]

-- One of the identities of the configuration.
abbrev pub IsConfigured : List Identity → Identity → Type 0
IsConfigured [] identity = ⊥
IsConfigured (i ∷ identities) identity = (i ≡ identity) ⊎ IsConfigured identities identity

All-IsConfigured :
    (P : Identity → Type 0) (identities : List Identity)
    → All P identities
    → All (λ i. IsConfigured identities i × P i) identities
All-IsConfigured P identities a = within identities (λ i m. m) a
  where
    within :
        (some_of : List Identity)
        → ((i : Identity) → IsConfigured some_of i → IsConfigured identities i)
        → All P some_of
        → All (λ i. IsConfigured identities i × P i) some_of
    within [] inside b = tt
    within (i ∷ rest) inside b =
        ((inside i (inl refl), b.0), within rest (λ j m. inside j (inr m)) b.1)

-- What a tool call may come to: it is refused and the rest of the server is as it was, the
-- tool has not run; or the tool runs for an identity of the configuration that the token
-- proves, in one of its own vaults, which is configured. Either way the request's context is
-- afterwards what it was.
abbrev pub IsGuarded {ℓ} :
    {A W : Type ℓ}
    → (Text → Text)
    → Dict Text VaultEntry
    → List Identity
    → AccessToken
    → (Context → W → Result Error A × Context × W)
    → Context
    → W
    → Result Error A × Context × W
    → Type ℓ
IsGuarded lower vaults identities token call_next context world outcome =
    ((e : Error) × (outcome ≡ (err e, context, world)))
    ⊎ ((identity : Identity) × (name : Text) × IsConfigured identities identity
        × (authenticates lower token identity ≡ true)
        × (contains identity.vaults name ≡ true)
        × (is_none (lookup name vaults) ≡ false)
        × (outcome ≡ (
          (call_next (record { vault = some name; identity = some identity }) world).0,
          context,
          (call_next (record { vault = some name; identity = some identity }) world).2,
        )))

module _ {ℓ} {A W : Type ℓ} (loader : Loader) (ro : Bool) (vaults : Dict Text VaultEntry)
    (identities : List Identity) (valid : All (IsValid loader ro vaults) identities)
    (lower : Text → Text) (call_next : Context → W → Result Error A × Context × W)
    (token : AccessToken) (context : Context) (world : W) where
  call_with-IsGuarded :
      (identity : Identity) (selected : Result Error Text)
      → IsConfigured identities identity
      → IsValid loader ro vaults identity
      → authenticates lower token identity ≡ true
      → ((name : Text) → selected ≡ ok name → contains identity.vaults name ≡ true)
      → IsGuarded lower vaults identities token call_next context world
          (call_with true lower identities call_next (some token) identity selected context world)
  call_with-IsGuarded identity (err e) m v a own = inl (e, refl)
  call_with-IsGuarded identity (ok name) m v a own =
      inr (identity, name, m, a, own name refl, v.known name (own name refl), refl)

  dispatch-IsGuarded :
      (requested : Option Text) (found : Result Error Identity)
      → ((identity : Identity)
          → found ≡ ok identity
          → (IsConfigured identities identity × IsValid loader ro vaults identity)
            × (authenticates lower token identity ≡ true))
      → IsGuarded lower vaults identities token call_next context world (
          dispatch true lower identities call_next (some token) false requested found context world)
  dispatch-IsGuarded requested (err e) f = inl (e, refl)
  dispatch-IsGuarded requested (ok identity) f =
      let ((m, v), a) = f identity refl in
      call_with-IsGuarded identity (select_vault identity requested) m v a
        (λ name. select_vault-own loader ro vaults identity requested name v)

-- In multi-vault mode with an accepted vaults file, a call of a tool other than
-- `list_vaults_tool` is refused, and neither the context nor the rest of the server has then
-- changed; or it runs with the context set to one of the configured identities, which the
-- token authenticates, and to a configured vault among that identity's own vaults. In both
-- cases the context variables are afterwards what they were before the call.
pub on_call_tool-IsGuarded {ℓ} :
    {A W : Type ℓ} (loader : Loader) (ro : Bool) (file : Text) (vaults : Dict Text VaultEntry)
    (identities : List Identity)
    → load_vaults_file loader ro file ≡ ok (vaults, identities)
    → (lower : Text → Text) (call_next : Context → W → Result Error A × Context × W)
      (token : AccessToken) (context : Context) (world : W) (tool : Text) (requested : Option Text)
    → (tool == text "list_vaults_tool") ≡ false
    → IsGuarded lower vaults identities token call_next context world
        (on_call_tool true lower identities call_next (some token) tool requested context world)
unfolding on_call_tool
on_call_tool-IsGuarded loader ro file vaults identities h lower call_next token context world tool
      requested t =
    let valid = load_vaults_file-IsValid loader ro file vaults identities h in
    rw t (
      dispatch-IsGuarded loader ro vaults identities valid lower call_next token context world
        requested (identity_for_token lower identities (some token))
        (λ identity e.
          identity_for_token-All (λ i. IsConfigured identities i × IsValid loader ro vaults i) lower
            identities token identity (All-IsConfigured (IsValid loader ro vaults) identities valid)
            e))
