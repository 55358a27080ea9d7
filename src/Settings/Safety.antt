-- ===== src/Settings/Safety.antt =====
-- A server that starts does not serve strangers, and keeps its locks and its log out of the
-- vaults.
use brain_mcp.Base.{
  ◌≡◌, ◌≢◌, refl, ap, ◌∙◌, ◌++◌, All, ==_refl, subst, ◌⊎◌, inl, inr, Bool, true, false, not, ◌&&◌,
  ◌||◌, [], ◌∷◌, any, ◌==◌, arith, Bool-cases, ok, raise_if, ok-injective, >>=-eq-ok,
}
use brain_mcp.Base.Text.{Text, text, text_eq}
use brain_mcp.Base.Dict.{Dict}
use brain_mcp.Errors.{config_error}
use brain_mcp.Paths.{is_nil}
use brain_mcp.Policy.{Parts, is_relative_to}
use brain_mcp.Config.{Loader, VaultEntry}
use brain_mcp.Config.Vaults.{raise_if-ok}
use brain_mcp.Settings.{
  Host, Settings, stdio, has_api_keys, oauth_configured, in_vault, check_authentication,
  check_outside, settings_from, env, enabled_by, vault_source, lock_path_of, audit_path_of,
  positive, non_negative, port_of,
}

-- A network transport has an API key, or it has GitHub's OAuth with its id and secret, the
-- logins that are allowed and the address to call back.
abbrev pub IsAuthenticated : Settings → Type 0
IsAuthenticated s =
    (s.transport == stdio) ≡ false
    → (has_api_keys s ≡ true)
      ⊎ ((is_nil s.github_client_id ≡ false)
          × (is_nil s.github_client_secret ≡ false)
          × (is_nil s.allowed_logins ≡ false)
          × (is_nil s.public_base_url ≡ false))

check_authentication_sound : (s : Settings) → check_authentication s ≡ ok tt → IsAuthenticated s
unfolding check_authentication
check_authentication_sound s h network =
    let configured = oauth_configured s in
    let (p, h₁) =
      raise_if-ok (configured && (is_nil s.github_client_id || is_nil s.github_client_secret)) _
        h in
    let (q, h₂) = raise_if-ok (configured && is_nil s.allowed_logins) _ h₁ in
    let (r, h₃) = raise_if-ok (configured && is_nil s.public_base_url) _ h₂ in
    elim (Bool-cases (has_api_keys s)) [
      | inl keys ↦ inl keys
      | inr no_keys ↦ elim (Bool-cases configured) [
        | inl on ↦ inr (
          ground (arith, p, on),
          ground (arith, p, on),
          ground (arith, q, on),
          ground (arith, r, on),
        )
        | inr off ↦ cc (rw (network, no_keys, off) at h₃)
      ]
    ]

-- Outside every vault: neither its directory, nor a path that goes on from it.
abbrev pub IsOutside : Parts → Dict Text VaultEntry → Type 0
IsOutside path vaults =
    All (λ (vault : Text × VaultEntry). (rest : Parts) → path ≢ vault.1.path ++ rest) vaults

is_relative_to-append : (base rest : Parts) → is_relative_to (base ++ rest) base ≡ true
unfolding is_relative_to
is_relative_to-append [] [] = refl
is_relative_to-append [] (part ∷ rest) = refl
is_relative_to-append (part ∷ base) rest = rw (==_refl part) (is_relative_to-append base rest)

in_vault-IsOutside :
    (path : Parts) (vaults : Dict Text VaultEntry)
    → any (in_vault path) vaults ≡ false
    → IsOutside path vaults
in_vault-IsOutside path [] h = tt
in_vault-IsOutside path ((name, vault) ∷ vaults) h = (
  (λ rest e.
      let inside =
        ap (λ x. is_relative_to x vault.path) e ∙ is_relative_to-append vault.path rest in
      let outside : is_relative_to path vault.path ≡ false = ground (arith, h) in
      cc (inside, outside)),
  in_vault-IsOutside path vaults (ground (arith, h)),
)

any-or-false :
    (p q : Text × VaultEntry → Bool) (vaults : Dict Text VaultEntry)
    → any (λ vault. p vault || q vault) vaults ≡ false
    → (any p vaults ≡ false) × (any q vaults ≡ false)
any-or-false p q [] h = (refl, refl)
any-or-false p q (v ∷ vaults) h =
    let (a, b) = any-or-false p q vaults (ground (arith, h)) in
    (ground (arith, h, a), ground (arith, h, b))

check_outside_sound :
    (host : Host) (loader : Loader) (lock_path audit_log_path : Parts)
    (vaults : Dict Text VaultEntry)
    → check_outside host loader lock_path audit_log_path vaults ≡ ok tt
    → IsOutside lock_path vaults
      × IsOutside audit_log_path vaults
      × IsOutside (host.resolve_parent audit_log_path) vaults
unfolding check_outside
check_outside_sound host loader lock_path audit_log_path vaults h =
    let (p, h₁) = raise_if-ok (any (in_vault lock_path) vaults) _ h in
    let (a, b) =
      any-or-false (in_vault audit_log_path) (in_vault (host.resolve_parent audit_log_path)) vaults
        (outside
          (any
            (λ vault.
              in_vault audit_log_path vault || in_vault (host.resolve_parent audit_log_path) vault)
            vaults)
          h₁) in
    (
      in_vault-IsOutside lock_path vaults p,
      in_vault-IsOutside audit_log_path vaults a,
      in_vault-IsOutside (host.resolve_parent audit_log_path) vaults b,
    )
  where
    outside : (b : Bool) → raise_if b config_error ≡ ok (tt {0}) → b ≡ false
    outside true h = cc
    outside false h = refl

-- Settings that are accepted do not serve several vaults over stdio; over a network
-- transport they have an API key, or GitHub's OAuth with id, secret, allowed logins and
-- base address; and the lock directory, the audit log, and the directory that the audit log's
-- parent resolves to, past its symbolic links, are neither a vault's directory nor below one.
pub settings_from-safe :
    (host : Host) (loader : Loader) (s : Settings)
    → settings_from host loader ≡ ok s
    → ((s.multi_vault && s.transport == stdio) ≡ false)
      × IsAuthenticated s
      × IsOutside s.lock_path s.vaults
      × IsOutside s.audit_log_path s.vaults
      × IsOutside (host.resolve_parent s.audit_log_path) s.vaults
unfolding settings_from
settings_from-safe host loader s h =
    let vaults_config = env host loader (text "VAULTS_CONFIG") [] in
    let lock = lock_path_of host loader in
    let (source, p₁, h₁) =
      >>=-eq-ok (vault_source host loader (enabled_by host loader (text "READ_ONLY")) vaults_config)
        _ h in
    let (u₂, p₂, h₂) =
      >>=-eq-ok (check_outside host loader lock (audit_path_of host loader lock) source.vaults) _
        h₁ in
    let (n, p₃, h₃) =
      >>=-eq-ok
        (positive (host.int_of (env host loader (text "MAX_ATTACHMENT_BYTES") (text "26214400")))) _
        h₂ in
    let (u₄, p₄, h₄) =
      >>=-eq-ok
        (raise_if
          (not (host.is_interval (env host loader (text "INDEX_RECONCILE_INTERVAL") (text "900"))))
          config_error)
        _ h₃ in
    let (d, p₅, h₅) =
      >>=-eq-ok
        (non_negative (host.int_of (env host loader (text "WATCHER_DEBOUNCE_MS") (text "100")))) _
        h₄ in
    let (single, h₆) =
      raise_if-ok (not (is_nil vaults_config) && env host loader (text "TRANSPORT") stdio == stdio)
        _ h₅ in
    let (port, p₇, h₇) =
      >>=-eq-ok (port_of (host.int_of (env host loader (text "PORT") (text "8000")))) _ h₆ in
    let (u₈, p₈, h₈) = >>=-eq-ok (check_authentication _) _ h₇ in
    let same = ok-injective _ s h₈ in
    let (lock_out, audit_out, parent_out) =
      check_outside_sound host loader lock (audit_path_of host loader lock) source.vaults p₂ in
    (
      subst (λ (x : Settings). (x.multi_vault && x.transport == stdio) ≡ false) same single,
      subst IsAuthenticated same (check_authentication_sound _ p₈),
      subst (λ (x : Settings). IsOutside x.lock_path x.vaults) same lock_out,
      subst (λ (x : Settings). IsOutside x.audit_log_path x.vaults) same audit_out,
      subst (λ (x : Settings). IsOutside (host.resolve_parent x.audit_log_path) x.vaults) same
          parent_out,
    )
