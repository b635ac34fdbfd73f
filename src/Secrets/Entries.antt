-- ===== src/Secrets/Entries.antt =====
-- The entries of the keychain under `set` and `purge`.
use mail_mcp.Base.{◌≡◌, refl, ap, ◌∙◌, ◌≢◌, ◌⊎◌, inl, inr, String, none, some, ok, arith, ==_iff}
use mail_mcp.Base.Ids.{AccountId, Ulid}
use text.Mathlib.TextLemmas.{append_cancel_left}
use mail_mcp.Secrets.{
  KeyKind, refresh_token, imap_password, smtp_password, as_str, Answer, found, no_entry, failed,
  Keyring, service_name, set, get_answer, get, delete_answer, delete, purge,
}

as_str-ne : (kind other : KeyKind) → kind ≢ other → as_str kind ≢ as_str other
unfolding as_str
as_str-ne refresh_token refresh_token ne e = ne refl
as_str-ne refresh_token imap_password ne e = ground (arith, ==_iff "refresh_token" "imap_password")
as_str-ne refresh_token smtp_password ne e = ground (arith, ==_iff "refresh_token" "smtp_password")
as_str-ne imap_password refresh_token ne e = ground (arith, ==_iff "imap_password" "refresh_token")
as_str-ne imap_password imap_password ne e = ne refl
as_str-ne imap_password smtp_password ne e = ground (arith, ==_iff "imap_password" "smtp_password")
as_str-ne smtp_password refresh_token ne e = ground (arith, ==_iff "smtp_password" "refresh_token")
as_str-ne smtp_password imap_password ne e = ground (arith, ==_iff "smtp_password" "imap_password")
as_str-ne smtp_password smtp_password ne e = ne refl

module _ (K : Keyring) (U : Ulid) where
  service_name-ne :
      (id other : AccountId) → other ≢ id → service_name K U other ≢ service_name K U id
  unfolding service_name
  service_name-ne id other ne e =
      let same_text = append_cancel_left "mail-mcp." (U.to_string other) (U.to_string id) e in
      ne (cc (U.from_str-to_string other, U.from_str-to_string id, same_text))

  pub set-get :
      (id : AccountId) (kind : KeyKind) (value : String) (k k' : K.Store)
      → set K U id kind value k ≡ (ok tt, k')
      → get K U id kind k' ≡ ok (some value)
  unfolding set get get_answer
  set-get id kind value k k' h = rw (K.get-set (service_name K U id) (as_str kind) value k k' h)

  pub set-get_other :
      (id other : AccountId) (kind kind' : KeyKind) (value : String) (k : K.Store)
      → other ≢ id
      → get K U other kind' (set K U id kind value k).1 ≡ get K U other kind' k
  unfolding set get
  set-get_other id other kind kind' value k ne =
      ap (get_answer K U) (K.get-set_other _ _ value _ _ k (inl (service_name-ne id other ne)))

  delete_answer-store : (r : Answer (Unit {0}) × K.Store) → (delete_answer K U r).1 ≡ r.1
  unfolding delete_answer
  delete_answer-store (found _, k) = refl
  delete_answer-store (no_entry, k) = refl
  delete_answer-store (failed e, k) = refl

  delete_answer-eq-ok :
      (r : Answer (Unit {0}) × K.Store) (k' : K.Store)
      → delete_answer K U r ≡ (ok tt, k')
      → (r ≡ (found tt, k')) ⊎ (r ≡ (no_entry, k'))
  unfolding delete_answer
  delete_answer-eq-ok (found _, k) k' h = inl (cc)
  delete_answer-eq-ok (no_entry, k) k' h = inr (cc)
  delete_answer-eq-ok (failed e, k) k' h = cc

  delete-get_other :
      (id other : AccountId) (kind kind' : KeyKind) (k : K.Store)
      → (other ≢ id) ⊎ (kind' ≢ kind)
      → get K U other kind' (delete K U id kind k).1 ≡ get K U other kind' k
  unfolding delete get
  delete-get_other id other kind kind' k ne =
      ap (λ k'. get K U other kind' k')
        (delete_answer-store (K.delete_credential (service_name K U id) (as_str kind) k))
      ∙ ap (get_answer K U) (
          K.get-delete_other _ _ _ _ k (elim ne [
            | inl apart ↦ inl (service_name-ne id other apart)
            | inr apart ↦ inr (as_str-ne kind' kind apart)
          ]))

  pub delete-get :
      (id : AccountId) (kind : KeyKind) (k k' : K.Store)
      → delete K U id kind k ≡ (ok tt, k')
      → get K U id kind k' ≡ ok none
  unfolding delete get get_answer
  delete-get id kind k k' h =
      let entry = service_name K U id in
      elim (delete_answer-eq-ok (K.delete_credential entry (as_str kind) k) k' h) [
        | inl gone ↦ rw (K.get-delete entry (as_str kind) k k' gone)
        | inr absent ↦ rw (K.get-delete_none entry (as_str kind) k k' absent)
      ]

  delete-gone :
      (id : AccountId) (kind : KeyKind) (k : K.Store)
      → (delete K U id kind k).0 ≡ ok tt
      → get K U id kind (delete K U id kind k).1 ≡ ok none
  delete-gone id kind k h =
      delete-get id kind k (delete K U id kind k).1 (ap (λ r. (r, (delete K U id kind k).1)) h)

  -- The keychain deletes what the account has without an error, whatever it holds.
  abbrev pub IsDeletable : AccountId → Type 0
  IsDeletable id = (kind : KeyKind) (k : K.Store) → (delete K U id kind k).0 ≡ ok tt

  -- After `purge` no secret of the account is left.
  pub purge-get :
      (id : AccountId) (k : K.Store)
      → IsDeletable id
      → (kind : KeyKind) → get K U id kind (purge K U id k) ≡ ok none
  unfolding purge
  purge-get id k works refresh_token =
      delete-get_other id id smtp_password refresh_token _ (inr (λ e. cc))
      ∙ (delete-get_other id id imap_password refresh_token _ (inr (λ e. cc))
          ∙ delete-gone id refresh_token k (works refresh_token k))
  purge-get id k works imap_password =
      delete-get_other id id smtp_password imap_password _ (inr (λ e. cc))
      ∙ delete-gone id imap_password _ (works imap_password _)
  purge-get id k works smtp_password = delete-gone id smtp_password _ (works smtp_password _)

  -- `purge` leaves the secrets of other accounts alone, whether or not its deletions fail.
  pub purge-get_other :
      (id other : AccountId) (k : K.Store) (kind : KeyKind)
      → other ≢ id
      → get K U other kind (purge K U id k) ≡ get K U other kind k
  unfolding purge
  purge-get_other id other k kind ne =
      delete-get_other id other smtp_password kind _ (inl ne)
      ∙ (delete-get_other id other imap_password kind _ (inl ne)
          ∙ delete-get_other id other refresh_token kind k (inl ne))
