-- ===== src/Services/SingleUseTokens.antt =====
-- app/services/single_use_tokens.py
pub mod Redeeming
use fastapi_template.Prelude.{
  ℕ, ◌+◌, String, Bool, true, false, Option, none, some, ltb, ◌==◌, if◌then◌else◌,
}
use fastapi_template.Models.{TokenPurpose, SingleUseToken, Db, User}
use fastapi_template.Exec.{Exec, pure, ◌>>=◌, ◌>>◌}
use fastapi_template.Repositories.SingleUseTokens
use fastapi_template.Repositories.Users

-- `issued_within`; a naive stamp is read as UTC.
unfoldable pub issued_within : SingleUseToken → ℕ → ℕ → Bool
issued_within token now cooldown = elim token.created_at [
  | none ↦ false
  | some issued ↦ ltb now (issued.at + cooldown)
]

-- SingleUseTokenIssuer, with its digest.
pub record Issuer : Type 0 where
  pub purpose : TokenPurpose
  pub lifetime : ℕ
  pub resend_cooldown : ℕ
  pub hash_token : String → String

abbrev pub is_recent : Issuer → ℕ → Option SingleUseToken → Bool
is_recent i now none = false
is_recent i now (some latest) = issued_within latest now i.resend_cooldown

-- `_sent_recently`
unfoldable pub sent_recently : Issuer → ℕ → ℕ → Exec Db Bool
sent_recently i user_id now =
    if i.resend_cooldown == 0
    then pure false
    else (do latest ← SingleUseTokens.latest_for user_id i.purpose; pure (is_recent i now latest))

abbrev pub new_token : Issuer → ℕ → ℕ → String → ℕ → ℕ → SingleUseToken
new_token i user_id now token inserted id = record {
  id = id;
  created_at = some (record { at = inserted; aware = true });
  token_hash = i.hash_token token;
  user_id = user_id;
  purpose = i.purpose;
  expires_at = now + i.lifetime;
  used_at = none;
}

-- The rest of `issue`, where nothing was sent recently: `token` is the fresh random text, `inserted`
-- the time at which the row is written.
unfoldable pub issue_fresh : Issuer → ℕ → ℕ → String → ℕ → Exec Db (Option (String × ℕ))
issue_fresh i user_id now token inserted = do
  SingleUseTokens.revoke_all_for user_id i.purpose now
  SingleUseTokens.create (new_token i user_id now token inserted)
  pure (some (token, now + i.lifetime))

unfoldable pub issue : Issuer → ℕ → ℕ → String → ℕ → Exec Db (Option (String × ℕ))
issue i user_id now token inserted = do
  recently ← sent_recently i user_id now
  (if recently then pure none else issue_fresh i user_id now token inserted)

unfoldable pub active : Issuer → String → ℕ → Exec Db (Option SingleUseToken)
active i token now = SingleUseTokens.get_active (i.hash_token token) i.purpose now

abbrev pub with_owner : SingleUseToken → Option User → Option (SingleUseToken × User)
with_owner stored none = none
with_owner stored (some user) = some (stored, user)

abbrev pub owner_of : Option SingleUseToken → Exec Db (Option (SingleUseToken × User))
owner_of none = pure none
owner_of (some stored) = do user ← Users.get stored.user_id; pure (with_owner stored user)

unfoldable pub redeem : Issuer → String → ℕ → Exec Db (Option (SingleUseToken × User))
redeem i token now = do stored ← active i token now; owner_of stored
