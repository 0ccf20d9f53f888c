-- ===== src/Services/SingleUseTokens/Redeeming.antt =====
-- What a token of app/services/single_use_tokens.py is good for.
use fastapi_template.Prelude.{
  ℕ, ◌+◌, String, ◌≡◌, refl, sym, inl, inr, Bool, true, false, Option, none, some, List, [], ◌∷◌,
  ◌++◌, arith, str_eq, eq_iff, ◌==◌, if◌then◌else◌, Bool-cases, any, select, update, first,
  select-append, select-update_none,
}
use fastapi_template.Errors.{ok}
use fastapi_template.Models.{
  TokenPurpose, email_verification, password_reset, purpose_eq, SingleUseToken, Db,
}
use fastapi_template.Services.SingleUseTokens.{
  Issuer, is_recent, sent_recently, new_token, issue_fresh, issue, active,
}
use fastapi_template.Repositories.Unique.{Apart, Separates, one_or_none-select}
use fastapi_template.Repositories.SingleUseTokens.{
  is_active_token, create, get_active, is_for, latest, latest_for, used, is_unused_for,
  revoke_all_for,
}

abbrev pub same_hash : SingleUseToken → SingleUseToken → Bool
same_hash s t = str_eq s.token_hash t.token_hash

abbrev pub HasUniqueHashes : Db → Type 0
HasUniqueHashes db = Apart same_hash db.single_use_tokens.rows

abbrev pub has_hash : String → SingleUseToken → Bool
has_hash h t = str_eq t.token_hash h

pub has_hash_separates : (h : String) → Separates same_hash (has_hash h)
has_hash_separates h s t hs ht =
    ground (arith, eq_iff s.token_hash h, eq_iff t.token_hash h, eq_iff s.token_hash t.token_hash)

abbrev pub active_token : Issuer → String → ℕ → Db → Option SingleUseToken
active_token i token now db =
    first (select (is_active_token (i.hash_token token) i.purpose now) db.single_use_tokens.rows)

active_separates :
    (h : String) (p : TokenPurpose) (now : ℕ) → Separates same_hash (is_active_token h p now)
active_separates h p now s t hs ht =
    ground (arith, eq_iff s.token_hash h, eq_iff t.token_hash h, eq_iff s.token_hash t.token_hash)

pub active_lem :
    (i : Issuer) (token : String) (now : ℕ) (db : Db)
    → HasUniqueHashes db
    → active i token now db ≡ (ok (active_token i token now db), db)
unfolding active get_active
active_lem i token now db inv = rw (
    one_or_none-select same_hash (is_active_token (i.hash_token token) i.purpose now)
      db.single_use_tokens.rows (active_separates (i.hash_token token) i.purpose now) inv)

purpose_eq_refl : (p : TokenPurpose) → purpose_eq p p ≡ true
purpose_eq_refl email_verification = refl
purpose_eq_refl password_reset = refl

-- `_sent_recently`, of the table.
abbrev was_recent : Issuer → ℕ → ℕ → Db → Bool
was_recent i user_id now db =
    if i.resend_cooldown == 0
    then false
    else is_recent i now (latest none (select (is_for user_id i.purpose) db.single_use_tokens.rows))

sent_recently_lem :
    (i : Issuer) (user_id now : ℕ) (db : Db)
    → sent_recently i user_id now db ≡ (ok (was_recent i user_id now db), db)
unfolding sent_recently latest_for
sent_recently_lem i user_id now db = elim (Bool-cases (i.resend_cooldown == 0)) [
  | inl never ↦ rw never refl
  | inr some_time ↦ rw some_time refl
]

module _ (i : Issuer) (user_id now : ℕ) (token : String) (inserted : ℕ) (db : Db)
    (sent : String × ℕ) where
  abbrev is_live : SingleUseToken → Bool
  is_live = is_unused_for user_id i.purpose

  abbrev fresh : SingleUseToken
  fresh = new_token i user_id now token inserted db.single_use_tokens.next_id

  abbrev left : List SingleUseToken
  left = update is_live (used now) db.single_use_tokens.rows

  none_left : select is_live left ≡ []
  none_left = select-update_none is_live is_live (used now) db.single_use_tokens.rows (λ r.
      elim (Bool-cases (is_live r)) [
        | inl live ↦ rw live (ground arith)
        | inr dead ↦ rw (dead, dead) refl
      ])

  one_left : select is_live (left ++ fresh ∷ []) ≡ fresh ∷ []
  one_left =
      ground (arith, select-append is_live left (fresh ∷ []), none_left, purpose_eq_refl i.purpose)

  abbrev clash : SingleUseToken → Bool
  clash t = str_eq t.token_hash (i.hash_token token)

  issue_fresh-one_live :
      (issue_fresh i user_id now token inserted db).0 ≡ ok (some sent)
      → (sent ≡ (token, now + i.lifetime))
        × (select is_live (issue_fresh i user_id now token inserted db).1.single_use_tokens.rows
            ≡ fresh ∷ [])
  unfolding issue_fresh revoke_all_for create
  issue_fresh-one_live h = elim (Bool-cases (any clash left)) [
    | inl taken ↦ ground (arith, taken, h)
    | inr free ↦ (ground (arith, free, h), rw free one_left)
  ]

  -- Where a single-use token is issued, the call returns the fresh text with its expiry, and the
  -- row of that text is the only live one of the account and the purpose.
  pub issue-one_live :
      (issue i user_id now token inserted db).0 ≡ ok (some sent)
      → (sent ≡ (token, now + i.lifetime))
        × (select is_live (issue i user_id now token inserted db).1.single_use_tokens.rows
            ≡ fresh ∷ [])
  unfolding issue
  issue-one_live h = elim (Bool-cases (was_recent i user_id now db)) [
    | inl recent ↦ ground (arith, sent_recently_lem i user_id now db, recent, h)
    | inr quiet ↦
        let same : issue i user_id now token inserted db
            ≡ issue_fresh i user_id now token inserted db =
          rw (sent_recently_lem i user_id now db, quiet) refl in
        rw same (issue_fresh-one_live (rw (sym same) h))
  ]
