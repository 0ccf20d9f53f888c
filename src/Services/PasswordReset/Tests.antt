-- ===== src/Services/PasswordReset/Tests.antt =====
-- Runs of app/services/single_use_tokens.py and app/services/password_reset_service.py.
use fastapi_template.Prelude.{ℕ, ◌+◌, String, ◌≡◌, refl, [], ◌∷◌, select}
use fastapi_template.Models.{password_reset, Db}
use fastapi_template.Services.PasswordReset.{confirm}
use fastapi_template.Services.PasswordReset.Laws.{IsReset, confirm-IsReset}
use fastapi_template.Services.SingleUseTokens.{
  issued_within, Issuer, sent_recently, new_token, issue_fresh, issue, active, redeem,
}
use fastapi_template.Services.SingleUseTokens.Redeeming.{issue-one_live}
use fastapi_template.Services.UserService.Lookups.{IsConsistent}
use fastapi_template.Services.UserService.Tests.{plain, staffed, staffed-IsConsistent}
use fastapi_template.Repositories.SingleUseTokens.{
  create, get_active, latest_for, mark_used, is_unused_for, revoke_all_for,
}
use fastapi_template.Repositories.RefreshTokens.{revoke_all_for_user}
use fastapi_template.Repositories.Users

abbrev reset_links : Issuer
reset_links = record {
  purpose = password_reset;
  lifetime = 100;
  resend_cooldown = 10;
  hash_token = λ t. t;
}

abbrev mailed : Db
mailed = record staffed {
  single_use_tokens = record { rows = new_token reset_links 2 5 "link" 5 1 ∷ []; next_id = 2 };
}

mailed-IsConsistent : IsConsistent mailed
mailed-IsConsistent = record {
  addresses = staffed-IsConsistent.addresses;
  user_ids = staffed-IsConsistent.user_ids;
  user_sequence = staffed-IsConsistent.user_sequence;
  role_names = staffed-IsConsistent.role_names;
  role_ids = staffed-IsConsistent.role_ids;
}

issue-one_live_example :
    (◌≡◌ {A = String × ℕ} ("next", 150) ("next", 50 + 100))
    × (select
          (is_unused_for 2 password_reset)
          (issue reset_links 2 50 "next" 51 mailed).1.single_use_tokens.rows
        ≡ new_token reset_links 2 50 "next" 51 2 ∷ [])
unfolding issue sent_recently latest_for issued_within issue_fresh revoke_all_for create
issue-one_live_example = issue-one_live reset_links 2 50 "next" 51 mailed ("next", 150) refl

confirm-IsReset_example :
    IsReset reset_links plain "link" "secret" 20 mailed
      (confirm reset_links plain "link" "secret" 20 mailed).1
unfolding confirm redeem active get_active mark_used revoke_all_for revoke_all_for_user Users.get
    Users.save Users.roles_of
confirm-IsReset_example =
    confirm-IsReset reset_links plain "link" "secret" 20 mailed ((tt, tt)) mailed-IsConsistent refl
