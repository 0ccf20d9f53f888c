-- ===== src/Services/AuthService/Tests.antt =====
-- Runs of app/services/auth_service.py with stand-ins for the libraries.
use fastapi_template.Prelude.{
  ℕ, zero, suc, ◌*◌, ◌≤◌, ◌<◌, String, ◌≡◌, refl, ap, ◌≢◌, true, false, Option, none, some, arith,
  str_eq, ltb, if◌then◌else◌,
}
use fastapi_template.Errors.{ok, err}
use fastapi_template.Models.{impersonate_start, Db, UserRow}
use fastapi_template.Security.{
  Payload, second, Crypto, invalid_credentials, Mint, create_access_token, create_refresh_token,
  create_impersonation_token, decode_access_token,
}
use fastapi_template.Audit.{audit_event, create_entry}
use fastapi_template.Authorization.{is_superuser, scope_for, outranks, may_impersonate}
use fastapi_template.Services.AuthService.{
  TokenPair, ImpersonationGrant, Deployment, Issuing, pair_for, issue, authenticate, refresh,
  record_event, grant_for, impersonate, logout, revoke_sessions, change_password,
}
use fastapi_template.Security.Claims.{IsCurrent}
use fastapi_template.Services.UserService.Tests.{plain, ada, bob, staffed, staffed-IsConsistent}
use fastapi_template.Services.AuthService.Admission.{account, authenticate-refresh}
use fastapi_template.Services.AuthService.Refreshing.{logout-refresh}
use fastapi_template.Services.AuthService.Passwords.{IsChanged, change_password-IsChanged}
use fastapi_template.Services.AuthService.Impersonating.{IsRecorded, impersonate-IsRecorded}
use fastapi_template.Repositories.Users
use fastapi_template.Repositories.RefreshTokens

abbrev pub unary : ℕ → String
unary zero = "a"
unary (suc n) = String.◌∷◌ "a" (unary n)

abbrev pub size : String → ℕ
size String.[] = 0
size (String.◌∷◌ c s) = suc (size s)

abbrev pub of_unary : String → Option ℕ
of_unary String.[] = none
of_unary (String.◌∷◌ c s) = some (size s)

size-unary : (n : ℕ) → size (unary n) ≡ suc n
size-unary zero = refl
size-unary (suc n) = ap suc (size-unary n)

pub of_unary-unary : (n : ℕ) → of_unary (unary n) ≡ some n
of_unary-unary zero = refl
of_unary-unary (suc n) = ap some (size-unary n)

pub opened :
    (p : Payload) (now iat : ℕ)
    → p.issued_at ≡ some iat
    → iat * second ≤ now
    → now < p.expires_at * second
    → (if ltb now (p.expires_at * second) then some p else none) ≡ some p
opened p now iat e h k = ground (arith, k)

-- Payloads stand for their own texts, and their random ids for the digests.
abbrev open_crypto : Crypto
open_crypto = record {
  Text = Payload;
  encode = λ p. p;
  decode = λ now p. if ltb now (p.expires_at * second) then some p else none;
  digest = λ p. p.jti;
  str = unary;
  int = of_unary;
  decode-encode = opened;
  int-str = of_unary-unary;
}

abbrev pub deployment : Deployment
deployment = record {
  passwords = plain;
  crypto = open_crypto;
  unicode = record { strip = λ s. s; lower = λ s. s };
  lifetimes = record { access = 900000000; refresh = 900000000; impersonation = 900000000 };
  require_verified_email = false;
}

abbrev pub mint_1 : Mint
mint_1 = record { at = 5000000; jti = "one" }

abbrev mint_2 : Mint
mint_2 = record { at = 5000001; jti = "two" }

abbrev at_five : Issuing
at_five = record { access = mint_1; refresh = mint_2; stored_at = 5000002 }

abbrev signed_in : Db
signed_in = (authenticate deployment "ada@x.org" "engine" at_five staffed).1

is_current : IsCurrent mint_2 900000000 6000000
is_current = (omega arith, omega arith)

abbrev ada_pair : TokenPair Payload
ada_pair = pair_for deployment (Users.load staffed ada) at_five

authenticate-refresh_example :
    (row : UserRow) × (account deployment "ada@x.org" "engine" at_five staffed staffed-IsConsistent
      ≡ some row)
    × (str_eq "engine" row.hashed_password ≡ true)
    × (refresh deployment ada_pair.refresh_token 6000000 7000000 mint_1 signed_in ≡ (
      ok (record {
        access_token = create_access_token open_crypto deployment.lifetimes (unary row.id) mint_1;
        refresh_token = ada_pair.refresh_token;
      }),
      signed_in,
    ))
unfolding authenticate Users.get_by_email issue RefreshTokens.create create_access_token
    create_refresh_token
authenticate-refresh_example =
    authenticate-refresh deployment "ada@x.org" "engine" at_five staffed staffed-IsConsistent
      ada_pair 6000000 7000000 mint_1 tt refl is_current (omega arith)

logout-refresh_example :
    refresh deployment ada_pair.refresh_token 6000000 7000000 mint_1
      (logout deployment ada_pair.refresh_token 5500000 signed_in).1
    ≡ (err invalid_credentials, (logout deployment ada_pair.refresh_token 5500000 signed_in).1)
logout-refresh_example =
    logout-refresh deployment ada_pair.refresh_token 5500000 6000000 7000000 mint_1 signed_in

change_password-IsChanged_example :
    IsChanged deployment ada "engine" "lace" 8000000 staffed
      (change_password deployment
        (Users.load staffed ada)
        "engine"
        "lace"
        8000000
        8000001
        staffed).1
unfolding change_password revoke_sessions Users.save RefreshTokens.revoke_all_for_user
change_password-IsChanged_example =
    change_password-IsChanged deployment ada staffed staffed-IsConsistent refl "engine" "lace"
      8000000 8000001 refl

abbrev ada_as_bob : ImpersonationGrant Payload
ada_as_bob = grant_for deployment (Users.load staffed ada) (Users.load staffed bob) mint_1

impersonate-IsRecorded_example :
    (◌≢◌ {A = ℕ} 2 1)
    × (may_impersonate (Users.load staffed ada) (Users.load staffed bob) ≡ true)
    × IsRecorded deployment none impersonate_start
        (Users.load staffed bob)
        staffed
        (impersonate deployment none
          (Users.load staffed ada)
          (Users.load staffed bob)
          5
          mint_1
          staffed).1
    × (decode_access_token open_crypto 6000000 ada_as_bob.access_token
        ≡ ok (record { subject = unary 2; impersonator = some (unary 1); issued_at = 5 }))
unfolding impersonate record_event audit_event create_entry may_impersonate outranks scope_for
    is_superuser Users.roles_of create_impersonation_token
impersonate-IsRecorded_example =
    impersonate-IsRecorded deployment none (Users.load staffed ada) (Users.load staffed bob) 5
      mint_1 6000000 ada_as_bob staffed refl (omega arith, omega arith)
