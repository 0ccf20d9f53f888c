-- ===== src/Services/IdempotencyService/Tests.antt =====
-- Runs of app/services/idempotency_service.py on an empty table.
use fastapi_template.Prelude.{
  ℕ, ◌≡◌, refl, some, [], ◌∷◌, arith, str_eq, ltb, if◌then◌else◌, length, codes,
}
use fastapi_template.Errors.{ok}
use fastapi_template.Models.{empty_db}
use fastapi_template.Services.IdempotencyService.{
  fresh, in_flight, StoredResponse, Attempt, claim_of, Sha256, fingerprint, Moment,
}
use fastapi_template.Services.IdempotencyService.Outcomes.{
  HasUniqueKeys, entry_of, claim_answer, claim_lem,
}
use fastapi_template.Services.IdempotencyService.Replay.{
  told, replay_of, claim-exclusive, claim-complete,
}
use fastapi_template.Repositories.Idempotency
use fastapi_template.Services.IdempotencyService

-- A stand-in for sha256, by the length of what it is fed.
abbrev pub tiny_sha : Sha256
tiny_sha = record { encode = codes; digest = λ b. if ltb (length b) 12 then "short" else "long" }

abbrev pub moment : ℕ → Moment
moment t = record { checked = t; restart_at = t; inserted = t; meanwhile = λ db. db }

abbrev pub post : Attempt
post = record { user_id = 7; key = "k1"; method = "POST"; path = "/items"; body = 1 ∷ 2 ∷ [] }

abbrev pub created : StoredResponse
created = record { status_code = 201; body = "{}"; content_type = some "application/json" }

pub empty-HasUniqueKeys : HasUniqueKeys empty_db
empty-HasUniqueKeys = record { entries = tt; ids = tt; sequence = tt }

pub post_wins :
    (IdempotencyService.claim tiny_sha 60 (moment 100) post empty_db).0 ≡ ok (claim_of fresh)
unfolding IdempotencyService.claim Idempotency.get Idempotency.claim
post_wins = refl

claim-exclusive_example :
    IdempotencyService.claim tiny_sha 60
      (moment 110)
      post
      (IdempotencyService.claim tiny_sha 60 (moment 100) post empty_db).1
    ≡ (
      ok (
          told
            (str_eq (fingerprint tiny_sha post) (fingerprint tiny_sha post))
            (claim_of in_flight)),
      (IdempotencyService.claim tiny_sha 60 (moment 100) post empty_db).1,
    )
claim-exclusive_example =
    claim-exclusive tiny_sha 60 (moment 100) (moment 110) post post empty_db empty-HasUniqueKeys
      empty-HasUniqueKeys post_wins (refl, refl) (omega arith) (omega arith)

claim-complete_example :
    IdempotencyService.claim tiny_sha 60
      (moment 500)
      post
      (IdempotencyService.complete 7 "k1" created 105
        (IdempotencyService.claim tiny_sha 60 (moment 100) post empty_db).1).1
    ≡ (
      ok (
          told
            (str_eq (fingerprint tiny_sha post) (fingerprint tiny_sha post))
            (replay_of created)),
      (IdempotencyService.complete 7 "k1" created 105
          (IdempotencyService.claim tiny_sha 60 (moment 100) post empty_db).1).1,
    )
claim-complete_example =
    claim-complete tiny_sha 60 (moment 100) (moment 500) post post empty_db empty-HasUniqueKeys
      empty-HasUniqueKeys post_wins (refl, refl) created 105

claim_lem_example :
    IdempotencyService.claim tiny_sha 60 (moment 100) post empty_db
    ≡ claim_answer tiny_sha 60 (moment 100) post (entry_of post empty_db) empty_db
claim_lem_example =
    claim_lem tiny_sha 60 (moment 100) post empty_db empty-HasUniqueKeys empty-HasUniqueKeys
