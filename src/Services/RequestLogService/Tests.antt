-- ===== src/Services/RequestLogService/Tests.antt =====
-- Runs of app/services/request_log_service.py with a stand-in for the cursors.
use fastapi_template.Prelude.{
  ℕ, zero, suc, String, ◌≡◌, refl, ap, Option, none, some, List, [], ◌∷◌, ◌==◌, if◌then◌else◌, All,
  codes,
}
use fastapi_template.Errors.{ok}
use fastapi_template.Models.{RequestLog, Db, own}
use fastapi_template.Services.RequestLogService.{by_request_id}
use fastapi_template.Services.RequestLogService.Visible.{IsOwn, list_for-IsPage, list_for-IsOwn}
use fastapi_template.Repositories.RequestLogs.{
  warning, RequestLogQuery, outcome_for, outcome_range, is_between, log_key,
}
use fastapi_template.Repositories.Cursor.{CursorCodec, cursor_condition, cursor_slice}
use fastapi_template.Repositories.Cursor.Pages.{IsPage}
use fastapi_template.Repositories.Cursor.Order.{same_id}
use fastapi_template.Repositories.Unique.{Apart}
use fastapi_template.Services.UserService.Tests.{ada, staffed}
use fastapi_template.Repositories.Users
use fastapi_template.Services.RequestLogService
use fastapi_template.Repositories.RequestLogs

abbrev marks : ℕ → String
marks zero = ""
marks (suc n) = String.◌∷◌ "b" (marks n)

abbrev pub marked : ℕ → ℕ → String
marked zero i = marks i
marked (suc m) i = String.◌∷◌ "a" (marked m i)

abbrev pub count_of : ℕ → List ℕ → ℕ
count_of c [] = 0
count_of c (x ∷ xs) = let rest = count_of c xs in if x == c then suc rest else rest

marks-b : (n : ℕ) → (count_of b'a' (codes (marks n)) ≡ 0) × (count_of b'b' (codes (marks n)) ≡ n)
marks-b zero = (refl, refl)
marks-b (suc n) = ((marks-b n).0, ap suc (marks-b n).1)

marked-ab :
    (m i : ℕ) → (count_of b'a' (codes (marked m i)) ≡ m) × (count_of b'b' (codes (marked m i)) ≡ i)
marked-ab zero i = marks-b i
marked-ab (suc m) i = (ap suc (marked-ab m i).0, (marked-ab m i).1)

abbrev pub of_marks : String → Option (ℕ × ℕ)
of_marks s = some (count_of b'a' (codes s), count_of b'b' (codes s))

pub of_marks-marked : (k : ℕ × ℕ) → of_marks (marked k.0 k.1) ≡ some k
of_marks-marked (m, i) = rw ((marked-ab m i).0, (marked-ab m i).1) refl

abbrev pub counting : CursorCodec
counting = record {
  encode = λ k. marked k.0 k.1;
  decode = of_marks;
  decode-encode = of_marks-marked;
}

abbrev hit : RequestLog
hit = record {
  id = 1;
  created_at = 2;
  request_id = "r1";
  method = "GET";
  path = "/items";
  status_code = 200;
  duration_us = 9;
  client_ip = none;
  user_id = some 1;
}

abbrev miss : RequestLog
miss = record hit { id = 2; request_id = "r2"; status_code = 404; user_id = some 2 }

abbrev late : RequestLog
late = record hit { id = 3; request_id = "r3"; created_at = 4 }

abbrev logged : Db
logged = record staffed { request_logs = record { rows = hit ∷ miss ∷ late ∷ []; next_id = 4 } }

abbrev one_each : RequestLogQuery
one_each = record (by_request_id "") { limit = 1 }

logged-Apart : Apart (same_id log_key) logged.request_logs.rows
logged-Apart = ((refl, (refl, tt)), ((refl, tt), (tt, tt)))

list_for-IsPage_example :
    (page : List RequestLog × Option String) × (RequestLogService.list_for counting
        (Users.load staffed ada)
        own
        one_each
        logged
      ≡ (ok page, logged))
    × IsPage log_key
        (RequestLogs.matches (RequestLogService.visible (Users.load staffed ada) own one_each))
        none
        logged.request_logs.rows
        logged-Apart
        counting
        0
        page
unfolding cursor_condition
list_for-IsPage_example =
    list_for-IsPage counting (Users.load staffed ada) own one_each logged none 0 logged-Apart refl
      refl

list_for-IsOwn_example : All (IsOwn (Users.load staffed ada)) (late ∷ [])
unfolding RequestLogService.list_for RequestLogs.list_page RequestLogService.visible cursor_slice
    cursor_condition RequestLogs.matches
list_for-IsOwn_example =
    list_for-IsOwn counting (Users.load staffed ada) own one_each logged (late ∷ [])
      (some (marked 4 3)) refl refl
