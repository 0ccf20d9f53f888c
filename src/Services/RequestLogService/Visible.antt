-- ===== src/Services/RequestLogService/Visible.antt =====
-- What a viewer of app/services/request_log_service.py gets to see.
use fastapi_template.Prelude.{
  ℕ, zero, suc, ◌+◌, String, ◌≡◌, refl, inl, inr, Bool, true, false, ◌&&◌, Option, none, some, List,
  [], ◌∷◌, arith, opt_eq, take, All, All-map, select, All-select_holds,
}
use fastapi_template.Errors.{ok, Result-cases}
use fastapi_template.Models.{RequestLog, Db, Scope, is_all, User}
use fastapi_template.Repositories.RequestLogs.{RequestLogQuery, log_key}
use fastapi_template.Repositories.Cursor.{
  CursorCodec, after_key, cursor_condition, matching, page_of, cursor_slice,
}
use fastapi_template.Repositories.Cursor.Pages.{IsPage, cursor_slice-IsPage}
use fastapi_template.Repositories.Cursor.Order.{same_id, All-newest_first}
use fastapi_template.Repositories.Unique.{Apart}
use mathlib.Core.Path.{subst}
use fastapi_template.Services.RequestLogService
use fastapi_template.Repositories.RequestLogs

abbrev pub IsOwn : User → RequestLog → Type 0
IsOwn viewer r = r.user_id ≡ some viewer.id

abbrev pub rows_of : User → Scope → RequestLogQuery → Option (ℕ × ℕ) → Db → List RequestLog
rows_of viewer scope q c db =
    matching log_key (RequestLogs.matches (RequestLogService.visible viewer scope q)) c
      db.request_logs.rows

All-take : {R : Type 0} (P : R → Type 0) (n : ℕ) (rs : List R) → All P rs → All P (take n rs)
All-take P zero rs h = tt
All-take P (suc n) [] h = tt
All-take P (suc n) (r ∷ rs) h = (h.0, All-take P n rs h.1)

opt_eq_own : (i : Option ℕ) (n : ℕ) → opt_eq i (some n) ≡ true → i ≡ some n
opt_eq_own none n h = absurd (cc)
opt_eq_own (some m) n h = ground (arith, h)

module _ (codec : CursorCodec) (viewer : User) (scope : Scope) (q : RequestLogQuery) (db : Db) where
  IsOwn-rows :
      (c : Option (ℕ × ℕ)) → is_all scope ≡ false → All (IsOwn viewer) (rows_of viewer scope q c db)
  unfolding RequestLogService.visible RequestLogs.matches
  IsOwn-rows c narrow =
      let p : RequestLog → Bool = λ r.
        RequestLogs.matches (RequestLogService.visible viewer scope q) r
        && after_key c (log_key r) in
      All-newest_first log_key (IsOwn viewer) (select p db.request_logs.rows) (
        All-map (λ r h. opt_eq_own r.user_id viewer.id (ground (arith, narrow, h)))
          (select p db.request_logs.rows) (All-select_holds p db.request_logs.rows))

  same_query :
      ((RequestLogService.visible viewer scope q).cursor ≡ q.cursor)
      × ((RequestLogService.visible viewer scope q).limit ≡ q.limit)
  unfolding RequestLogService.visible
  same_query = ground arith

  -- With unique ids, a positive limit and a cursor that decodes, a page of the request log is
  -- either all that the viewer may see and the query matches after the cursor, newest first, with
  -- no next cursor, or just as many rows as the limit with a next cursor that decodes: what the
  -- query matches after the old cursor is then the page followed by what it matches after the new
  -- one. So a walk over the pages meets each row once and in order. The listing writes nothing.
  pub list_for-IsPage :
      (c : Option (ℕ × ℕ)) (n : ℕ) (unique : Apart (same_id log_key) db.request_logs.rows)
      → q.limit ≡ suc n
      → cursor_condition codec q.cursor ≡ ok c
      → (page : List RequestLog × Option String) × (RequestLogService.list_for codec viewer scope q
            db
          ≡ (ok page, db))
        × IsPage log_key
            (RequestLogs.matches (RequestLogService.visible viewer scope q))
            c
            db.request_logs.rows
            unique
            codec
            n
            page
  unfolding RequestLogService.list_for RequestLogs.list_page
  list_for-IsPage c n unique size read_cursor =
      let p : RequestLog → Bool = RequestLogs.matches (RequestLogService.visible viewer scope q) in
      (
        cursor_slice log_key codec (page_of log_key p c (suc n) db.request_logs.rows) (suc n),
        rw (same_query.0, same_query.1, read_cursor, size) refl,
        cursor_slice-IsPage log_key p c db.request_logs.rows unique codec n,
      )

  -- A viewer whose scope is not all gets no row of the request log but its own, whatever the query
  -- asks for.
  pub list_for-IsOwn :
      (page : List RequestLog) (next : Option String)
      → is_all scope ≡ false
      → (RequestLogService.list_for codec viewer scope q db).0 ≡ ok (page, next)
      → All (IsOwn viewer) page
  unfolding RequestLogService.list_for RequestLogs.list_page cursor_slice
  list_for-IsOwn page next narrow h = elim (Result-cases (cursor_condition codec q.cursor)) [
    | inl (e, bad) ↦ absurd (ground (arith, same_query.0, bad, h))
    | inr (c, good) ↦
        let fetched : List RequestLog =
          page_of log_key (RequestLogs.matches (RequestLogService.visible viewer scope q)) c q.limit
            db.request_logs.rows in
        let same : take q.limit fetched ≡ page =
          ground (arith, same_query.0, same_query.1, good, h) in
        subst (All (IsOwn viewer)) same (
          All-take (IsOwn viewer) q.limit fetched (
            All-take (IsOwn viewer) (q.limit + 1) (rows_of viewer scope q c db)
              (IsOwn-rows c narrow)))
  ]
