-- ===== src/Http/Errors/Shape.antt =====
-- What every error response has, and what it never carries.
use fastapi_template.Prelude.{
  String, ◌≡◌, refl, ◌≢◌, Option, none, some, List, [], ◌∷◌, map, arith, eq_iff, eq_refl,
}
use fastapi_template.Http.Errors.{
  RawError, Headers, Correlation, correlation_id, request_id_header, set_header, header, with_id,
  detail_of, Failure, domain_failure, validation_failure, http_failure, handle,
}
use fastapi_template.Http.Errors

header-set_header : (name v : String) (hs : Headers) → header name (set_header name v hs) ≡ some v
header-set_header name v [] = ground (arith, eq_refl name)
header-set_header name v ((n, w) ∷ hs) = ground (arith, header-set_header name v hs)

header-with_id :
    (given : Option String) (headers : Headers) (id : String)
    → given ≡ some id
    → id ≢ ""
    → header request_id_header (with_id given headers) ≡ some id
header-with_id given headers id h ne =
    rw h (ground (arith, eq_iff id "", header-set_header request_id_header id headers))

-- Whatever fails, where the request has a correlation id that is not empty, the error response
-- carries it in its body and in its X-Request-ID header.
pub handle-request_id :
    (c : Correlation) (f : Failure) (id : String)
    → correlation_id c ≡ some id
    → id ≢ ""
    → ((handle c f).request_id ≡ some id)
      × (header request_id_header (handle c f).headers ≡ some id)
unfolding handle
handle-request_id c (domain_failure e) id h ne = (h, header-with_id (correlation_id c) [] id h ne)
handle-request_id c (validation_failure es) id h ne =
    (h, header-with_id (correlation_id c) [] id h ne)
handle-request_id c (http_failure status detail headers none) id h ne =
    (h, header-with_id (correlation_id c) headers id h ne)
handle-request_id c (http_failure status detail headers (some e)) id h ne =
    (h, header-with_id (correlation_id c) [] id h ne)
handle-request_id c Errors.unexpected_failure id h ne =
    (h, header-with_id (correlation_id c) [] id h ne)

-- Two failures that differ in the refused input.
abbrev pub SameButInput : List RawError → List RawError → Type 0
SameButInput [] [] = Unit
SameButInput (d ∷ ds) (e ∷ es) =
    (d.kind ≡ e.kind) × (d.loc ≡ e.loc) × (d.msg ≡ e.msg) × (d.ctx ≡ e.ctx) × SameButInput ds es
SameButInput _ _ = ⊥

details_equal : (ds es : List RawError) → SameButInput ds es → map detail_of ds ≡ map detail_of es
details_equal [] [] h = refl
details_equal [] (e ∷ es) h = absurd h
details_equal (d ∷ ds) [] h = absurd h
details_equal (d ∷ ds) (e ∷ es) h = ground (arith, details_equal ds es)

-- Two failed validations that differ in nothing but the refused input get the same response.
pub handle-hides_input :
    (c : Correlation) (ds es : List RawError)
    → SameButInput ds es
    → handle c (validation_failure ds) ≡ handle c (validation_failure es)
unfolding handle
handle-hides_input c ds es h = rw (details_equal ds es h)
