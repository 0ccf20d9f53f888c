-- ===== src/Routes/Items/Tagged.antt =====
-- The tag that app/api/v1/routes/items.py gives, sent back with a write.
use fastapi_template.Prelude.{
  ℕ, String, ◌≡◌, refl, sym, ◌∙◌, inl, inr, Option, none, some, [], arith,
}
use fastapi_template.Errors.{ok, err, Result-cases}
use fastapi_template.Models.{Item, Db}
use fastapi_template.Exec.{Exec, read, ◌>>=◌}
use fastapi_template.Routes.{Setting, Caller, item_read, check_all, protected, Answer}
use fastapi_template.Routes.Admission.{feature_on-cases, IsCaller, actor-cases}
use fastapi_template.Features.{Feature, items_feature}
use fastapi_template.Deps.{Actor}
use fastapi_template.Http.Concurrency.{missing_if_match, etag_for, require_if_match}
use fastapi_template.Http.Concurrency.Tags.{require_if_match-etag_for}
use fastapi_template.Services.ItemService.{ItemUpdate}
use fastapi_template.Services.UserService.Lookups.{IsConsistent}
use fastapi_template.Services.AuthService.{of_result}
use fastapi_template.Services.ItemService
use fastapi_template.Routes.Items

module _ (s : Setting) (caller : Caller s.deployment.crypto.Text) (db : Db)
    (con : IsConsistent db) where
  -- Where one body answers, every body of such a route runs for the same account.
  protected-runs :
      {A B : Type 0} (feature : Option Feature) (body : Actor → Exec Db A) (a : A)
      → (protected s caller feature [] body db).0 ≡ ok a
      → (actor : Actor) × IsCaller s caller db con actor
        × ((body actor db).0 ≡ ok a)
        × ((other : Actor → Exec Db B) → protected s caller feature [] other db ≡ other actor db)
  unfolding protected check_all
  protected-runs feature body a h = elim (feature_on-cases s caller db con feature) [
    | inl (e, off) ↦ absurd (ground (arith, off, h))
    | inr (on, served) ↦ elim (actor-cases s caller db con) [
      | inl (e, unknown) ↦ absurd (ground (arith, served, unknown, h))
      | inr (actor, known, found) ↦
          let same : protected s caller feature [] body db ≡ body actor db =
            rw (served, found) refl in
          (actor, known, rw (sym same) h, λ other. rw (served, found) refl)
    ]
  ]

  item_of :
      (item_id owner_id : ℕ) (item : Item) (tag : String)
      → ((ItemService.get_for_owner item_id owner_id >>= Items.tagged s caller) db).0
        ≡ ok (item_read item tag)
      → tag ≡ etag_for s.decimal item.version
  item_of item_id owner_id item tag h =
      elim (Result-cases (ItemService.get_for_owner item_id owner_id db).0) [
        | inl (e, missing) ↦ absurd (ground (arith, missing, h))
        | inr (found, there) ↦ ground (arith, there, h)
      ]

  abbrev updating : ℕ → ItemUpdate → Option String → Actor → Answer s caller
  updating item_id sent if_match actor = do
    version ← of_result (require_if_match s.decimal if_match)
    item ← ItemService.update item_id actor.user.id sent version
    Items.tagged s caller item

  none_refused : require_if_match s.decimal none ≡ err missing_if_match
  unfolding require_if_match
  none_refused = refl

  -- Under the unique constraints, who reads an item and sends an update with the tag that came
  -- with it runs the update for the same account at the version that was read, and who sends the
  -- same update without a tag is refused with 428, and nothing is changed.
  pub get_item-update_item :
      (item_id : ℕ) (sent : ItemUpdate) (item : Item) (tag : String)
      → (Items.get_item s caller item_id db).0 ≡ ok (item_read item tag)
      → (actor : Actor) × IsCaller s caller db con actor
        × (Items.update_item s caller item_id sent (some tag) db
            ≡ (ItemService.update item_id actor.user.id sent (some item.version)
                  >>= Items.tagged s caller)
                db)
        × (Items.update_item s caller item_id sent none db ≡ (err missing_if_match, db))
  unfolding Items.get_item Items.update_item
  get_item-update_item item_id sent item tag h =
      let (actor, known, read, runs) =
        protected-runs (some items_feature)
          (λ actor. ItemService.get_for_owner item_id actor.user.id >>= Items.tagged s caller)
          (item_read item tag) h in
      let accepted : require_if_match s.decimal (some tag) ≡ ok (some item.version) =
        rw (item_of item_id actor.user.id item tag read)
          (require_if_match-etag_for s.decimal item.version) in
      (
        actor,
        known,
        runs (updating item_id sent (some tag)) ∙ rw accepted refl,
        runs (updating item_id sent none) ∙ rw none_refused refl,
      )
