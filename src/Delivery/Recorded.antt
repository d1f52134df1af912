-- ===== src/Delivery/Recorded.antt =====
-- What an accepted delivery leaves in scan_runs: acceptPullRequestDelivery of
-- src/integrations/github/pr-webhook-handler.ts over the store of src/services/scan-run-store.ts.
use fixor.Prelude.{
  arith, ℕ, ◌≡◌, refl, sym, ap, ◌⊎◌, inl, inr, Bool, true, false, Option, none, some, List, String,
  if◌then◌else◌, get,
}
use fixor.ScanRun.{Start}
use fixor.ScanRun.Store.Deliveries.{IsValid, create_pending_iff}
use fixor.ScanRun.Store.{
  Db, CreateResult, pending_row, delivery_taken, create_pending, ensure_installation,
}
use fixor.Webhook.Payload.{ValidatedWebhook, ValidationResult, valid, invalid, validate_payload}
use fixor.Delivery.{WebhookSignatureState, Failure, unpriced_refused, new_run}
use fixor.Delivery.Accept.{
  Options, Created, created, not_created, AcceptResult, Accepted, refused, accepted,
  installation_of, check_signature, start_of, context_of, record_delivery, after_validation,
  after_signature, accept_delivery, accept_run, refuse_delivery,
}

-- `createPending` of the Drizzle store with the id that the database gives the row.
as_created : CreateResult → Option Created
as_created (CreateResult.created id) = some (created id)
as_created CreateResult.duplicate_delivery = some not_created
as_created CreateResult.no_row_returned = none

-- The two statements of `createPending`: both take effect, with the id that the database gives the row, or one throws.
pub data Insertion : Type 0 where
  gives : (id : String) → Insertion
  upsert_throws insert_throws : Insertion

unfoldable pub db_create : Insertion → Start → Db → Option Created × Db
unfolding as_created
db_create (gives id) start db =
    let (db', result) = create_pending id start db in (as_created result, db')
db_create upsert_throws start db = (none, db)
db_create insert_throws start db = (none, ensure_installation start.installation_id db)

abbrev throws : Insertion → Bool
throws (gives id) = false
throws _ = true

-- A new row; the row of the delivery that is there already; a throw.
data Answered (ins : Insertion) (start : Start) (db : Db) (out : Option Created × Db) : Type 0 where
  row_added :
      (id : String)
      → ins ≡ gives id
      → delivery_taken start.delivery_id db.rows ≡ false
      → out.0 ≡ some (created id)
      → get id out.1.rows ≡ some (pending_row start)
      → Answered ins start db out
  row_known : out.0 ≡ some not_created → out.1.rows ≡ db.rows → Answered ins start db out
  row_lost : throws ins ≡ true → out.0 ≡ none → out.1.rows ≡ db.rows → Answered ins start db out

ensure_installation-rows : (id : String) (db : Db) → (ensure_installation id db).rows ≡ db.rows
ensure_installation-rows id db = ground arith

db_create_cases :
    (ins : Insertion) (start : Start) (db : Db)
    → IsValid db
    → Answered ins start db (db_create ins start db)
unfolding db_create as_created
db_create_cases (gives id) start db v = elim (create_pending_iff id start db v) [
  | inl (free, answer, row) ↦ row_added id refl free (rw answer refl) row
  | inr (known, answer, same) ↦ row_known (rw answer refl) same
]
db_create_cases upsert_throws start db v = row_lost refl refl refl
db_create_cases insert_throws start db v =
    row_lost refl refl (ensure_installation-rows start.installation_id db)

module _ (hmac : String → String → List ℕ) (ins : Insertion) (o : Options) (now : ℕ) (db : Db) where
  -- A new row for the delivery, and none for its delivery id before.
  pub record IsNew (a : Accepted) (n : ℕ) (v : ValidatedWebhook) (after : Db) : Type 0 where
    pub id : String
    pub given : ins ≡ gives id
    pub known : a.scan_run_id ≡ some id
    pub recorded : a.recorded ≡ true
    pub row : get id after.rows ≡ some (pending_row (start_of o now n v))
    pub first : delivery_taken o.delivery_id db.rows ≡ false

  -- No row, which the caller is told, and the run may not be priced.
  pub record IsLost (a : Accepted) (after : Db) : Type 0 where
    pub thrown : throws ins ≡ true
    pub unknown : a.scan_run_id ≡ none
    pub unrecorded : a.recorded ≡ false
    pub stopped : a.run.pre_scan_write_failed ≡ true
    pub same : after.rows ≡ db.rows

  -- What holds of the answer and of the table after it.
  abbrev pub Recorded : AcceptResult × Db → Type 0
  Recorded (refused r, after) = after.rows ≡ db.rows
  Recorded (accepted a, after) =
      (check_signature hmac o ≡ inl a.ctx.signature_state)
      × (v : ValidatedWebhook) × (validate_payload o.payload ≡ valid v)
      × (a.ctx ≡ context_of o a.ctx.signature_state (installation_of o.payload) v)
      × (((installation_of o.payload ≡ none)
            × (o.allow_unpriced_scan ≡ true)
            × (after.rows ≡ db.rows))
          ⊎ ((n : ℕ) × (installation_of o.payload ≡ some n) × (IsNew a n v after ⊎ IsLost a after)))

  unpriced-Recorded :
      (state : WebhookSignatureState) (v : ValidatedWebhook) (allowed : Bool)
      → check_signature hmac o ≡ inl state
      → validate_payload o.payload ≡ valid v
      → installation_of o.payload ≡ none
      → o.allow_unpriced_scan ≡ allowed
      → Recorded (
          if allowed
          then (accept_run none false true (context_of o state none v), db)
          else (refuse_delivery o state unpriced_refused, db))
  unpriced-Recorded state v true c p e a =
      (c, v, p, ap (λ i. context_of o state i v) (sym e), inl (e, a, refl))
  unpriced-Recorded state v false c p e a = refl

  record_delivery-Recorded :
      (state : WebhookSignatureState) (v : ValidatedWebhook) (installation : Option ℕ)
      → IsValid db
      → check_signature hmac o ≡ inl state
      → validate_payload o.payload ≡ valid v
      → installation_of o.payload ≡ installation
      → Recorded (record_delivery hmac (db_create ins) o now state installation v db)
  unfolding record_delivery new_run
  record_delivery-Recorded state v none sound c p e =
      unpriced-Recorded state v o.allow_unpriced_scan c p e refl
  record_delivery-Recorded state v (some n) sound c p e =
      elim (db_create_cases ins (start_of o now n v) db sound) [
        | row_added id given free answer row ↦ rw answer (
          c,
          v,
          p,
          ap (λ i. context_of o state i v) (sym e),
          inr (
            n,
            e,
            inl (record {
              id = id;
              given = given;
              known = refl;
              recorded = refl;
              row = row;
              first = free;
            }),
          ),
        )
        | row_known answer same ↦ rw answer same
        | row_lost thrown answer same ↦ rw answer (
          c,
          v,
          p,
          ap (λ i. context_of o state i v) (sym e),
          inr (
            n,
            e,
            inr (record {
              thrown = thrown;
              unknown = refl;
              unrecorded = refl;
              stopped = refl;
              same = same;
            }),
          ),
        )
      ]

  after_validation-Recorded :
      (state : WebhookSignatureState) (result : ValidationResult)
      → IsValid db
      → check_signature hmac o ≡ inl state
      → validate_payload o.payload ≡ result
      → Recorded (after_validation hmac (db_create ins) o now state result db)
  unfolding after_validation
  after_validation-Recorded state (invalid missing) sound c p = refl
  after_validation-Recorded state (valid v) sound c p =
      record_delivery-Recorded state v (installation_of o.payload) sound c p refl

  after_signature-Recorded :
      (check : WebhookSignatureState ⊎ Failure)
      → IsValid db
      → check_signature hmac o ≡ check
      → Recorded (after_signature hmac (db_create ins) o now check db)
  unfolding after_signature
  after_signature-Recorded (inr failure) sound c = refl
  after_signature-Recorded (inl state) sound c =
      after_validation-Recorded state (validate_payload o.payload) sound c refl

  -- Over a valid table: a refused delivery leaves the rows as they were. An accepted one has a signature that
  -- was verified with the trimmed secret (or is not asked for) and a payload that validates; and either it
  -- names no installation, which the caller allowed, and the rows are as they were; or there was no row with
  -- its delivery id and now there is a pending one, with its coordinates and the id that the caller is told; or a
  -- statement threw, the rows are as they were, the caller is told that nothing is recorded, and the run
  -- is marked as one whose write before the scan failed.
  pub accept_delivery-Recorded :
      IsValid db → Recorded (accept_delivery hmac (db_create ins) o now db)
  unfolding accept_delivery
  accept_delivery-Recorded sound = after_signature-Recorded (check_signature hmac o) sound refl
