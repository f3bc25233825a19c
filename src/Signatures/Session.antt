-- ===== src/Signatures/Session.antt =====
-- The guest's signing session (`publicSession` and `publicEvents` of signatures.service.ts).
pub mod Privacy
use signara.Prelude.{
  ℕ, String, Bool, true, false, not, ◌&&◌, ◌||◌, ◌==◌, str_eq, Option, none, some, List, map,
  if◌then◌else◌, get_or, is_some, select,
}
use signara.Exec.{Exec, not_found, internal, pure, gets, modify, throw_if, require, ◌>>=◌, ◌>>◌}
use signara.Db.{
  Db, Signer, RequestField, EventType, SigningMode, SignerRole, SignerStatus, invited, viewed,
  ev_viewed, is_active, is_signer, is_declined, is_lapsed, is_pending, is_invited, is_waiting,
  find_document, update_signer,
}
use signara.Env.{Env}
use signara.Signatures.Turn.{can_signer_act}
use signara.Signatures.Trail.{ClientContext, ctx_metadata, record_event, public_event_metadata}
use signara.Signatures.Fields.{fields_for_signer}
use signara.Signatures.Access.{Session, find_session, expire_if_past}
use signara.Signatures.Demo.{demo_token, ensure_demo_session}

-- What the page receives; the tenant's branding, which another service adds, is left out.
pub record PublicSession : Type 0 where
  pub request_id : ℕ
  pub title : String
  pub document_id : ℕ
  pub file_name : String
  pub download_url : String
  pub signer_id : ℕ
  pub email : String
  pub name : Option String
  pub role : SignerRole
  pub status : SignerStatus
  pub order_index : ℕ
  pub message : Option String
  pub deadline : Option ℕ
  pub mode : SigningMode
  pub allows_signing : Bool
  pub auth_method : String
  pub requested_fields : List RequestField

abbrev pub is_open : Session → Bool
is_open x =
    is_active x.request.status
    && not (is_declined x.signer.status)
    && not (is_lapsed x.signer.status)

-- `PENDING`, `INVITED` or `VIEWED`
abbrev pub may_still_sign : SignerStatus → Bool
may_still_sign s = is_pending s || is_waiting s

module _ (env : Env) where
  -- A signer whose turn has come is released, and marked as having viewed the document. The signer
  -- that was read is brought up to date with what is written.
  unfoldable pub release_signer : Bool → Signer → Db → Signer × Db
  unfolding update_signer
  release_signer true s db =
      (record s { status = invited }, update_signer s.id (λ y. record y { status = invited }) db)
  release_signer false s db = (s, db)

  unfoldable pub view_signer : Bool → ClientContext → Signer → Db → Signer × Db
  unfolding update_signer
  view_signer true ctx s db = (
    record s { status = viewed },
    record_event env s.request_id ev_viewed (some s.id) (ctx_metadata ctx)
        (update_signer s.id (λ y. record y { status = viewed; viewed_at = some env.now }) db),
  )
  view_signer false ctx s db = (s, db)

  unfoldable pub open_session : Bool → ClientContext → Session → Db → Signer × Db
  unfolding release_signer view_signer
  open_session can_sign ctx x db =
      let (s1, db1) = release_signer (is_pending x.signer.status && can_sign) x.signer db in
      view_signer (is_invited s1.status && can_sign) ctx s1 db1

  -- Another visit after the demo has ended sets it up anew.
  unfoldable pub refresh_demo : String → Db → Db
  refresh_demo token db =
      if str_eq token demo_token
      then elim (find_session token db) [
        | none ↦ ensure_demo_session env db
        | some x ↦ if is_open x then db else ensure_demo_session env db
      ]
      else db

  unfoldable pub visit : ClientContext → Session → Exec Db PublicSession
  visit ctx x = do
    document ← λ db. require (find_document x.request.document_id db) (internal "P2025") db
    throw_if (not (is_open x)) (not_found "Signing session not found or no longer active")
    expire_if_past env x.request (not_found "Signing session has expired")
    may_act ← gets (can_signer_act x.request.mode x.signer)
    let can_sign = may_still_sign x.signer.status && may_act
    signer ← gets (λ db. (open_session can_sign ctx x db).0)
    modify (λ db. (open_session can_sign ctx x db).1)
    fields ← gets (fields_for_signer x.signer.request_id x.signer.id)
    pure (record {
      request_id = signer.request_id;
      title = get_or x.request.title document.title;
      document_id = document.id;
      file_name = document.file_name;
      download_url = env.presigned_url document.file_key;
      signer_id = signer.id;
      email = signer.email;
      name = signer.name;
      role = signer.role;
      status = signer.status;
      order_index = signer.order_index;
      message = x.request.message;
      deadline = x.request.deadline;
      mode = x.request.mode;
      allows_signing = can_sign;
      auth_method = if is_signer signer.role && is_some signer.user_id then "oidc" else "email";
      requested_fields = fields;
    })

  unfoldable pub public_session : String → ClientContext → Exec Db PublicSession
  public_session token ctx = do
    modify (refresh_demo token)
    x ← λ db.
        require (find_session token db) (not_found "Signing session not found or no longer active")
          db
    visit ctx x

-- What a guest sees of the trail.
pub record PublicEvent : Type 0 where
  pub id : ℕ
  pub type : EventType
  pub created_at : ℕ
  pub completed : Option Bool

pub record PublicEvents : Type 0 where
  pub request_id : ℕ
  pub signer_id : ℕ
  pub events : List PublicEvent

unfoldable pub public_events : String → Exec Db PublicEvents
public_events token = do
  x ← λ db. require (find_session token db) (not_found "Session not found") db
  throw_if (not (is_active x.request.status)) (not_found "Session not found")
  events ← gets (λ db. select (λ e. e.request_id == x.signer.request_id) db.events)
  pure (record {
    request_id = x.signer.request_id;
    signer_id = x.signer.id;
    events =
        map
          (λ e. record {
            id = e.id;
            type = e.type;
            created_at = e.created_at;
            completed = public_event_metadata e.type e.metadata;
          })
          events;
  })
