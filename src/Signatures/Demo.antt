-- ===== src/Signatures/Demo.antt =====
-- The self-serve demo session (`ensureDemoSession` of signatures.service.ts).
use signara.Prelude.{
  ℕ, ◌+◌, String, Bool, true, false, not, ◌&&◌, ◌||◌, ◌==◌, str_eq, Option, none, some, [], ◌∷◌,
  ◌++◌, if◌then◌else◌, map_some, get_or, any, select, map,
}
use signara.Db.{
  Db, Document, SigningRequest, Signer, SignatureEvent, RequestField, FieldType, draft,
  awaiting_signature, parallel, signer, invited, ev_created, ft_name, ft_date, ft_company,
  ft_signature, ft_checkbox,
}
use signara.Env.{Env}
use signara.Signatures.Trail.{empty_metadata, record_event}

abbrev pub demo_token : String
demo_token = "demo"

abbrev demo_doc_title : String
demo_doc_title = "Signara Demo Agreement"

abbrev demo_signer_email : String
demo_signer_email = "demo@signara.local"

-- `signer.deleteMany({ where: { token } })`: signatures go with the signer, while the signer's
-- events and fields stay and lose the reference.
unfoldable pub delete_signers : (Signer → Bool) → Db → Db
delete_signers p db =
    let gone = λ (id : ℕ). any (λ (s : Signer). p s && s.id == id) db.signers in
    let forget = λ (o : Option ℕ). if get_or (map_some gone o) false then none else o in
    record db {
      signers = select (λ s. not (p s)) db.signers;
      signatures = select (λ x. not (gone x.signer_id)) db.signatures;
      events =
          map {A = SignatureEvent} (λ e. record e { signer_id = forget e.signer_id }) db.events;
      fields = map {A = RequestField} (λ f. record f { signer_id = forget f.signer_id }) db.fields;
    }

-- `document.deleteMany({ where })`, which cascades to the requests and all that hangs on them.
unfoldable pub delete_documents : (Document → Bool) → Db → Db
delete_documents p db =
    let gone = λ (id : ℕ). any (λ (d : Document). p d && d.id == id) db.documents in
    let over =
      λ (id : ℕ). any (λ (r : SigningRequest). gone r.document_id && r.id == id) db.requests in
    record db {
      documents = select (λ d. not (p d)) db.documents;
      requests = select (λ r. not (gone r.document_id)) db.requests;
      signers = select (λ s. not (over s.request_id)) db.signers;
      events = select (λ e. not (over e.request_id)) db.events;
      signatures = select (λ x. not (over x.request_id || gone x.document_id)) db.signatures;
      fields = select (λ f. not (over f.request_id)) db.fields;
      workflow_rules = select (λ w. not (over w.request_id)) db.workflow_rules;
    }

abbrev demo_field : ℕ → ℕ → ℕ → FieldType → String → String → Bool → ℕ → ℕ → ℕ → ℕ → RequestField
demo_field id request_id signer_id type name key is_required x y width height = record {
  id = id;
  request_id = request_id;
  signer_id = some signer_id;
  type = type;
  name = some name;
  key = some key;
  is_required = is_required;
  page_number = 1;
  x = some x;
  y = some y;
  width = some width;
  height = some height;
  options = none;
  value = none;
  filled_at = none;
}

module _ (env : Env) where
  -- The document, request, signer and placements, with the ids drawn from the n-th on.
  unfoldable pub create_demo : ℕ → Db → Db
  create_demo org_id db =
      let n = db.ids_drawn in
      let doc_id = env.uuid n in
      let request_id = env.uuid (n + 1) in
      let signer_id = env.uuid (n + 2) in
      record db {
        documents =
            db.documents
            ++ record {
              id = doc_id;
              organization_id = org_id;
              template_id = none;
              title = demo_doc_title;
              file_name = "signara-demo-agreement.pdf";
              file_key = env.demo_file_key;
              status = draft;
              deleted_at = none;
            }
              ∷ [];
        requests =
            db.requests
            ++ record {
              id = request_id;
              organization_id = org_id;
              document_id = doc_id;
              title = some demo_doc_title;
              status = awaiting_signature;
              mode = parallel;
              message = some env.demo_message;
              deadline = none;
              completed_at = none;
              created_by_id = none;
            }
              ∷ [];
        signers =
            db.signers
            ++ record {
              id = signer_id;
              request_id = request_id;
              user_id = none;
              email = demo_signer_email;
              name = some "Demo Signer";
              role = signer;
              order_index = 0;
              status = invited;
              token = demo_token;
              viewed_at = none;
              signed_at = none;
              reminder_count = 0;
              auth_method = some "email";
            }
              ∷ [];
        fields =
            db.fields
            ++ (demo_field (env.uuid (n + 3)) request_id signer_id ft_name "Full name" "full_name"
                  true 10 62 34 6
                ∷ demo_field (env.uuid (n + 4)) request_id signer_id ft_date "Date" "date" true 50
                    62 22 6
                ∷ demo_field (env.uuid (n + 5)) request_id signer_id ft_company "Company" "company"
                    false 10 70 34 6
                ∷ demo_field (env.uuid (n + 6)) request_id signer_id ft_signature "Signature"
                    "signature" true 10 80 34 8
                ∷ demo_field (env.uuid (n + 7)) request_id signer_id ft_checkbox
                    "I agree to the terms" "agree" true 50 80 6 6
                ∷ []);
        ids_drawn = n + 8;
      }

  unfoldable pub ensure_demo_session : Db → Db
  unfolding delete_signers delete_documents create_demo
  ensure_demo_session db =
      let db1 = delete_signers (λ s. str_eq s.token demo_token) db in
      let db2 =
        delete_documents
          (λ d. d.organization_id == env.demo_organization_id && str_eq d.title demo_doc_title)
          db1 in
      let request_id = env.uuid (db2.ids_drawn + 1) in
      record_event env request_id ev_created none
        (record empty_metadata { created_by = some "demo" })
        (create_demo env.demo_organization_id db2)
