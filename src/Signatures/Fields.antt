-- ===== src/Signatures/Fields.antt =====
-- Placed fields: loading a template's placements, binding them to signers, and checking and storing
-- the values that a signer submits (`loadTemplatePlacements`, `placementsForRequest`,
-- `requestFieldsForSigner`, `resolveFieldValues`, `captureFieldValues` of signatures.service.ts).
pub mod Capture
pub mod Answers
pub mod Binding
use signara.Prelude.{
  ℕ, Bool, true, false, not, ◌&&◌, Option, none, some, List, [], ◌∷◌, map, ◌==◌, leb, if◌then◌else◌,
  get_or, is_id, any, select, is_some, sort_by,
}
use signara.Exec.{Outcome, ok, throw, bad_request}
use signara.Db.{
  Db, Json, null, str, RequestField, TemplateField, Signer, is_attachment, update_field,
}
use signara.Env.{Env}

-- `orderBy: [{ pageNumber: 'asc' }, { createdAt: 'asc' }]`: the tables are in order of creation.
abbrev pub fields_for_signer : ℕ → ℕ → Db → List RequestField
fields_for_signer request_id signer_id db =
    sort_by (λ f. f.page_number)
      (select (λ f. f.request_id == request_id && is_id signer_id f.signer_id) db.fields)

abbrev pub template_fields_of : ℕ → Db → List TemplateField
template_fields_of template_id db =
    sort_by (λ f. f.page_number) (select (λ f. f.template_id == template_id) db.template_fields)

check_placements : ℕ → List TemplateField → Outcome (List TemplateField)
check_placements signer_count fields =
    if any (λ f. leb signer_count f.assignee_order) fields
    then throw (bad_request "Template field is assigned to a signer the request does not have")
    else if any (λ f. is_attachment f.type) fields
    then throw (bad_request "Template field is an attachment: remove it before sending")
    else ok fields

unfoldable pub load_template_placements : Option ℕ → ℕ → Db → Outcome (List TemplateField)
unfolding check_placements
load_template_placements none signer_count db = ok []
load_template_placements (some template_id) signer_count db =
    check_placements signer_count (template_fields_of template_id db)

-- `new Map(signers.map((s) => [s.orderIndex, s.id])).get(order)`: the last entry of a key counts.
unfoldable pub signer_by_order : List Signer → ℕ → Option ℕ
signer_by_order [] order = none
signer_by_order (s ∷ ss) order =
    let later = signer_by_order ss order in
    if is_some later then later else if s.order_index == order then some s.id else none

unfoldable pub placement_row : ℕ → List Signer → ℕ → TemplateField → RequestField
unfolding signer_by_order
placement_row request_id signers id f = record {
  id = id;
  request_id = request_id;
  signer_id = signer_by_order signers f.assignee_order;
  type = f.type;
  name = f.name;
  key = f.key;
  is_required = f.is_required;
  page_number = f.page_number;
  x = f.x;
  y = f.y;
  width = f.width;
  height = f.height;
  options = f.options;
  value = none;
  filled_at = none;
}

-- `FieldValueInput[]`: a field's id with its value, `none` for an absent one.
abbrev pub Submitted : Type 0
Submitted = List (ℕ × Option Json)

-- `new Map(input)` and its `get` and `has`: the last entry of a key counts.
unfoldable pub submitted_entry : Submitted → ℕ → Option (Option Json)
submitted_entry [] id = none
submitted_entry ((k, v) ∷ rest) id =
    let later = submitted_entry rest id in
    if is_some later then later else if k == id then some v else none

abbrev pub submitted_value : Submitted → ℕ → Option Json
submitted_value submitted id = get_or (submitted_entry submitted id) none

module _ (env : Env) where
  abbrev pub is_empty : Option Json → Bool
  is_empty none = true
  is_empty (some null) = true
  is_empty (some (str s)) = env.is_blank s
  is_empty (some _) = false

  abbrev pub is_unknown : List RequestField → ℕ × Option Json → Bool
  is_unknown requested entry = not (any (λ f. f.id == entry.0) requested)

  abbrev pub is_missing : Submitted → RequestField → Bool
  is_missing submitted f = f.is_required && is_empty (submitted_value submitted f.id)

  unfoldable pub check_values : List RequestField → Submitted → Outcome Submitted
  unfolding submitted_entry
  check_values [] submitted = ok []
  check_values (r ∷ rs) submitted =
      if any (is_unknown (r ∷ rs)) submitted
      then throw (bad_request "Unknown field(s) for this signer")
      else if any (is_missing submitted) (r ∷ rs)
      then throw (bad_request "Complete the required field(s) first")
      else ok (
          map (λ f. (f.id, submitted_value submitted f.id))
            (select (λ f. is_some (submitted_entry submitted f.id)) (r ∷ rs)))

  unfoldable pub resolve_field_values : ℕ → ℕ → Option Submitted → Db → Outcome Submitted
  unfolding check_values
  resolve_field_values request_id signer_id input db =
      check_values (fields_for_signer request_id signer_id db) (get_or input [])

  -- A value of `undefined` leaves the column as it is.
  abbrev pub fill : Option Json → RequestField → RequestField
  fill none f = record f { filled_at = some env.now }
  fill (some v) f = record f { value = some v; filled_at = some env.now }

  unfoldable pub capture_field_values : Submitted → Db → Db
  unfolding update_field
  capture_field_values [] db = db
  capture_field_values ((id, v) ∷ rest) db = capture_field_values rest (update_field id (fill v) db)
