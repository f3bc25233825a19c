-- ===== src/Examples/Requests.antt =====
-- Creating requests, the fields placed on them, and reminders: concrete runs and the theorems there.
use signara.Prelude.{◌≡◌, refl, true, none, some, [], ◌∷◌, Memᴰ, arith, sort_by}
use signara.Exec.{ok}
use signara.Db.{Db, Signer, RequestField, TemplateField, ft_text, str}
use signara.Signatures.Trail.{empty_metadata}
use signara.Signatures.Fields.{
  Submitted, fields_for_signer, submitted_entry, load_template_placements, placement_row,
}
use signara.Signatures.Fields.Answers.{IsAnswered}
use signara.Signatures.Fields.Binding.{placements_bound, placements_dropped}
use signara.Signatures.Reminders.{ReminderOptions, dispatch_reminder, remind}
use signara.Env.{Env}
use signara.User.{AuthenticatedUser, user}
use signara.Signatures.Reminders.Targets.{reminder_throttles}
use signara.Signatures.Create.{
  CreateRequestInput, SignerInput, ordered_inputs, with_order, check_input,
}
use signara.Examples.{env, ann, bob, bobs_field, db}

abbrev yes_input : Submitted
yes_input = (5, some (str "yes")) ∷ []

only_bobs_field : (f : RequestField) → Memᴰ f (fields_for_signer 2 4 db) → f ≡ bobs_field
unfolding sort_by
only_bobs_field f (Memᴰ.head e) = e
only_bobs_field f (Memᴰ.tail m) = elim m [ ]

bobs_field-IsAnswered : IsAnswered env yes_input bobs_field
unfolding submitted_entry
bobs_field-IsAnswered = (str "yes", refl, refl)

abbrev name_field : TemplateField
name_field = record {
  template_id = 9;
  type = ft_text;
  name = none;
  key = none;
  is_required = true;
  page_number = 1;
  assignee_order = 0;
  x = none;
  y = none;
  width = none;
  height = none;
  options = none;
}

abbrev templated : Db
templated = record db { template_fields = name_field ∷ [] }

name_field_loads : load_template_placements (some 9) 1 templated ≡ ok (name_field ∷ [])
unfolding load_template_placements sort_by
name_field_loads = refl

placements_bound_example :
    (s : Signer) × Memᴰ s (ann ∷ [])
    × (s.order_index ≡ 0)
    × ((placement_row 2 (ann ∷ []) 20 name_field).signer_id ≡ some s.id)
placements_bound_example =
    placements_bound (some 9) (ann ∷ []) templated (name_field ∷ []) name_field 2 20 (refl, tt)
      name_field_loads (Memᴰ.head refl)

-- The only signer has the place 1, as a sender who counts from 1 would number her.
placements_dropped_example : (placement_row 2 (bob ∷ []) 20 name_field).signer_id ≡ none
placements_dropped_example =
    placements_dropped (some 9) (bob ∷ []) templated (name_field ∷ []) name_field 2 20
      (omega arith, tt) name_field_loads (Memᴰ.head refl)

abbrev daily : ReminderOptions
daily = record { min_interval_ms = 86_400_000; max_reminders = none; signer_id = none }

abbrev evening : Env
evening = record env { now = 40_000_000 }

abbrev boss : AuthenticatedUser
boss = record {
  id = 1;
  email = "boss@example.com";
  display_name = none;
  platform_role = user;
  org = some (record { id = 7; role = "OWNER"; permissions = [] });
}

reminder_throttles_example :
    (remind evening boss 2 (some 4) (dispatch_reminder env 2 empty_metadata bob db)).1
    ≡ dispatch_reminder env 2 empty_metadata bob db
reminder_throttles_example =
    reminder_throttles env evening boss 2 bob empty_metadata db (omega arith)

abbrev dan : SignerInput
dan = record { email = "dan@example.com"; name = none; role = none; order_index = none }

abbrev eve : SignerInput
eve = record { email = "eve@example.com"; name = none; role = none; order_index = none }

abbrev offer : CreateRequestInput
offer = record {
  document_id = 1;
  template_id = none;
  title = none;
  message = none;
  deadline = none;
  mode = none;
  signers = dan ∷ eve ∷ [];
  workflow_rules = [];
  send_invites = none;
}

offer_checks : check_input env offer db ≡ (ok tt, db)
unfolding check_input ordered_inputs with_order sort_by
offer_checks = refl
