-- ===== src/Signatures/Fields/Capture.antt =====
-- What storing submitted values (`captureFieldValues` of signatures.service.ts) leaves alone.
use signara.Prelude.{◌≡◌, refl, [], ◌∷◌}
use signara.Db.{Db}
use signara.Env.{Env}
use signara.Signatures.Fields.{Submitted, capture_field_values}

-- `after` differs from `before` in the fields only.
abbrev pub OnlyFields : Db → Db → Type 0
OnlyFields before after = after ≡ record before { fields = after.fields }

module _ (env : Env) where
  pub capture_field_values-OnlyFields :
      (values : Submitted) (db : Db) → OnlyFields db (capture_field_values env values db)
  unfolding capture_field_values
  capture_field_values-OnlyFields [] db = refl
  capture_field_values-OnlyFields ((id, v) ∷ rest) db = capture_field_values-OnlyFields rest _
