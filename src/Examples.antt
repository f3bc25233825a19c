-- ===== src/Examples.antt =====
-- A small deployment to run the model on: an environment, a tenant with a sequential request to two
-- signers, and a webhook endpoint.
mod Signing
mod Sessions
mod Requests
mod Hooks
mod Cards
mod Logins
mod Runs
mod Tenants
mod Boot
use signara.Prelude.{ℕ, ◌+◌, str_eq, true, false, none, some, List, [], ◌∷◌}
use signara.Exec.{throw, bad_request}
use signara.Db.{
  Db, Document, SigningRequest, Signer, RequestField, WebhookEndpoint, awaiting_signature,
  sequential, signer, invited, signed, pending, ft_text, str,
}
use signara.Env.{Env, https}
use signara.Signatures.Trail.{ClientContext}
use signara.Signatures.Sign.{Certify, SignInput}

abbrev pub env : Env
env = record {
  now = 1000;
  uuid = λ n. n + 100;
  random_token = λ n. "token";
  normalize = λ s. s;
  is_blank = λ s. str_eq s "";
  first_500 = λ s. s;
  content_hash = λ key email id. "hash";
  presigned_url = λ key. key;
  sign_url = λ token. token;
  smtp_host = none;
  reminders_after_days = none;
  reminders_max = none;
  allow_private = none;
  auto_disable_after_days = none;
  auto_disable_min_failures = none;
  demo_organization_id = 99;
  demo_file_key = "demo.pdf";
  demo_message = "demo";
  parse_url = λ s. some (record { protocol = https; hostname = b'a' ∷ b'.' ∷ b'b' ∷ []; href = s });
  lower = λ s. s;
  random_secret = λ n. "secret";
}

abbrev pub no_certificates : Certify
no_certificates r = throw (bad_request "Certificate not found")

abbrev pub contract : Document
contract = record {
  id = 1;
  organization_id = 7;
  template_id = none;
  title = "Contract";
  file_name = "contract.pdf";
  file_key = "files/contract.pdf";
  status = awaiting_signature;
  deleted_at = none;
}

abbrev pub request : SigningRequest
request = record {
  id = 2;
  organization_id = 7;
  document_id = 1;
  title = none;
  status = awaiting_signature;
  mode = sequential;
  message = none;
  deadline = none;
  completed_at = none;
  created_by_id = some 1;
}

abbrev pub ann : Signer
ann = record {
  id = 3;
  request_id = 2;
  user_id = none;
  email = "ann@example.com";
  name = none;
  role = signer;
  order_index = 0;
  status = signed;
  token = "ann";
  viewed_at = none;
  signed_at = some 900;
  reminder_count = 0;
  auth_method = none;
}

abbrev pub bob : Signer
bob = record ann {
  id = 4;
  email = "bob@example.com";
  order_index = 1;
  status = invited;
  token = "bob";
  signed_at = none;
}

abbrev pub bobs_field : RequestField
bobs_field = record {
  id = 5;
  request_id = 2;
  signer_id = some 4;
  type = ft_text;
  name = none;
  key = none;
  is_required = true;
  page_number = 1;
  x = none;
  y = none;
  width = none;
  height = none;
  options = none;
  value = none;
  filled_at = none;
}

abbrev pub endpoint : WebhookEndpoint
endpoint = record {
  id = 6;
  organization_id = 7;
  url = "https://a.b/hook";
  events = "*" ∷ [];
  secret = "secret";
  description = none;
  active = true;
  disabled_at = none;
  created_at = 0;
}

abbrev pub db : Db
db = record {
  documents = contract ∷ [];
  requests = request ∷ [];
  signers = ann ∷ bob ∷ [];
  events = [];
  signatures = [];
  fields = bobs_field ∷ [];
  templates = [];
  template_fields = [];
  workflow_rules = [];
  endpoints = endpoint ∷ [];
  deliveries = [];
  notifications = [];
  memberships = [];
  jobs = [];
  ids_drawn = 0;
  tokens_drawn = 0;
}

abbrev pub browser : ClientContext
browser = record { ip_address = some "192.0.2.1"; user_agent = none }

abbrev pub bobs_input : SignInput
bobs_input = record {
  type = none;
  certificate_serial = none;
  signed_hash = none;
  crypto_algorithm = none;
  certificate_id = none;
  signature_value = none;
  fields = some ((5, some (str "yes")) ∷ []);
}
