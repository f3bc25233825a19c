-- ===== src/Certificates/Parse.antt =====
-- Reading a certificate (`parseCertificatePem` and its helpers in certificates.service.ts).
use Prim.Native.Char.{Char, code}
use Prim.Native.String.{◌++◌ as ◌<>◌, len, slice}
use text.Mathlib.Text.{starts_with, find?}
use signara.Prelude.{
  ℕ, String, Bool, true, false, ◌&&◌, ◌==◌, str_eq, Option, none, some, List, [], ◌∷◌,
  if◌then◌else◌, get_or, map_some, is_some, find, map, ltb,
}
use signara.Exec.{Outcome, ok, throw, bad_request}
use signara.Certificates.Rows.{DnAttribute, AltName, ForgeCertificate, NormalizedPem, CertEnv}

-- `s.includes(t)`
abbrev pub has_text : String → String → Bool
has_text t s = is_some (find? s t)

-- `parts.join(', ')`
unfoldable pub join_comma : List String → String
join_comma [] = ""
join_comma (p ∷ []) = p
join_comma (p ∷ q ∷ ps) = p <> (", " <> join_comma (q ∷ ps))

abbrev add_letter : Char → List String → List String
add_letter c [] = String.◌∷◌ c "" ∷ []
add_letter c (p ∷ ps) = String.◌∷◌ c p ∷ ps

-- `s.split(', ')`
unfoldable pub split_comma : String → List String
split_comma String.[] = "" ∷ []
split_comma (String.◌∷◌ c String.[]) = String.◌∷◌ c "" ∷ []
split_comma (String.◌∷◌ c (String.◌∷◌ d s)) = elim (code c == b',' && code d == b' ') [
  | true ↦ "" ∷ split_comma s
  | false ↦ add_letter c (split_comma (String.◌∷◌ d s))
]

unfoldable pub format_dn : List DnAttribute → String
unfolding join_comma
format_dn dn = join_comma (map (λ a. get_or a.name a.type <> ("=" <> a.value)) dn)

unfoldable pub cn_from_subject : String → Option String
unfolding split_comma
cn_from_subject subject_dn =
    map_some (λ cn. slice cn 3 (len cn))
      (find (λ part. starts_with part "CN=") (split_comma subject_dn))

module _ (env : CertEnv) where
  -- `entry.type === 1 && typeof entry.value === 'string'`
  abbrev is_email_entry : AltName → Bool
  is_email_entry a = get_or (map_some (λ t. t == 1) a.type) false && is_some a.value

  abbrev alt_email : List AltName → Option String
  alt_email names = elim (find is_email_entry names) [ none ↦ none | some a ↦ a.value ]

  abbrev common_name_email : ForgeCertificate → Option String
  common_name_email c = elim (cn_from_subject (format_dn c.subject)) [
    | none ↦ none
    | some cn ↦ if has_text "@" cn then some (env.lower cn) else none
  ]

  unfoldable pub extract_email : ForgeCertificate → Option String
  extract_email c = elim (alt_email (get_or c.alt_names [])) [
    | none ↦ common_name_email c
    | some e ↦ if str_eq e "" then common_name_email c else some (env.lower e)
  ]

  abbrev normalized : ForgeCertificate → ℕ → ℕ → NormalizedPem
  normalized c not_before not_after = record {
    serial_number = get_or c.serial_number "unknown";
    subject_dn = format_dn c.subject;
    issuer_dn = format_dn c.issuer;
    not_before = not_before;
    not_after = not_after;
    email = extract_email c;
  }

  -- The validity of a parsed certificate, in the order of the source's checks.
  unfoldable pub check_validity : ForgeCertificate → Outcome NormalizedPem
  check_validity c = elim c.not_before [
    | none ↦ throw (bad_request "Certificate validity dates are invalid")
    | some not_before ↦ elim c.not_after [
      | none ↦ throw (bad_request "Certificate validity dates are invalid")
      | some not_after ↦
          if ltb not_after env.now
          then throw (bad_request "Cannot import an expired certificate")
          else ok (normalized c not_before not_after)
    ]
  ]

  unfoldable pub parse_certificate_pem : String → Outcome NormalizedPem
  unfolding check_validity
  parse_certificate_pem pem = elim (env.certificate_from_pem pem) [
    | none ↦ throw (bad_request "Invalid certificate PEM")
    | some c ↦ check_validity c
  ]
