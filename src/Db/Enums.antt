-- ===== src/Db/Enums.antt =====
-- The enums of packages/database/prisma/schema.prisma, with the tests that the code writes as
-- `===` and `includes`.
use signara.Prelude.{Bool, true, false}

pub data DocumentStatus : Type 0 where
  draft awaiting_signature in_progress completed voided cancelled expired : DocumentStatus

pub data SigningMode : Type 0 where
  sequential parallel : SigningMode

pub data SignerRole : Type 0 where
  signer approver cc_recipient : SignerRole

pub data SignerStatus : Type 0 where
  pending invited viewed signed declined rescinded lapsed : SignerStatus

pub data SignatureType : Type 0 where
  typed drawn uploaded certificate : SignatureType

pub data EventType : Type 0 where
  ev_created ev_invited ev_viewed ev_signed ev_declined ev_reminded ev_expired : EventType
  ev_cancelled ev_voided ev_approved ev_rejected ev_downloaded : EventType
  ev_email_failed ev_handed_over : EventType

pub data FieldType : Type 0 where
  ft_signature ft_initial ft_date ft_text ft_checkbox ft_dropdown ft_attachment : FieldType
  ft_name ft_email ft_company ft_job_title ft_phone ft_address ft_custom : FieldType

pub data RuleAction : Type 0 where
  approve route require notify : RuleAction

-- `['AWAITING_SIGNATURE', 'IN_PROGRESS'].includes(status)`
abbrev pub is_active : DocumentStatus → Bool
is_active awaiting_signature = true
is_active in_progress = true
is_active _ = false

abbrev pub is_completed : DocumentStatus → Bool
is_completed completed = true
is_completed _ = false

abbrev pub is_parallel : SigningMode → Bool
is_parallel parallel = true
is_parallel sequential = false

abbrev pub is_sequential : SigningMode → Bool
is_sequential sequential = true
is_sequential parallel = false

abbrev pub is_cc : SignerRole → Bool
is_cc cc_recipient = true
is_cc _ = false

abbrev pub is_signer : SignerRole → Bool
is_signer signer = true
is_signer _ = false

abbrev pub is_approver : SignerRole → Bool
is_approver approver = true
is_approver _ = false

abbrev pub is_pending : SignerStatus → Bool
is_pending pending = true
is_pending _ = false

abbrev pub is_invited : SignerStatus → Bool
is_invited invited = true
is_invited _ = false

abbrev pub is_signed : SignerStatus → Bool
is_signed signed = true
is_signed _ = false

abbrev pub is_declined : SignerStatus → Bool
is_declined declined = true
is_declined _ = false

abbrev pub is_lapsed : SignerStatus → Bool
is_lapsed lapsed = true
is_lapsed _ = false

-- `status === INVITED || status === VIEWED`
abbrev pub is_waiting : SignerStatus → Bool
is_waiting invited = true
is_waiting viewed = true
is_waiting _ = false

abbrev pub is_attachment : FieldType → Bool
is_attachment ft_attachment = true
is_attachment _ = false

abbrev pub is_certificate : SignatureType → Bool
is_certificate certificate = true
is_certificate _ = false

abbrev pub is_signed_event : EventType → Bool
is_signed_event ev_signed = true
is_signed_event _ = false

abbrev pub is_reminded_event : EventType → Bool
is_reminded_event ev_reminded = true
is_reminded_event _ = false
