-- ===== src/Limits.antt =====
-- The bounds of packages/shared/src/constants.ts that the tool framework uses, lengths in UTF-16
-- code units and times in milliseconds.
use besterp.Prelude.{ℕ}

abbrev pub max_user_id_length : ℕ
max_user_id_length = 200

abbrev pub max_agent_id_length : ℕ
max_agent_id_length = 200

abbrev pub max_conversation_id_length : ℕ
max_conversation_id_length = 200

abbrev pub max_tenant_id_length : ℕ
max_tenant_id_length = 100

abbrev pub max_idempotency_key_length : ℕ
max_idempotency_key_length = 500

abbrev pub idempotency_ttl_ms : ℕ
idempotency_ttl_ms = 86_400_000

abbrev pub idempotency_max_retries : ℕ
idempotency_max_retries = 3

abbrev pub min_confirmation_length : ℕ
min_confirmation_length = 10

abbrev pub max_confirmation_length : ℕ
max_confirmation_length = 500

abbrev pub idempotency_stale_pending_threshold_ms : ℕ
idempotency_stale_pending_threshold_ms = 60_000

abbrev pub max_concurrent_audit_writes : ℕ
max_concurrent_audit_writes = 100

abbrev pub max_audit_queue_size : ℕ
max_audit_queue_size = 1000

abbrev pub max_soft_failure_message_size : ℕ
max_soft_failure_message_size = 4096

abbrev pub max_error_message_length : ℕ
max_error_message_length = 2000

abbrev pub max_party_name_length : ℕ
max_party_name_length = 500

abbrev pub max_party_description_length : ℕ
max_party_description_length = 1000

abbrev pub max_person_name_length : ℕ
max_person_name_length = 200

abbrev pub max_middle_name_length : ℕ
max_middle_name_length = 100

abbrev pub max_legal_name_length : ℕ
max_legal_name_length = 500

abbrev pub max_tax_id_length : ℕ
max_tax_id_length = 50

abbrev pub max_role_type_length : ℕ
max_role_type_length = 100

abbrev pub max_party_type_length : ℕ
max_party_type_length = 50

abbrev pub max_contact_mechanism_type_length : ℕ
max_contact_mechanism_type_length = 50

abbrev pub max_address_line_length : ℕ
max_address_line_length = 200

abbrev pub max_city_length : ℕ
max_city_length = 100

abbrev pub max_state_province_length : ℕ
max_state_province_length = 100

abbrev pub max_postal_code_length : ℕ
max_postal_code_length = 20

abbrev pub max_country_code_length : ℕ
max_country_code_length = 3

abbrev pub min_country_code_length : ℕ
min_country_code_length = 2

abbrev pub max_area_code_length : ℕ
max_area_code_length = 10

abbrev pub max_line_number_length : ℕ
max_line_number_length = 20

abbrev pub max_extension_length : ℕ
max_extension_length = 10

abbrev pub max_phone_country_code_length : ℕ
max_phone_country_code_length = 4

abbrev pub max_email_length : ℕ
max_email_length = 254

abbrev pub max_gender_length : ℕ
max_gender_length = 50

abbrev pub max_date_string_length : ℕ
max_date_string_length = 32

abbrev pub default_search_limit : ℕ
default_search_limit = 50

abbrev pub max_search_limit : ℕ
max_search_limit = 500

abbrev pub min_search_limit : ℕ
min_search_limit = 1

abbrev pub min_search_offset : ℕ
min_search_offset = 0

abbrev pub max_search_offset : ℕ
max_search_offset = 10_000

abbrev pub max_stored_payload_size : ℕ
max_stored_payload_size = 65_536

abbrev pub truncate_preview_bytes : ℕ
truncate_preview_bytes = 1024

abbrev pub max_nesting_depth : ℕ
max_nesting_depth = 100
