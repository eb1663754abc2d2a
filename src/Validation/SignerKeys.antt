-- ===== src/Validation/SignerKeys.antt =====
-- The static checks of src/core/validations/key.rs on the bodies that add and remove a key.
use hypersnap.Shared.{ℕ, ◌*◌, ◌||◌, not, List, none, some, ok, err, ltb, length, ◌==◌, ◌>>◌}
use hypersnap.Proto.{KeyAddBody, KeyRemoveBody, message_type_of, none_type, key_add, key_remove}
use hypersnap.Validation.{
  Checked, refuse_if, check_all, is_empty, empty_scopes, too_many_scopes, invalid_scope,
  invalid_key_length, invalid_key_type, missing_deadline, invalid_ttl, invalid_metadata_type,
  missing_metadata, invalid_signature_type,
}

abbrev pub ed25519_public_key_len : ℕ
ed25519_public_key_len = 32

abbrev pub max_key_ttl_seconds : ℕ
max_key_ttl_seconds = 90 * 24 * 60 * 60

-- The number of message types.
abbrev pub max_key_add_scopes : ℕ
max_key_add_scopes = 16

unfoldable pub validate_scope : ℕ → Checked
unfolding message_type_of
validate_scope scope = elim (message_type_of scope) [
  | none ↦ err (invalid_scope scope)
  | some none_type ↦ err (invalid_scope scope)
  | some key_add ↦ err (invalid_scope scope)
  | some key_remove ↦ err (invalid_scope scope)
  | some _ ↦ ok tt
]

unfoldable pub validate_key_add_scopes : List ℕ → Checked
unfolding check_all validate_scope
validate_key_add_scopes scopes =
    refuse_if (is_empty scopes) empty_scopes
    >> refuse_if (ltb max_key_add_scopes (length scopes)) (too_many_scopes max_key_add_scopes)
    >> check_all validate_scope scopes

unfoldable pub validate_key_add_body : KeyAddBody → Checked
unfolding validate_key_add_scopes
validate_key_add_body body =
    refuse_if (not (length body.key == ed25519_public_key_len)) invalid_key_length
    >> refuse_if (not (body.key_type == 1)) invalid_key_type
    >> refuse_if (body.deadline == 0) missing_deadline
    >> refuse_if (body.ttl == 0 || ltb max_key_ttl_seconds body.ttl)
        (invalid_ttl max_key_ttl_seconds)
    >> refuse_if (not (body.metadata_type == 1)) invalid_metadata_type
    >> refuse_if (is_empty body.metadata) missing_metadata
    >> validate_key_add_scopes body.scopes

-- The signature types are custody (1) and self revocation (2).
unfoldable pub validate_key_remove_body : KeyRemoveBody → Checked
validate_key_remove_body body =
    refuse_if (not (length body.key == ed25519_public_key_len)) invalid_key_length
    >> refuse_if (not (body.signature_type == 1 || body.signature_type == 2)) invalid_signature_type
    >> refuse_if (body.deadline == 0) missing_deadline
