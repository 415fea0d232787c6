-- ===== src/Domain/Approval.antt =====
-- app/domain/approval.py: the exceptions of the approval step, the idempotency key and the clock
-- helpers.
pub mod Framing
use evidence_flow.Prelude.{ℕ, ◌+◌, List, [], ◌∷◌, ◌++◌, Text, str_of_int, length}

-- `f"{len(part)}:{part}"`
unfoldable pub frame : Text → Text
frame part = str_of_int (length part) ++ 0x3a ∷ part

-- What `idempotency_key` feeds to the digest, update by update.
unfoldable pub key_stream : Text → Text → Text
unfolding frame
key_stream document_id payload_hash = frame document_id ++ frame payload_hash

-- `hashlib.sha256` over the UTF-8 encoding of a text, in hexadecimal, is the parameter `sha256`.
unfoldable pub idempotency_key : (Text → Text) → Text → Text → Text
unfolding key_stream
idempotency_key sha256 document_id payload_hash = sha256 (key_stream document_id payload_hash)
