-- ===== src/Domain/Approval/Framing.antt =====
-- The length-prefixed framing of `idempotency_key` is unambiguous.
use mathlib.Core.List.{append_assoc}
use evidence_flow.Prelude.{
  ◌≡◌, refl, sym, ap, ◌∙◌, [], ◌∷◌, ◌++◌, arith, Text, str_of_int, str_of_int-IsDigit,
  str_of_int_injective, IsDigit, All, length,
}
use evidence_flow.Domain.Approval.{frame, key_stream, idempotency_key}

-- Two texts with no colon in them, each ended by one, are told apart.
split_at_colon :
    (d e : Text) (r s : Text)
    → All IsDigit d
    → All IsDigit e
    → d ++ 0x3a ∷ r ≡ e ++ 0x3a ∷ s
    → (d ≡ e) × (r ≡ s)
split_at_colon [] [] r s hd he h = (refl, cc)
split_at_colon [] (y ∷ e) r s hd he h = absurd (ground arith)
split_at_colon (x ∷ d) [] r s hd he h = absurd (ground arith)
split_at_colon (x ∷ d) (y ∷ e) r s hd he h =
    let (p, q) = split_at_colon d e r s hd.1 he.1 (cc) in (cc, q)

append_injective :
    (a b : Text) (r s : Text) → length a ≡ length b → a ++ r ≡ b ++ s → (a ≡ b) × (r ≡ s)
append_injective [] [] r s l h = (refl, h)
append_injective [] (y ∷ b) r s l h = absurd (omega arith)
append_injective (x ∷ a) [] r s l h = absurd (omega arith)
append_injective (x ∷ a) (y ∷ b) r s l h =
    let (p, q) = append_injective a b r s (omega arith) (cc) in (cc, q)

frame_split : (a b : Text) (r s : Text) → frame a ++ r ≡ frame b ++ s → (a ≡ b) × (r ≡ s)
unfolding frame
frame_split a b r s h =
    let (d, rest) =
      split_at_colon (str_of_int (length a)) (str_of_int (length b)) (a ++ r) (b ++ s)
        (str_of_int-IsDigit (length a)) (str_of_int-IsDigit (length b))
        (sym (append_assoc (str_of_int (length a)) (0x3a ∷ a) r)
          ∙ h
          ∙ append_assoc (str_of_int (length b)) (0x3a ∷ b) s) in
    append_injective a b r s (str_of_int_injective _ _ d) rest

-- Two pairs of parts that feed the same text to the digest are the same pair: no choice of the
-- second part can make up for another first part.
pub key_stream_injective :
    (a b : Text) (p q : Text) → key_stream a p ≡ key_stream b q → (a ≡ b) × (p ≡ q)
unfolding key_stream
key_stream_injective a b p q h =
    let (e, rest) = frame_split a b (frame p) (frame q) h in
    (e, (frame_split p q [] [] (ap (λ t. t ++ []) rest)).0)

-- With a digest that has no collision, two documents or two payloads never share an idempotency
-- key.
pub idempotency_key_injective :
    (sha256 : Text → Text)
    → ((s t : Text) → sha256 s ≡ sha256 t → s ≡ t)
    → (a b p q : Text) → idempotency_key sha256 a p ≡ idempotency_key sha256 b q
    → (a ≡ b) × (p ≡ q)
unfolding idempotency_key
idempotency_key_injective sha256 no_collision a b p q h =
    key_stream_injective a b p q (no_collision _ _ h)
