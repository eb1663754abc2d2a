-- ===== src/Validation/Bodies.antt =====
-- What the checks on ids, texts, targets and lists of them let through, as predicates.
use hypersnap.Shared.{
  ℕ, zero, suc, ◌<◌, ◌≤◌, ◌≡◌, refl, ◌↔◌, arith, Bool, true, false, List, [], ◌∷◌, Option, none,
  some, ok, err, length, All, ◌>>◌,
}
use hypersnap.Bytes.{Bytes}
use hypersnap.Proto.{
  CastId, Embed, url, cast_id, Parent, parent_cast_id, parent_url, ReactionTarget, target_cast_id,
  target_url,
}
use hypersnap.Validation.{
  ValidationError, Checked, refuse_if, check_all, in_turn, validate_fid, validate_cast_id,
  validate_url, validate_embed, validate_target,
}

abbrev pub Passes : Checked → Type 0
Passes c = c ≡ ok tt

pub refuse_if-Passes : (b : Bool) (e : ValidationError) → Passes (refuse_if b e) ↔ (b ≡ false)
refuse_if-Passes true e = ground arith
refuse_if-Passes false e = ground arith

pub both-Passes : (a b : Checked) → Passes (a >> b) ↔ (Passes a × Passes b)
both-Passes (ok tt) b = ((λ h. (refl, h)), λ h. h.1)
both-Passes (err e) b = ground arith

abbrev pub IsUrl : Bytes → Type 0
IsUrl text = (0 < length text) × (length text ≤ 256)

abbrev pub IsCastId : CastId → Type 0
IsCastId id = (0 < id.fid) × (length id.hash ≡ 20)

pub validate_fid-Passes : (fid : ℕ) → Passes (validate_fid fid) ↔ (0 < fid)
unfolding validate_fid
validate_fid-Passes zero = ground arith
validate_fid-Passes (suc n) = ground arith

pub validate_cast_id-Passes : (id : CastId) → Passes (validate_cast_id id) ↔ IsCastId id
unfolding validate_cast_id validate_fid
validate_cast_id-Passes id = ground arith

pub validate_url-Passes : (text : Bytes) → Passes (validate_url text) ↔ IsUrl text
unfolding validate_url
validate_url-Passes [] = ground arith
validate_url-Passes (b ∷ bs) = ground arith

unfoldable pub IsEmbed : Option Embed → Type 0
IsEmbed none = ⊥
IsEmbed (some (url text)) = IsUrl text
IsEmbed (some (cast_id id)) = IsCastId id

pub validate_embed-Passes : (e : Option Embed) → Passes (validate_embed e) ↔ IsEmbed e
unfolding validate_embed IsEmbed
validate_embed-Passes none = ground arith
validate_embed-Passes (some (url text)) = validate_url-Passes text
validate_embed-Passes (some (cast_id id)) = validate_cast_id-Passes id

unfoldable pub IsParent : Option Parent → Type 0
IsParent none = Unit
IsParent (some (parent_cast_id id)) = IsCastId id
IsParent (some (parent_url text)) = IsUrl text

unfoldable pub IsTarget : ReactionTarget → Type 0
IsTarget (target_cast_id id) = IsCastId id
IsTarget (target_url text) = IsUrl text

pub validate_target-Passes : (t : ReactionTarget) → Passes (validate_target t) ↔ IsTarget t
unfolding validate_target IsTarget
validate_target-Passes (target_cast_id id) = validate_cast_id-Passes id
validate_target-Passes (target_url text) = validate_url-Passes text

pub check_all-Passes :
    {A : Type 0} (f : A → Checked) (P : A → Type 0) (xs : List A)
    → ((x : A) → Passes (f x) ↔ P x)
    → Passes (check_all f xs) ↔ All P xs
unfolding check_all
check_all-Passes f P [] each = ((λ h. tt), λ h. refl)
check_all-Passes f P (x ∷ xs) each =
    let both = both-Passes (f x) (check_all f xs) in
    let rest = check_all-Passes f P xs each in
    (
      (λ h. ((each x).0 (both.0 h).0, rest.0 (both.0 h).1)),
      λ h. both.1 ((each x).1 h.0, rest.1 h.1),
    )

pub in_turn-Passes : (checks : List Checked) → Passes (in_turn checks) ↔ All Passes checks
unfolding in_turn
in_turn-Passes [] = ((λ h. tt), λ h. refl)
in_turn-Passes (c ∷ checks) =
    let both = both-Passes c (in_turn checks) in
    let rest = in_turn-Passes checks in
    ((λ h. ((both.0 h).0, rest.0 (both.0 h).1)), λ h. both.1 (h.0, rest.1 h.1))
