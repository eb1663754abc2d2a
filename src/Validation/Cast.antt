-- ===== src/Validation/Cast.antt =====
-- Which cast bodies `validate_cast_add_body` of src/core/validations/cast.rs lets through.
use hypersnap.Shared.{
  ℕ, suc, ◌+◌, ◌^◌, ◌<◌, ◌≤◌, ◌≡◌, refl, ◌↔◌, ◌⊎◌, ap, arith, Bool, true, List, [], ◌∷◌, Option,
  none, some, ok, ◌==◌, length, All, if◌then◌else◌,
}
use hypersnap.Proto.{CastAddBody, Parent, parent_cast_id, parent_url}
use hypersnap.Validation.{
  check_all, is_empty, validate_fid, validate_url, validate_embed, validate_parent,
  validate_cast_type, validate_mentions, cast_add_checks, validate_cast_add_body,
}
use hypersnap.Validation.Bodies.{
  Passes, IsUrl, IsEmbed, IsParent, validate_cast_id-Passes, validate_url-Passes,
  validate_embed-Passes, check_all-Passes, in_turn-Passes,
}

-- The lengths of a text by the type of the cast (0, 1, 2: cast, long cast, 10k cast).
unfoldable pub FitsType : ℕ → ℕ → Bool → Type 0
FitsType type text_length is_pro_user =
    ((type ≡ 0) × (text_length ≤ 320))
    ⊎ ((type ≡ 1) × (320 < text_length) × (text_length ≤ 1024))
    ⊎ ((type ≡ 2) × (is_pro_user ≡ true) × (1024 < text_length) × (text_length ≤ 10000))

validate_cast_type-Passes :
    (type n : ℕ) (pro : Bool) → Passes (validate_cast_type type n pro) ↔ FitsType type n pro
unfolding validate_cast_type FitsType
validate_cast_type-Passes type n pro = ground arith

-- From a least position on, the positions do not fall and do not pass the end.
unfoldable pub AreMentions : ℕ → ℕ → List ℕ → List ℕ → Type 0
AreMentions from end [] [] = Unit
AreMentions from end [] (p ∷ ps) = ⊥
AreMentions from end (fid ∷ fids) [] = ⊥
AreMentions from end (fid ∷ fids) (p ∷ ps) =
    (0 < fid) × (from ≤ p) × (p ≤ end) × AreMentions p end fids ps

abbrev least : Option ℕ → ℕ
least none = 0
least (some p) = p

validate_mentions-Passes :
    (n : ℕ) (prev : Option ℕ) (fids ps : List ℕ)
    → n < 2 ^ 32
    → length fids ≡ length ps
    → Passes (validate_mentions n prev fids ps) ↔ AreMentions (least prev) n fids ps
unfolding validate_mentions validate_fid AreMentions
validate_mentions-Passes n none [] [] small e = ((λ h. tt), λ h. refl)
validate_mentions-Passes n (some p) [] [] small e = ((λ h. tt), λ h. refl)
validate_mentions-Passes n prev [] (p ∷ ps) small e = absurd (ground arith)
validate_mentions-Passes n prev (fid ∷ fids) [] small e = absurd (ground arith)
validate_mentions-Passes n none (fid ∷ fids) (p ∷ ps) small e =
    ground (arith, validate_mentions-Passes n (some p) fids ps small (omega (arith, e)))
validate_mentions-Passes n (some q) (fid ∷ fids) (p ∷ ps) small e =
    ground (arith, validate_mentions-Passes n (some p) fids ps small (omega (arith, e)))

-- A cast as it may be: old embeds (plain texts) where they are allowed, 4 embeds for a pro user, else 2.
pub record IsCastAdd (body : CastAddBody) (old_embeds is_pro_user : Bool) : Type 0 where
  pub fits : FitsType body.type (length body.text) is_pro_user
  pub few_embeds : length body.embeds ≤ (if is_pro_user then 4 else 2)
  pub few_texts : length body.embeds_deprecated ≤ (if old_embeds then 2 else 0)
  pub few_mentions : length body.mentions ≤ 10
  pub one_kind : (length body.embeds ≡ 0) ⊎ (length body.embeds_deprecated ≡ 0)
  pub not_empty :
      0
      < length body.text + length body.embeds + length body.embeds_deprecated + length body.mentions
  pub embeds : All IsEmbed body.embeds
  pub texts : All IsUrl body.embeds_deprecated
  pub mentions : AreMentions 0 (length body.text) body.mentions body.mentions_positions
  pub parent : IsParent body.parent

parent-Passes :
    (p : Option Parent) → Passes (elim p [ none ↦ ok tt | some q ↦ validate_parent q ]) ↔ IsParent p
unfolding validate_parent IsParent
parent-Passes none = ((λ h. tt), λ h. refl)
parent-Passes (some (parent_cast_id id)) = validate_cast_id-Passes id
parent-Passes (some (parent_url text)) = validate_url-Passes text

AreMentions-length :
    (from end : ℕ) (fids ps : List ℕ) → AreMentions from end fids ps → length fids ≡ length ps
unfolding AreMentions
AreMentions-length from end [] [] h = refl
AreMentions-length from end [] (p ∷ ps) h = absurd h
AreMentions-length from end (fid ∷ fids) [] h = absurd h
AreMentions-length from end (fid ∷ fids) (p ∷ ps) (a, b, c, h) =
    ap suc (AreMentions-length p end fids ps h)

is_empty-length : {A : Type 0} (xs : List A) → is_empty xs ≡ (length xs == 0)
is_empty-length [] = refl
is_empty-length (x ∷ xs) = ground arith

-- A cast body with a text shorter than 2^32 bytes passes `validate_cast_add_body` exactly if its
-- text fits its type, its embeds and mentions are few enough and valid, it has embeds of one kind
-- only and is not empty, its mentions are at positions that do not fall and lie in the text, one
-- position to each, and its parent is valid.
pub validate_cast_add_body-Passes :
    (body : CastAddBody) (old_embeds pro : Bool)
    → length body.text < 2 ^ 32
    → Passes (validate_cast_add_body body old_embeds pro) ↔ IsCastAdd body old_embeds pro
unfolding validate_cast_add_body cast_add_checks
validate_cast_add_body-Passes body old_embeds pro small = (forth, back)
  where
    texts :
        Passes (check_all validate_url body.embeds_deprecated) ↔ All IsUrl body.embeds_deprecated
    texts = check_all-Passes validate_url IsUrl body.embeds_deprecated validate_url-Passes

    embeds : Passes (check_all validate_embed body.embeds) ↔ All IsEmbed body.embeds
    embeds = check_all-Passes validate_embed IsEmbed body.embeds validate_embed-Passes

    mentions :
        length body.mentions ≡ length body.mentions_positions
        → Passes (validate_mentions (length body.text) none body.mentions body.mentions_positions)
          ↔ AreMentions 0 (length body.text) body.mentions body.mentions_positions
    mentions =
        validate_mentions-Passes (length body.text) none body.mentions body.mentions_positions small

    forth : Passes (validate_cast_add_body body old_embeds pro) → IsCastAdd body old_embeds pro
    forth h =
        let (a1, (a2, (a3, (a4, (a5, (a6, (a7, (a8, (a9, (a10, (a11, (a12, end)))))))))))) =
          (in_turn-Passes (cast_add_checks body old_embeds pro)).0 h in
        record {
          fits = (validate_cast_type-Passes body.type (length body.text) pro).0 a1;
          few_embeds = ground (arith, a2);
          few_texts = ground (arith, a3, a4, is_empty-length body.embeds_deprecated);
          few_mentions = ground (arith, a5);
          one_kind =
              ground
                (arith, a7, is_empty-length body.embeds, is_empty-length body.embeds_deprecated);
          not_empty = ground (
            arith,
            a8,
            is_empty-length body.text,
            is_empty-length body.embeds,
            is_empty-length body.embeds_deprecated,
            is_empty-length body.mentions,
          );
          embeds = embeds.0 a9;
          texts = texts.0 a10;
          mentions = (mentions (ground (arith, a6))).0 a11;
          parent = (parent-Passes body.parent).0 a12;
        }

    back : IsCastAdd body old_embeds pro → Passes (validate_cast_add_body body old_embeds pro)
    back h =
        let same =
          AreMentions-length 0 (length body.text) body.mentions body.mentions_positions
            h.mentions in
        (in_turn-Passes (cast_add_checks body old_embeds pro)).1 (
          (validate_cast_type-Passes body.type (length body.text) pro).1 h.fits,
          (
            ground (arith, h.few_embeds),
            (
              ground (arith, h.few_texts),
              (
                ground (arith, h.few_texts, is_empty-length body.embeds_deprecated),
                (
                  ground (arith, h.few_mentions),
                  (
                    ground (arith, same),
                    (
                      ground (
                        arith,
                        h.one_kind,
                        is_empty-length body.embeds,
                        is_empty-length body.embeds_deprecated,
                      ),
                      (
                        ground (
                          arith,
                          h.not_empty,
                          is_empty-length body.text,
                          is_empty-length body.embeds,
                          is_empty-length body.embeds_deprecated,
                          is_empty-length body.mentions,
                        ),
                        (
                          embeds.1 h.embeds,
                          (
                            texts.1 h.texts,
                            (
                              (mentions same).1 h.mentions,
                              ((parent-Passes body.parent).1 h.parent, tt),
                            ),
                          ),
                        ),
                      ),
                    ),
                  ),
                ),
              ),
            ),
          ),
        )
