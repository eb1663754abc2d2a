-- ===== src/Validation/Ens.antt =====
-- Which names `validate_ens_name` and `validate_base_name` of src/core/validations/message.rs let through.
use hypersnap.Shared.{
  ℕ, suc, ◌+◌, ◌-◌, ◌<◌, ◌≤◌, ◌≡◌, ◌≢◌, refl, sym, ap, ◌∙◌, ◌↔◌, arith, true, false, List, [], ◌∷◌,
  ◌++◌, some, length, length-append, drop-append, take-append-drop, take, drop, All,
}
use hypersnap.Bytes.{Bytes}
use hypersnap.Database.{bytes_eq}
use hypersnap.Database.Laws.{bytes_eq_refl, bytes_eq_iff}
use hypersnap.Validation.{is_empty}
use hypersnap.Validation.Bodies.{Passes}
use hypersnap.Validation.Names.{
  TextCrates, dot, eth, base, eth_ending, base_ending, fname_regex, ends_with, onto_first, split,
  first_part, matches, validate_ens_name, validate_base_name,
}

abbrev pub Without : ℕ → Bytes → Type 0
Without c text = All (λ b. b ≢ c) text

ends_with_eq :
    (text ending : Bytes) → ends_with text ending ≡ true → (pre : Bytes) × (text ≡ pre ++ ending)
unfolding ends_with
ends_with_eq text ending h =
    let n = length text - length ending in
    (
      take n text,
      sym (take-append-drop n text)
          ∙ ap (λ x. take n text ++ x) ((bytes_eq_iff (drop n text) ending).0 h),
    )

eq_ends_with : (pre ending : Bytes) → ends_with (pre ++ ending) ending ≡ true
unfolding ends_with
eq_ends_with pre ending =
    ap (λ k. bytes_eq (drop k (pre ++ ending)) ending) {x = length (pre ++ ending) - length ending}
      {y = length pre} (omega (arith, length-append pre ending))
    ∙ ap (λ x. bytes_eq x ending) (drop-append pre ending)
    ∙ bytes_eq_refl ending

onto_first-append :
    (b : ℕ) (xs ys : List Bytes) → xs ≢ [] → onto_first b (xs ++ ys) ≡ onto_first b xs ++ ys
onto_first-append b [] ys h = absurd (h refl)
onto_first-append b (x ∷ xs) ys h = refl

onto_first_filled : (b : ℕ) (xs : List Bytes) → onto_first b xs ≢ []
onto_first_filled b [] = λ e. cc
onto_first_filled b (x ∷ xs) = λ e. cc

split_filled : (c : ℕ) (text : Bytes) → split c text ≢ []
unfolding split
split_filled c [] = λ e. cc
split_filled c (b ∷ bs) = ground (arith, onto_first_filled b (split c bs))

split-append : (c : ℕ) (pre rest : Bytes) → split c (pre ++ c ∷ rest) ≡ split c pre ++ split c rest
unfolding split
split-append c [] rest = ground arith
split-append c (b ∷ pre) rest =
    let e = split-append c pre rest in
    ground (
      arith,
      e,
      ap (onto_first b) e,
      onto_first-append b (split c pre) (split c rest) (split_filled c pre),
    )

length-filled : (xs : List Bytes) → xs ≢ [] → 0 < length xs
length-filled [] h = absurd (h refl)
length-filled (x ∷ xs) h = omega arith

length-onto_first : (b : ℕ) (xs : List Bytes) → xs ≢ [] → length (onto_first b xs) ≡ length xs
length-onto_first b [] h = absurd (h refl)
length-onto_first b (x ∷ xs) h = refl

-- A text of one part is that part, and has no separator.
one_part :
    (c : ℕ) (text : Bytes) → length (split c text) ≡ 1 → (split c text ≡ text ∷ []) × Without c text
unfolding split
one_part c [] h = (refl, tt)
one_part c (b ∷ bs) h =
    let filled = split_filled c bs in
    ground (
      arith,
      one_part c bs,
      length-filled (split c bs) filled,
      length-onto_first b (split c bs) filled,
      ap (onto_first b),
    )

split-Without : (c : ℕ) (text : Bytes) → Without c text → split c text ≡ text ∷ []
unfolding split
split-Without c [] h = refl
split-Without c (b ∷ bs) h = ground (arith, h.0, ap (onto_first b) (split-Without c bs h.1))

-- A name, and an ending after it, of a length and a form as fnames have.
unfoldable pub IsNameWith : TextCrates → Bytes → Bytes → Type 0
IsNameWith crates ending input =
    (name : Bytes) × (input ≡ name ++ ending)
    × Without dot name
    × (0 < length name)
    × (length name ≤ 16)
    × (crates.is_match fname_regex name ≡ some true)

-- The answers of the checks that the two functions share.
unfoldable Parts : TextCrates → Bytes → Bytes → ℕ → Type 0
Parts crates ending input n =
    (ends_with input ending ≡ true)
    × (length (split dot input) ≡ n)
    × (is_empty (first_part (split dot input)) ≡ false)
    × (length input ≤ 16 + length ending)
    × (crates.is_match fname_regex (first_part (split dot input)) ≡ some true)

ens_name-Parts :
    (crates : TextCrates) (input : Bytes)
    → Passes (validate_ens_name crates input) ↔ Parts crates eth_ending input 2
unfolding validate_ens_name matches Parts
ens_name-Parts crates input = ground arith

base_name-Parts :
    (crates : TextCrates) (input : Bytes)
    → Passes (validate_base_name crates input) ↔ Parts crates base_ending input 3
unfolding validate_base_name matches Parts
base_name-Parts crates input = ground arith

is_empty_iff : (xs : Bytes) → (is_empty xs ≡ false) ↔ (0 < length xs)
is_empty_iff [] = ground arith
is_empty_iff (x ∷ xs) = ground arith

-- An input of as many parts as the ending has with one more, from the name and back.
Parts-of_name :
    (crates : TextCrates) (rest input : Bytes) (k : ℕ)
    → length (split dot rest) ≡ k
    → Parts crates (dot ∷ rest) input (suc k) ↔ IsNameWith crates (dot ∷ rest) input
unfolding Parts IsNameWith
Parts-of_name crates rest input k size = (forth, back)
  where
    forth : Parts crates (dot ∷ rest) input (suc k) → IsNameWith crates (dot ∷ rest) input
    forth (ends, count, filled, short, match) =
        let (name, e) = ends_with_eq input (dot ∷ rest) ends in
        let parts : split dot input ≡ split dot name ++ split dot rest =
          ap (split dot) e ∙ split-append dot name rest in
        let (alone, without) = one_part dot name (
          omega (
            arith,
            ap length parts,
            length-append (split dot name) (split dot rest),
            count,
            size,
          )) in
        let whole : split dot input ≡ name ∷ split dot rest =
          parts ∙ ap (λ x. x ++ split dot rest) alone in
        (
          name,
          e,
          without,
          (is_empty_iff name).0 (sym (ap (λ x. is_empty (first_part x)) whole) ∙ filled),
          omega (arith, ap length e, length-append name (dot ∷ rest), short),
          sym (ap (λ x. crates.is_match fname_regex (first_part x)) whole) ∙ match,
        )

    back : IsNameWith crates (dot ∷ rest) input → Parts crates (dot ∷ rest) input (suc k)
    back (name, e, without, filled, short, match) =
        let parts : split dot input ≡ (name ∷ []) ++ split dot rest =
          ap (split dot) e
          ∙ split-append dot name rest
          ∙ ap (λ x. x ++ split dot rest) (split-Without dot name without) in
        (
          ap (λ x. ends_with x (dot ∷ rest)) e ∙ eq_ends_with name (dot ∷ rest),
          omega (arith, ap length parts, size),
          ap (λ x. is_empty (first_part x)) parts ∙ (is_empty_iff name).1 filled,
          omega (arith, ap length e, length-append name (dot ∷ rest), short),
          ap (λ x. crates.is_match fname_regex (first_part x)) parts ∙ match,
        )

-- The names that `validate_ens_name` and `validate_base_name` let through are exactly a name of 1
-- to 16 bytes without a dot, which matches the pattern of fnames, followed by .eth or .base.eth.
pub validate_names-Passes :
    (crates : TextCrates) (input : Bytes)
    → (Passes (validate_ens_name crates input) ↔ IsNameWith crates eth_ending input)
      × (Passes (validate_base_name crates input) ↔ IsNameWith crates base_ending input)
unfolding split
validate_names-Passes crates input = (
  chain (ens_name-Parts crates input) (Parts-of_name crates eth input 1 refl),
  chain (base_name-Parts crates input) (Parts-of_name crates (base ++ eth_ending) input 2 refl),
)
  where
    chain : {A B C : Type 0} → A ↔ B → B ↔ C → A ↔ C
    chain f g = ((λ a. g.0 (f.0 a)), λ c. f.1 (g.1 c))
