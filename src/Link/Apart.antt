-- ===== src/Link/Apart.antt =====
-- Which links share a key of src/storage/store/account/link_store.rs: the type is filled up with zero bytes, so that
-- it stands in the key without those at its end.
use hypersnap.Shared.{
  ℕ, zero, suc, ◌^◌, ◌<◌, ◌≤◌, ◌≡◌, refl, sym, ap, ◌∙◌, ◌↔◌, [], ◌∷◌, ◌++◌, Result, ok, Error,
  arith, length, drop, ◌==◌, if◌then◌else◌,
}
use hypersnap.Bytes.{Bytes}
use hypersnap.Proto.{Message}
use hypersnap.Keys.{make_user_key_with_prefix, make_fid_key}
use hypersnap.Keys.BigEndian.{be_bytes_4}
use hypersnap.Keys.Prefix.{StateContext, root_prefix, user, postfix_u8, link_adds, link_removes}
use hypersnap.Link.{resize, make_add_key, make_remove_key}
use hypersnap.Link.Keys.{IsLink, slot_key, add_key_eq, remove_key_eq}

-- The bytes without the zero bytes at their end.
abbrev pub trim : Bytes → Bytes
trim [] = []
trim (b ∷ bs) = elim (trim bs) [ [] ↦ if b == 0 then [] else b ∷ [] | c ∷ cs ↦ b ∷ c ∷ cs ]

length-resize : (n : ℕ) (a : Bytes) → length (resize n a) ≡ n
unfolding resize
length-resize zero a = refl
length-resize (suc n) [] = omega (arith, length-resize n [])
length-resize (suc n) (b ∷ bs) = omega (arith, length-resize n bs)

trim-resize : (n : ℕ) (a : Bytes) → length a ≤ n → trim (resize n a) ≡ trim a
unfolding resize
trim-resize zero [] h = refl
trim-resize zero (b ∷ bs) h = absurd (omega (arith, h))
trim-resize (suc n) [] h = ground (arith, trim-resize n [])
trim-resize (suc n) (b ∷ bs) h = rw (trim-resize n bs (omega (arith, h))) refl

resize-trim : (n : ℕ) (a : Bytes) → resize n (trim a) ≡ resize n a
unfolding resize
resize-trim zero a = refl
resize-trim (suc n) [] = refl
resize-trim (suc n) (b ∷ bs) = ground (arith, resize-trim n bs)

-- Types that are filled up to the same are the same but for zero bytes at their end.
resize-eq :
    (n : ℕ) (a b : Bytes)
    → length a ≤ n
    → length b ≤ n
    → (resize n a ≡ resize n b) ↔ (trim a ≡ trim b)
resize-eq n a b ha hb = (
  λ e. sym (trim-resize n a ha) ∙ ap trim e ∙ trim-resize n b hb,
  λ e. sym (resize-trim n a) ∙ ap (resize n) e ∙ resize-trim n b,
)

append_inj : (a b c d : Bytes) → length a ≡ length b → a ++ c ≡ b ++ d → (a ≡ b) × (c ≡ d)
append_inj [] [] c d h e = (refl, e)
append_inj [] (y ∷ b) c d h e = absurd (omega (arith, h))
append_inj (x ∷ a) [] c d h e = absurd (omega (arith, h))
append_inj (x ∷ a) (y ∷ b) c d h e =
    let (same, rest) = append_inj a b c d (omega (arith, h)) (cc) in (cc, rest)

fid_key_inj : (a b : ℕ) → a < 2 ^ 32 → b < 2 ^ 32 → make_fid_key a ≡ make_fid_key b → a ≡ b
unfolding make_fid_key be_bytes_4
fid_key_inj a b ha hb e = ground (arith, e)

length-fid_key : (a : ℕ) → length (make_fid_key a) ≡ 4
unfolding make_fid_key be_bytes_4
length-fid_key a = refl

slot_key_inj :
    (set : ℕ) (ctx : StateContext) (fid fid' : ℕ) (type type' : Bytes) (target target' : ℕ)
    → fid < 2 ^ 32
    → fid' < 2 ^ 32
    → target < 2 ^ 32
    → target' < 2 ^ 32
    → length type ≤ 8
    → length type' ≤ 8
    → slot_key set ctx fid type target ≡ slot_key set ctx fid' type' target'
    → (fid ≡ fid') × (trim type ≡ trim type') × (target ≡ target')
unfolding make_user_key_with_prefix
slot_key_inj set ctx fid fid' type type' target target' hf hf' ht ht' short short' e =
    let (users, rest) =
      append_inj (make_user_key_with_prefix (root_prefix ctx user) fid)
        (make_user_key_with_prefix (root_prefix ctx user) fid')
        (set ∷ (resize 8 type ++ make_fid_key target))
        (set ∷ (resize 8 type' ++ make_fid_key target'))
        (omega (arith, length-fid_key fid, length-fid_key fid')) e in
    let (types, targets) =
      append_inj (resize 8 type) (resize 8 type') (make_fid_key target) (make_fid_key target')
        (omega (arith, length-resize 8 type, length-resize 8 type')) (ap (drop 1) rest) in
    (
      fid_key_inj fid fid' hf hf' (ap (drop 1) users),
      (resize-eq 8 type type' short short').0 types,
      fid_key_inj target target' ht ht' targets,
    )

-- For well-formed links (with types of 1 to 8 bytes) of users and to targets of 32 bits, the keys
-- of two links in the set of adds are the same exactly if the user, the target and the types
-- without the zero bytes at their ends are the same, and so are their keys in the set of removes.
pub link_keys_shared :
    (m m' : Message) (ctx : StateContext) (fid fid' at at' : ℕ) (type type' : Bytes)
    (target target' kind kind' : ℕ)
    → IsLink m fid at type target kind
    → IsLink m' fid' at' type' target' kind'
    → fid < 2 ^ 32
    → fid' < 2 ^ 32
    → target < 2 ^ 32
    → target' < 2 ^ 32
    → ((make_add_key m ctx ≡ make_add_key m' ctx)
        ↔ ((fid ≡ fid') × (trim type ≡ trim type') × (target ≡ target')))
      × ((make_remove_key m ctx ≡ make_remove_key m' ctx)
          ↔ ((fid ≡ fid') × (trim type ≡ trim type') × (target ≡ target')))
link_keys_shared m m' ctx fid fid' at at' type type' target target' kind kind' link link' hf hf' ht
      ht' =
    (
      (
        λ e. apart (postfix_u8 link_adds) (
            ok_inj (
              sym (add_key_eq m ctx fid at type target kind link)
              ∙ e
              ∙ add_key_eq m' ctx fid' at' type' target' kind' link')),
        λ same.
            add_key_eq m ctx fid at type target kind link
            ∙ ap ok (shared (postfix_u8 link_adds) same)
            ∙ sym (add_key_eq m' ctx fid' at' type' target' kind' link'),
      ),
      (
        λ e. apart (postfix_u8 link_removes) (
            ok_inj (
              sym (remove_key_eq m ctx fid at type target kind link)
              ∙ e
              ∙ remove_key_eq m' ctx fid' at' type' target' kind' link')),
        λ same.
            remove_key_eq m ctx fid at type target kind link
            ∙ ap ok (shared (postfix_u8 link_removes) same)
            ∙ sym (remove_key_eq m' ctx fid' at' type' target' kind' link'),
      ),
    )
  where
    ok_inj : {x y : Bytes} → ◌≡◌ {A = Result Error Bytes} (ok x) (ok y) → x ≡ y
    ok_inj h = cc

    apart :
        (set : ℕ)
        → slot_key set ctx fid type target ≡ slot_key set ctx fid' type' target'
        → (fid ≡ fid') × (trim type ≡ trim type') × (target ≡ target')
    apart set e =
        slot_key_inj set ctx fid fid' type type' target target' hf hf' ht ht' link.short link'.short
          e

    shared :
        (set : ℕ)
        → (fid ≡ fid') × (trim type ≡ trim type') × (target ≡ target')
        → slot_key set ctx fid type target ≡ slot_key set ctx fid' type' target'
    shared set (users, types, targets) =
        rw (users, (resize-eq 8 type type' link.short link'.short).1 types, targets) refl
