-- ===== src/Store/Merge/Compact/Scan.antt =====
-- What the scan of `merge_compact_state` finds, against a description that looks at every message.
use mathlib.Core.Path.{subst}
use hypersnap.Shared.{
  ℕ, not, ◌∙◌, ◌⊎◌, ◌≢◌, ◌==◌, true, false, Option, none, some, ◌≤◌, ◌<◌, ◌≡◌, refl, List, [], ◌∷◌,
  ok, arith, ltb, ltb→lt, Bool-cases, inl, inr, All,
}
use hypersnap.Bytes.{Bytes}
use hypersnap.Proto.{Message, MessageData, LinkBody, Body, link_body}
use hypersnap.Store.Merge.{contains, link_target}
use hypersnap.Store.Types.{Store}
use hypersnap.Store.Codec.{message_decode}
use hypersnap.Store.Merge.Compact.{timestamp_of, superseded, is_superseded}

-- A message of the database, with its timestamp.
abbrev pub Dated : Type 0
Dated = ℕ × Message

abbrev pub Holds : Store → List (Bytes × Bytes) → List Dated → Type 0
Holds s [] [] = Unit {0}
Holds s [] (d ∷ ds) = ⊥
Holds s (e ∷ es) [] = ⊥
Holds s ((key, value) ∷ es) ((time, message) ∷ ds) =
    (message_decode s.protobuf value ≡ ok message)
    × (timestamp_of message ≡ ok time)
    × Holds s es ds

abbrev pub InOrder : List Dated → Type 0
InOrder [] = Unit {0}
InOrder ((time, message) ∷ ds) = All (λ (d : Dated). time ≤ d.0) ds × InOrder ds

-- A remove; or an add, and no remove, that is aimed at a fid outside the targets.
abbrev pub IsReplaced : Store → List ℕ → Message → Type 0
IsReplaced s target_fids message =
    (s.store_def.is_remove_type message ≡ true)
    ⊎ ((s.store_def.is_remove_type message ≡ false)
        × (s.store_def.is_add_type message ≡ true)
        × (d : MessageData) × (body : LinkBody) × (target_fid : ℕ) × (message.message_data ≡ some d)
        × (d.body ≡ some (link_body body))
        × (body.target_fid ≡ some target_fid)
        × All (λ f. f ≢ target_fid) target_fids)

-- Such a message of the compact state's timestamp or an earlier one.
abbrev pub IsSuperseded : Store → ℕ → List ℕ → Dated → Type 0
IsSuperseded s timestamp target_fids (time, message) =
    (time ≤ timestamp) × IsReplaced s target_fids message

-- The messages for which `P` holds, and no others, in their order.
pub data Picks (P : Dated → Type 0) : List Dated → List Message → Type 0 where
  none_left : Picks P [] []
  picked :
      {time : ℕ} {message : Message} {ds : List Dated} {found : List Message}
      → P (time, message)
      → Picks P ds found
      → Picks P ((time, message) ∷ ds) (message ∷ found)
  passed :
      {d : Dated} {ds : List Dated} {found : List Message}
      → ¬ P d
      → Picks P ds found
      → Picks P (d ∷ ds) found

contains-All :
    (fs : List ℕ) (f : ℕ)
    → ((contains fs f ≡ false) × All (λ g. g ≢ f) fs)
      ⊎ ((contains fs f ≡ true) × ¬ All (λ g. g ≢ f) fs)
unfolding contains
contains-All [] f = inl (refl, tt)
contains-All (g ∷ fs) f = elim (Bool-cases (g == f)) [
  | inl same ↦ inr (ground (arith, same), λ all. all.0 (ground (arith, same)))
  | inr differ ↦ elim (contains-All fs f) [
    | inl (out, all) ↦ inl (ground (arith, differ, out), ((λ e. ground (arith, differ, e)), all))
    | inr (there, some') ↦ inr (ground (arith, there), λ all. some' all.1)
  ]
]

-- The fid that a message points to, if it is a link with a target.
abbrev AimsAt : Option MessageData → ℕ → Type 0
AimsAt o target_fid =
    (d : MessageData) × (body : LinkBody) × (o ≡ some d)
    × (d.body ≡ some (link_body body))
    × (body.target_fid ≡ some target_fid)

abbrev target_in : Option Body → Option ℕ
target_in (some (link_body body)) = body.target_fid
target_in _ = none

abbrev aim : Option MessageData → Option ℕ
aim none = none
aim (some d) = target_in d.body

link_in :
    (b : Option Body) (t : ℕ)
    → target_in b ≡ some t
    → (body : LinkBody) × (b ≡ some (link_body body)) × (body.target_fid ≡ some t)
link_in (some (link_body body)) t e = (body, refl, e)
link_in _ t e = cc

aim-AimsAt : (o : Option MessageData) (t : ℕ) → aim o ≡ some t → AimsAt o t
aim-AimsAt none t e = cc
aim-AimsAt (some d) t e = let (body, is, to) = link_in d.body t e in (d, body, refl, is, to)

AimsAt-aim : (o : Option MessageData) (t : ℕ) → AimsAt o t → aim o ≡ some t
AimsAt-aim o t (d, body, has, is, to) = rw (has, is) to

link_target-target_in : (d : MessageData) → link_target d ≡ target_in d.body
unfolding link_target
link_target-target_in d = go d.body refl
  where
    go : (b : Option Body) → d.body ≡ b → link_target d ≡ target_in d.body
    go (some (link_body body)) e = rw e refl
    go _ e = rw e refl

is_superseded_eq :
    (s : Store) (target_fids : List ℕ) (message : Message) (found : Option ℕ)
    → aim message.message_data ≡ found
    → s.store_def.is_remove_type message ≡ false
    → s.store_def.is_add_type message ≡ true
    → is_superseded s target_fids message
      ≡ elim found [ none ↦ false | some t ↦ not (contains target_fids t) ]
unfolding is_superseded
is_superseded_eq s target_fids message found e no_remove add = go message.message_data refl
  where
    go :
        (o : Option MessageData)
        → message.message_data ≡ o
        → is_superseded s target_fids message
          ≡ elim found [ none ↦ false | some t ↦ not (contains target_fids t) ]
    go none h = ground (arith, h, e, no_remove, add)
    go (some d) h = ground (arith, h, e, no_remove, add, link_target-target_in d)

is_superseded-IsReplaced :
    (s : Store) (target_fids : List ℕ) (message : Message)
    → ((is_superseded s target_fids message ≡ true) × IsReplaced s target_fids message)
      ⊎ ((is_superseded s target_fids message ≡ false) × ¬ IsReplaced s target_fids message)
is_superseded-IsReplaced s target_fids message =
    elim (Bool-cases (s.store_def.is_remove_type message)) [
      | inl remove ↦ inl (unfold is_superseded in rw remove refl, inl remove)
      | inr no_remove ↦ elim (Bool-cases (s.store_def.is_add_type message)) [
        | inr no_add ↦
            inr (unfold is_superseded in rw (no_remove, no_add) refl, no_add_kept no_remove no_add)
        | inl add ↦ added no_remove add (aim message.message_data) refl
      ]
    ]
  where
    no_add_kept :
        s.store_def.is_remove_type message ≡ false
        → s.store_def.is_add_type message ≡ false
        → ¬ IsReplaced s target_fids message
    no_add_kept no_remove no_add (inl remove) = cc
    no_add_kept no_remove no_add (inr (out, add, d, body, t, has, is, to, all)) = cc

    aimless_kept :
        s.store_def.is_remove_type message ≡ false
        → aim message.message_data ≡ none
        → ¬ IsReplaced s target_fids message
    aimless_kept no_remove e (inl remove) = cc
    aimless_kept no_remove e (inr (out, add, d, body, t, has, is, to, all)) =
        cc (AimsAt-aim message.message_data t (d, body, has, is, to))

    target_kept :
        s.store_def.is_remove_type message ≡ false
        → (t : ℕ) → aim message.message_data ≡ some t
        → ¬ All (λ g. g ≢ t) target_fids
        → ¬ IsReplaced s target_fids message
    target_kept no_remove t e listed (inl remove) = cc
    target_kept no_remove t e listed (inr (out, add, d, body, t', has, is, to, all)) =
        let same : t' ≡ t = cc (AimsAt-aim message.message_data t' (d, body, has, is, to)) in
        listed (subst (λ u. All (λ g. g ≢ u) target_fids) same all)

    added :
        s.store_def.is_remove_type message ≡ false
        → s.store_def.is_add_type message ≡ true
        → (found : Option ℕ) → aim message.message_data ≡ found
        → ((is_superseded s target_fids message ≡ true) × IsReplaced s target_fids message)
          ⊎ ((is_superseded s target_fids message ≡ false) × ¬ IsReplaced s target_fids message)
    added no_remove add none e =
        inr (is_superseded_eq s target_fids message none e no_remove add, aimless_kept no_remove e)
    added no_remove add (some t) e = elim (contains-All target_fids t) [
      | inl (out, all) ↦
          let (d, body, has, is, to) = aim-AimsAt message.message_data t e in
          inl (
            is_superseded_eq s target_fids message (some t) e no_remove add ∙ rw out refl,
            inr (no_remove, add, d, body, t, has, is, to, all),
          )
      | inr (there, some') ↦ inr (
        is_superseded_eq s target_fids message (some t) e no_remove add ∙ rw there refl,
        target_kept no_remove t e some',
      )
    ]

-- Later messages are passed over.
none_later :
    (s : Store) (timestamp time : ℕ) (target_fids : List ℕ) (ds : List Dated)
    → timestamp < time
    → All (λ (d : Dated). time ≤ d.0) ds
    → Picks (IsSuperseded s timestamp target_fids) ds []
none_later s timestamp time target_fids [] late all = none_left
none_later s timestamp time target_fids ((time', message) ∷ ds) late all =
    passed (λ h. omega (arith, h.0, all.0, late))
      (none_later s timestamp time target_fids ds late all.1)

-- The scan of a compact state merge, which stops at the first later message, finds exactly the
-- messages of the compact state's timestamp or an earlier one that are removes, or adds aimed at a
-- fid outside its targets, in their order, given that the entries decode and their timestamps do
-- not fall. (The comments in the code ask for older messages only; those of the same second are
-- found too.)
pub superseded_exact :
    (s : Store) (timestamp : ℕ) (target_fids : List ℕ) (entries : List (Bytes × Bytes))
    (ds : List Dated)
    → Holds s entries ds
    → InOrder ds
    → (found : List Message) × (superseded s timestamp target_fids entries ≡ ok found)
      × Picks (IsSuperseded s timestamp target_fids) ds found
unfolding superseded
superseded_exact s timestamp target_fids [] [] holds order = ([], refl, none_left)
superseded_exact s timestamp target_fids [] (d ∷ ds) holds order = absurd holds
superseded_exact s timestamp target_fids (e ∷ es) [] holds order = absurd holds
superseded_exact s timestamp target_fids ((key, value) ∷ es) ((time, message) ∷ ds)
      (decodes, dated, holds) order =
    let (found, rest, picks) = superseded_exact s timestamp target_fids es ds holds order.1 in
    elim (Bool-cases (ltb timestamp time)) [
      | inl late ↦ (
        [],
        ground (arith, decodes, dated, late),
        passed (λ h. ground (arith, h.0, late))
            (none_later s timestamp time target_fids ds (ltb→lt timestamp time late) order.0),
      )
      | inr early ↦ elim (is_superseded-IsReplaced s target_fids message) [
        | inl (yes', replaced) ↦ (
          message ∷ found,
          ground (arith, decodes, dated, early, rest, yes'),
          picked (ground (arith, early), replaced) picks,
        )
        | inr (no', kept) ↦
            (found, ground (arith, decodes, dated, early, rest, no'), passed (λ h. kept h.1) picks)
      ]
    ]
