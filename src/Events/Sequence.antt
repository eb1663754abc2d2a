-- ===== src/Events/Sequence.antt =====
-- The generator as a state machine: the ids of one block, and of later blocks, go up.
use mathlib.Core.Path.{subst}
use hypersnap.Shared.{
  ℕ, Bool, true, false, ◌||◌, ◌⊎◌, inl, inr, ap, All, ◌+◌, ◌*◌, ◌%◌, ◌^◌, ◌<◌, ◌≤◌, ◌≡◌, ◌≢◌, refl,
  sym, Result, Error, ok, err, arith, List, [], ◌∷◌,
}
use hypersnap.Events.{
  HubEventIdGenerator, HubEventType, block_confirmed, is_block_confirmed, generate_id,
  set_current_height, extract_height_and_seq,
}

-- An id that the generator may still give: above it lie only ids of this height or a later one.
abbrev next_id : HubEventIdGenerator → ℕ
next_id g = g.current_height * 2 ^ 14 + g.current_seq

-- An event other than `BlockConfirmed` gets an id of the current height with a sequence from 1 on,
-- not below the generator's position, which moves past it.
pub generate_id_step :
    (g g' : HubEventIdGenerator) (event : HubEventType) (id : ℕ)
    → event ≢ block_confirmed
    → generate_id g event ≡ (ok id, g')
    → (extract_height_and_seq id ≡ (g.current_height, id % 2 ^ 14))
      × (1 ≤ id % 2 ^ 14)
      × (next_id g ≤ id)
      × (id < next_id g')
      × (g'.current_height ≡ g.current_height)
unfolding generate_id extract_height_and_seq
generate_id_step g g' event id other e = ground arith

-- What a store does to the generator: a new block, or an event of it.
pub data Operation : Type 0 where
  start_block : ℕ → Operation
  emit : HubEventType → Operation

-- An id that is given, with whether it is that of a `BlockConfirmed`.
abbrev pub Given : Type 0
Given = Bool × ℕ

abbrev given_id : Bool → Result Error ℕ → List Given → List Given
given_id confirms (ok id) given = (confirms, id) ∷ given
given_id confirms (err e) given = given

-- The ids that are given, in order; an event that is refused gets none.
pub run : HubEventIdGenerator → List Operation → List Given
run g [] = []
run g (start_block height ∷ ops) = run (set_current_height g height) ops
run g (emit event ∷ ops) =
    let (r, g') = generate_id g event in given_id (is_block_confirmed event) r (run g' ops)

abbrev pub MayCome : Bool → Bool → Type 0
MayCome true confirmed = confirmed ≡ false
MayCome false confirmed = Unit {0}

-- Each block is higher than the one before it, and has one `BlockConfirmed` at most, wherever it comes;
-- `confirmed` tells whether the first block has had its own.
abbrev pub GoesUp : ℕ → Bool → List Operation → Type 0
GoesUp height confirmed [] = Unit
GoesUp height confirmed (start_block h ∷ ops) = (height < h) × GoesUp h false ops
GoesUp height confirmed (emit event ∷ ops) =
    MayCome (is_block_confirmed event) confirmed
    × GoesUp height (is_block_confirmed event || confirmed) ops

abbrev pub ids : List Given → List ℕ
ids [] = []
ids ((confirms, id) ∷ given) = id ∷ ids given

-- The ids of the events other than `BlockConfirmed`.
abbrev pub other_ids : List Given → List ℕ
other_ids [] = []
other_ids ((true, id) ∷ given) = other_ids given
other_ids ((false, id) ∷ given) = id ∷ other_ids given

-- Strictly increasing, from `n` on.
abbrev pub IsAbove : ℕ → List ℕ → Type 0
IsAbove n [] = Unit
IsAbove n (id ∷ ids) = (n ≤ id) × IsAbove (id + 1) ids

-- No number stands twice.
abbrev pub Distinct : List ℕ → Type 0
Distinct [] = Unit
Distinct (id ∷ ids) = All (λ other. other ≢ id) ids × Distinct ids

-- The ids of `BlockConfirmed` are multiples of 2^14 from `m` on, the others no multiples and from `n` on;
-- both go up.
abbrev Numbered : ℕ → ℕ → List Given → Type 0
Numbered n m [] = Unit
Numbered n m ((true, id) ∷ given) = (id % 2 ^ 14 ≡ 0) × (m ≤ id) × Numbered n (id + 1) given
Numbered n m ((false, id) ∷ given) = (1 ≤ id % 2 ^ 14) × (n ≤ id) × Numbered (id + 1) m given

Numbered-le :
    (n n' m m' : ℕ) (given : List Given)
    → n ≤ n'
    → m ≤ m'
    → Numbered n' m' given
    → Numbered n m given
Numbered-le n n' m m' [] hn hm h = tt
Numbered-le n n' m m' ((true, id) ∷ given) hn hm (multiple, low, rest) =
    (multiple, omega arith, Numbered-le n n' (id + 1) (id + 1) given hn (omega arith) rest)
Numbered-le n n' m m' ((false, id) ∷ given) hn hm (one, low, rest) =
    (one, omega arith, Numbered-le (id + 1) (id + 1) m m' given (omega arith) hm rest)

Numbered-IsAbove : (n m : ℕ) (given : List Given) → Numbered n m given → IsAbove n (other_ids given)
Numbered-IsAbove n m [] h = tt
Numbered-IsAbove n m ((true, id) ∷ given) (multiple, low, rest) =
    Numbered-IsAbove n (id + 1) given rest
Numbered-IsAbove n m ((false, id) ∷ given) (one, low, rest) =
    (low, Numbered-IsAbove (id + 1) m given rest)

-- A multiple below `m` and a number below `n` that is none do not come again.
Numbered-ne :
    (x n m : ℕ) (given : List Given)
    → Numbered n m given
    → ((x % 2 ^ 14 ≡ 0) × (x < m)) ⊎ ((1 ≤ x % 2 ^ 14) × (x < n))
    → All (λ other. other ≢ x) (ids given)
Numbered-ne x n m [] h old = tt
Numbered-ne x n m ((true, id) ∷ given) (multiple, low, rest) (inl (even, below)) =
    ((λ e. omega arith), Numbered-ne x n (id + 1) given rest (inl (even, omega arith)))
Numbered-ne x n m ((true, id) ∷ given) (multiple, low, rest) (inr (odd, below)) =
    ((λ e. ground arith), Numbered-ne x n (id + 1) given rest (inr (odd, below)))
Numbered-ne x n m ((false, id) ∷ given) (one, low, rest) (inl (even, below)) =
    ((λ e. ground arith), Numbered-ne x (id + 1) m given rest (inl (even, below)))
Numbered-ne x n m ((false, id) ∷ given) (one, low, rest) (inr (odd, below)) =
    ((λ e. omega arith), Numbered-ne x (id + 1) m given rest (inr (odd, omega arith)))

Numbered-Distinct : (n m : ℕ) (given : List Given) → Numbered n m given → Distinct (ids given)
Numbered-Distinct n m [] h = tt
Numbered-Distinct n m ((true, id) ∷ given) (multiple, low, rest) = (
  Numbered-ne id n (id + 1) given rest (inl (multiple, omega arith)),
  Numbered-Distinct n (id + 1) given rest,
)
Numbered-Distinct n m ((false, id) ∷ given) (one, low, rest) = (
  Numbered-ne id (id + 1) m given rest (inr (one, omega arith)),
  Numbered-Distinct (id + 1) m given rest,
)

generate_id_refused :
    (g g' : HubEventIdGenerator) (event : HubEventType) (e : Error)
    → generate_id g event ≡ (err e, g')
    → g' ≡ g
unfolding generate_id
generate_id_refused g g' event e h = ground arith

seq_bound :
    (g g' : HubEventIdGenerator) (event : HubEventType) (r : Result Error ℕ)
    → g.current_seq ≤ 2 ^ 14
    → generate_id g event ≡ (r, g')
    → g'.current_seq ≤ 2 ^ 14
unfolding generate_id
seq_bound g g' event r b h = ground arith

-- The first multiple that a `BlockConfirmed` may still get.
abbrev next_confirmed : ℕ → Bool → ℕ
next_confirmed height true = height * 2 ^ 14 + 1
next_confirmed height false = height * 2 ^ 14

-- A `BlockConfirmed` gets the first id of the height, and the generator stays.
generate_id_confirmed :
    (g g' : HubEventIdGenerator) (event : HubEventType) (id : ℕ)
    → is_block_confirmed event ≡ true
    → generate_id g event ≡ (ok id, g')
    → (id ≡ g.current_height * 2 ^ 14) × (g' ≡ g)
unfolding generate_id
generate_id_confirmed g g' event id h e = ground arith

not_confirmed : (event : HubEventType) → is_block_confirmed event ≡ false → event ≢ block_confirmed
not_confirmed event h e = cc (ap is_block_confirmed e)

next_confirmed_same :
    (g g' : HubEventIdGenerator) (confirmed : Bool)
    → g'.current_height ≡ g.current_height
    → next_confirmed g.current_height confirmed ≤ next_confirmed g'.current_height confirmed
next_confirmed_same g g' true h = omega (arith, h)
next_confirmed_same g g' false h = omega (arith, h)

next_confirmed_more :
    (height : ℕ) (confirms confirmed : Bool)
    → next_confirmed height confirmed ≤ next_confirmed height (confirms || confirmed)
next_confirmed_more height true true = omega arith
next_confirmed_more height true false = omega arith
next_confirmed_more height false confirmed = omega arith

height_kept :
    (g g' : HubEventIdGenerator) (event : HubEventType) (r : Result Error ℕ)
    → generate_id g event ≡ (r, g')
    → g'.current_height ≡ g.current_height
unfolding generate_id
height_kept g g' event r h = ground arith

-- One event, given what holds of the run after it.
emit-Numbered :
    (g g' : HubEventIdGenerator) (event : HubEventType) (confirms confirmed : Bool)
    (r : Result Error ℕ) (given : List Given)
    → is_block_confirmed event ≡ confirms
    → generate_id g event ≡ (r, g')
    → MayCome confirms confirmed
    → Numbered (next_id g') (next_confirmed g'.current_height (confirms || confirmed)) given
    → Numbered (next_id g) (next_confirmed g.current_height confirmed) (given_id confirms r given)
emit-Numbered g g' event true true (ok id) given kind made free rest = cc
emit-Numbered g g' event true false (ok id) given kind made free rest =
    let (same, stays) = generate_id_confirmed g g' event id kind made in
    let known : Numbered (next_id g) (g.current_height * 2 ^ 14 + 1) given =
      subst (λ h. Numbered (next_id h) (h.current_height * 2 ^ 14 + 1) given) stays rest in
    (
      omega (arith, same),
      omega (arith, same),
      Numbered-le (next_id g) (next_id g) (id + 1) (g.current_height * 2 ^ 14 + 1) given
          (omega arith) (omega (arith, same)) known,
    )
emit-Numbered g g' event false confirmed (ok id) given kind made free rest =
    let (read, one, low, high, same) =
      generate_id_step g g' event id (not_confirmed event kind) made in
    (
      one,
      low,
      Numbered-le (id + 1) (next_id g') (next_confirmed g.current_height confirmed)
          (next_confirmed g'.current_height confirmed) given (omega arith)
          (next_confirmed_same g g' confirmed same) rest,
    )
emit-Numbered g g' event confirms confirmed (err x) given kind made free rest =
    let known : Numbered (next_id g) (next_confirmed g.current_height (confirms || confirmed))
        given =
      subst
        (λ h. Numbered (next_id h) (next_confirmed h.current_height (confirms || confirmed)) given)
        (generate_id_refused g g' event x made) rest in
    Numbered-le (next_id g) (next_id g) (next_confirmed g.current_height confirmed)
      (next_confirmed g.current_height (confirms || confirmed)) given (omega arith)
      (next_confirmed_more g.current_height confirms confirmed) known

run-Numbered :
    (g : HubEventIdGenerator) (confirmed : Bool) (ops : List Operation)
    → g.current_seq ≤ 2 ^ 14
    → GoesUp g.current_height confirmed ops
    → Numbered (next_id g) (next_confirmed g.current_height confirmed) (run g ops)
unfolding run set_current_height
run-Numbered g confirmed [] b up = tt
run-Numbered g confirmed (start_block h ∷ ops) b up =
    Numbered-le (next_id g) (h * 2 ^ 14 + 0) (next_confirmed g.current_height confirmed)
      (h * 2 ^ 14) (run (set_current_height g h) ops) (omega (arith, up.0)) (before confirmed)
      (run-Numbered (set_current_height g h) false ops (omega arith) up.1)
  where
    before : (c : Bool) → next_confirmed g.current_height c ≤ h * 2 ^ 14
    before true = omega (arith, up.0)
    before false = omega (arith, up.0)
run-Numbered g confirmed (emit event ∷ ops) b up =
    let g' = (generate_id g event).1 in
    emit-Numbered g g' event (is_block_confirmed event) confirmed (generate_id g event).0
      (run g' ops) refl refl up.0
      (run-Numbered g' (is_block_confirmed event || confirmed) ops
        (seq_bound g g' event (generate_id g event).0 b refl)
        (subst (λ h. GoesUp h (is_block_confirmed event || confirmed) ops)
          (sym (height_kept g g' event (generate_id g event).0 refl)) up.1))

-- From a generator whose sequence is at most 2^14, over blocks of increasing height with at most
-- one `BlockConfirmed` each, wherever it comes: no id is given twice, and the ids given to the
-- other events strictly increase from the position of the generator on, refused events in between
-- or not.
pub run_increasing :
    (g : HubEventIdGenerator) (confirmed : Bool) (ops : List Operation)
    → g.current_seq ≤ 2 ^ 14
    → GoesUp g.current_height confirmed ops
    → Distinct (ids (run g ops))
      × IsAbove (g.current_height * 2 ^ 14 + g.current_seq) (other_ids (run g ops))
run_increasing g confirmed ops b up =
    let numbered = run-Numbered g confirmed ops b up in
    (
      Numbered-Distinct (next_id g) (next_confirmed g.current_height confirmed) (run g ops)
          numbered,
      Numbered-IsAbove (next_id g) (next_confirmed g.current_height confirmed) (run g ops) numbered,
    )
