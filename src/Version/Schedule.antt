-- ===== src/Version/Schedule.antt =====
-- The engine version over time: there always is one, it never falls, and it keeps until the timestamp
-- that `next_version_timestamp_for` announces.
use hypersnap.Shared.{
  ℕ, ◌<◌, ◌≤◌, ◌≡◌, refl, Bool, true, false, List, [], ◌∷◌, Option, none, some, ok, arith, leb, ltb,
  Bool-cases, inl, inr, if◌then◌else◌, ◌&&◌, ◌==◌,
}
use mathlib.Core.Path.{subst}
use hypersnap.Version.{
  EngineVersion, VersionSchedule, FarcasterNetwork, rank, schedule_of, to_unix_seconds, active,
  last, version_for, next_after, next_version_timestamp_for, engine_version_schedule_mainnet,
  engine_version_schedule_testnet,
}

-- Neither the times nor the versions of a schedule fall.
abbrev pub Rising : VersionSchedule → List VersionSchedule → Type 0
Rising s [] = Unit {0}
Rising s (t ∷ ss) = (s.active_at ≤ t.active_at) × (rank s.version ≤ rank t.version) × Rising t ss

abbrev is_rising : VersionSchedule → List VersionSchedule → Bool
is_rising s [] = true
is_rising s (t ∷ ss) =
    leb s.active_at t.active_at && (leb (rank s.version) (rank t.version) && is_rising t ss)

Rising-of_test :
    (s : VersionSchedule) (ss : List VersionSchedule) → is_rising s ss ≡ true → Rising s ss
Rising-of_test s [] h = tt
Rising-of_test s (t ∷ ss) h =
    (ground (arith, h), ground (arith, h), Rising-of_test t ss (ground (arith, h)))

-- Each schedule begins at 0 and rises.
abbrev Begins : List VersionSchedule → Type 0
Begins [] = ⊥
Begins (s ∷ ss) = (s.active_at ≡ 0) × Rising s ss

abbrev begins : List VersionSchedule → Bool
begins [] = false
begins (s ∷ ss) = s.active_at == 0 && is_rising s ss

Begins-of_test : (ss : List VersionSchedule) → begins ss ≡ true → Begins ss
Begins-of_test [] h = cc
Begins-of_test (s ∷ ss) h = (ground (arith, h), Rising-of_test s ss (ground (arith, h)))

schedule-Begins : (network : FarcasterNetwork) → Begins (schedule_of network)
unfolding schedule_of rank
schedule-Begins FarcasterNetwork.none_net = (refl, tt)
schedule-Begins FarcasterNetwork.mainnet = Begins-of_test engine_version_schedule_mainnet refl
schedule-Begins FarcasterNetwork.testnet = Begins-of_test engine_version_schedule_testnet refl
schedule-Begins FarcasterNetwork.devnet = (refl, tt)

-- The last of a schedule, or the one before it.
abbrev last_or : VersionSchedule → List VersionSchedule → VersionSchedule
last_or s [] = s
last_or s (t ∷ ss) = last_or t ss

last_cons : (s : VersionSchedule) (ss : List VersionSchedule) → last (s ∷ ss) ≡ some (last_or s ss)
unfolding last
last_cons s [] = refl
last_cons s (t ∷ ss) = last_cons t ss

later_not_lower :
    (a b s : VersionSchedule) (ss : List VersionSchedule) (x y : ℕ)
    → x ≤ y
    → rank a.version ≤ rank b.version
    → rank b.version ≤ rank s.version
    → Rising s ss
    → rank (last_or a (active x (s ∷ ss))).version ≤ rank (last_or b (active y (s ∷ ss))).version
unfolding active
later_not_lower a b s [] x y le ab bs rising = ground arith
later_not_lower a b s (t ∷ ss) x y le ab bs (times, ranks, rising) =
    elim (Bool-cases (leb s.active_at x)) [
      | inl early ↦
          ground (arith, early, later_not_lower s s t ss x y le (omega arith) ranks rising)
      | inr late ↦ elim (Bool-cases (leb s.active_at y)) [
        | inl now ↦
            ground (arith, late, now, later_not_lower a s t ss x y le (omega arith) ranks rising)
        | inr not_yet ↦
            ground (arith, late, not_yet, later_not_lower a b t ss x y le ab (omega arith) rising)
      ]
    ]

-- Until the next entry the same entries are active.
rest_inactive :
    (s : VersionSchedule) (ss : List VersionSchedule) (x : ℕ)
    → Rising s ss
    → x < s.active_at
    → active x ss ≡ []
unfolding active
rest_inactive s [] x rising early = refl
rest_inactive s (t ∷ ss) x (times, ranks, rising) early =
    ground (arith, rest_inactive t ss x rising (omega arith))

-- The moment is before the next entry, if there is one.
abbrev pub IsBefore : ℕ → Option ℕ → Type 0
IsBefore y none = Unit {0}
IsBefore y (some next) = y < next

active_until :
    (s : VersionSchedule) (ss : List VersionSchedule) (x y : ℕ)
    → Rising s ss
    → x ≤ y
    → IsBefore y (next_after x (s ∷ ss))
    → active y (s ∷ ss) ≡ active x (s ∷ ss)
unfolding active next_after
active_until s [] x y rising le before = elim (Bool-cases (ltb x s.active_at)) [
  | inl late ↦
      let y_early : y < s.active_at =
        subst (λ b. IsBefore y (if b then some s.active_at else none)) late before in
      ground (arith, late, y_early)
  | inr early ↦ ground (arith, early)
]
active_until s (t ∷ ss) x y (times, ranks, rising) le before =
    elim (Bool-cases (ltb x s.active_at)) [
      | inl late ↦
          let y_early : y < s.active_at =
            subst (λ b. IsBefore y (if b then some s.active_at else next_after x (t ∷ ss))) late
              before in
          ground (
            arith,
            late,
            y_early,
            rest_inactive s (t ∷ ss) x (times, ranks, rising) (ground (arith, late)),
            rest_inactive s (t ∷ ss) y (times, ranks, rising) y_early,
          )
      | inr early ↦ ground (
        arith,
        early,
        active_until t ss x y rising le (
            subst (λ b. IsBefore y (if b then some s.active_at else next_after x (t ∷ ss))) early
              before),
      )
    ]

version_for_eq :
    (time : ℕ) (network : FarcasterNetwork) (s : VersionSchedule) (ss : List VersionSchedule)
    → schedule_of network ≡ s ∷ ss
    → s.active_at ≡ 0
    → version_for time network ≡ ok (last_or s (active (to_unix_seconds time) ss)).version
unfolding version_for active
version_for_eq time network s ss h first =
    ground (arith, h, first, last_cons s (active (to_unix_seconds time) ss))

-- There is a version at every time, on every network, and it does not fall as time goes on.
pub version_rises :
    (network : FarcasterNetwork) (x y : ℕ)
    → x ≤ y
    → (v w : EngineVersion) × (version_for x network ≡ ok v)
      × (version_for y network ≡ ok w)
      × (rank v ≤ rank w)
version_rises network x y le = go (schedule_of network) refl (schedule-Begins network)
  where
    go :
        (ss : List VersionSchedule)
        → schedule_of network ≡ ss
        → Begins ss
        → (v w : EngineVersion) × (version_for x network ≡ ok v)
          × (version_for y network ≡ ok w)
          × (rank v ≤ rank w)
    go [] e h = absurd h
    go (s ∷ []) e (first, h) = (
      (last_or s (active (to_unix_seconds x) [])).version,
      (last_or s (active (to_unix_seconds y) [])).version,
      version_for_eq x network s [] e first,
      version_for_eq y network s [] e first,
      unfold active in omega arith,
    )
    go (s ∷ t ∷ ss) e (first, (times, ranks, h)) = (
      (last_or s (active (to_unix_seconds x) (t ∷ ss))).version,
      (last_or s (active (to_unix_seconds y) (t ∷ ss))).version,
      version_for_eq x network s (t ∷ ss) e first,
      version_for_eq y network s (t ∷ ss) e first,
      later_not_lower s s t ss (to_unix_seconds x) (to_unix_seconds y)
          (unfold to_unix_seconds in omega (arith, le)) (omega arith) ranks h,
    )

-- The version stays what it is until the timestamp that `next_version_timestamp_for` announces, and
-- for ever if it announces none.
pub version_until_next :
    (network : FarcasterNetwork) (x y : ℕ)
    → x ≤ y
    → IsBefore (to_unix_seconds y) (next_version_timestamp_for x network)
    → version_for y network ≡ version_for x network
unfolding version_for next_version_timestamp_for
version_until_next network x y le before = go (schedule_of network) refl (schedule-Begins network)
  where
    go :
        (ss : List VersionSchedule)
        → schedule_of network ≡ ss
        → Begins ss
        → version_for y network ≡ version_for x network
    go [] e h = absurd h
    go (s ∷ ss) e (first, h) = ground (
      arith,
      e,
      active_until s ss (to_unix_seconds x) (to_unix_seconds y) h
          (unfold to_unix_seconds in omega (arith, le))
          (subst (λ l. IsBefore (to_unix_seconds y) (next_after (to_unix_seconds x) l)) e before),
    )
