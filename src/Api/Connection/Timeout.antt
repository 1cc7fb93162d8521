-- ===== src/Api/Connection/Timeout.antt =====
-- openConnection of src/api/src/api.c ends, at the latest when its time is over.
use progetto_sistemi_operati.Base.{
  ℕ, ◌+◌, ◌*◌, ◌≤◌, ◌<◌, ◌≡◌, ◌⊎◌, refl, ap, sym, ◌∙◌, inl, inr, List, [], ◌∷◌, ◌++◌, Bool, true,
  false, Bool-cases, some, length, leb, ltb, ◌==◌, All, arith, if◌then◌else◌, ok,
}
use progetto_sistemi_operati.Settings.{codes}
use progetto_sistemi_operati.Api.{set_last_api_call}
use progetto_sistemi_operati.Api.Connection.{
  Timespec, compare_times, Attempt, connect_loop, open_connection,
}

-- The nanoseconds of a time.
abbrev pub nanoseconds : Timespec → ℕ
nanoseconds t = t.tv_sec * 1000000000 + t.tv_nsec

abbrev pub IsTime : Timespec → Type 0
IsTime t = t.tv_nsec < 1000000000

-- Each attempt ends at least one nanosecond after the one before it, the first after `start`.
abbrev pub Later : ℕ → List Attempt → Type 0
Later start [] = Unit
Later start (a ∷ attempts) =
    (start < nanoseconds a.cur_time) × IsTime a.cur_time × Later (nanoseconds a.cur_time) attempts

-- An attempt that fails in time.
abbrev pub Fails : Timespec → Attempt → Type 0
Fails abstime a = (a.connects ≡ false) × (nanoseconds a.cur_time ≤ nanoseconds abstime)

-- An attempt that is the last one.
abbrev pub Decides : Timespec → Attempt → Type 0
Decides abstime a = (a.connects ≡ true) ⊎ (nanoseconds abstime < nanoseconds a.cur_time)

compare_times-leb :
    (t1 t2 : Timespec)
    → IsTime t1
    → IsTime t2
    → compare_times t1 t2 ≡ leb (nanoseconds t1) (nanoseconds t2)
unfolding compare_times
compare_times-leb t1 t2 h1 h2 = elim (Bool-cases (ltb t1.tv_sec t2.tv_sec)) [
  | inl less ↦
      let e : leb (nanoseconds t1) (nanoseconds t2) ≡ true = ground arith in rw (less, e) refl
  | inr more ↦ elim (Bool-cases (t1.tv_sec == t2.tv_sec)) [
    | inl same ↦ elim (Bool-cases (leb t1.tv_nsec t2.tv_nsec)) [
      | inl le ↦
          let e : leb (nanoseconds t1) (nanoseconds t2) ≡ true = ground arith in
          rw (more, same, le, e) refl
      | inr gt ↦
          let e : leb (nanoseconds t1) (nanoseconds t2) ≡ false = ground arith in
          rw (more, same, gt, e) refl
    ]
    | inr other ↦
        let e : leb (nanoseconds t1) (nanoseconds t2) ≡ false = ground arith in
        rw (more, other, e) refl
  ]
]

-- How the loop ends: the attempts before the last one have failed in time.
abbrev pub EndsWith : Timespec → List Attempt → Bool → Type 0
EndsWith abstime attempts success =
    (tried : List Attempt) × (a : Attempt) × (rest : List Attempt) × (attempts ≡ tried ++ a ∷ rest)
    × All (Fails abstime) tried
    × Decides abstime a
    × (success ≡ a.connects)

-- One attempt, by how it goes.
connect_loop-step :
    (abstime : Timespec) (a : Attempt) (attempts : List Attempt) (connected in_time : Bool)
    → a.connects ≡ connected
    → compare_times a.cur_time abstime ≡ in_time
    → connect_loop abstime (a ∷ attempts)
      ≡ (if connected then ok true else if in_time then connect_loop abstime attempts else ok false)
unfolding connect_loop
connect_loop-step abstime a attempts connected in_time c t = rw (c, t) refl

connect_loop-ends :
    (abstime : Timespec) (start : ℕ) (attempts : List Attempt)
    → IsTime abstime
    → Later start attempts
    → nanoseconds abstime < start + length attempts
    → start ≤ nanoseconds abstime
    → (success : Bool) × (connect_loop abstime attempts ≡ ok success)
      × EndsWith abstime attempts success
connect_loop-ends abstime start [] time later enough early = absurd (omega arith)
connect_loop-ends abstime start (a ∷ attempts) time (after, is_time, later) enough early =
    let compared = compare_times-leb a.cur_time abstime is_time time in
    let step =
      λ (connected in_time : Bool). connect_loop-step abstime a attempts connected in_time in
    elim (Bool-cases a.connects) [
      | inl connected ↦ (
        true,
        step true _ connected refl,
        ([], a, attempts, refl, tt, inl connected, sym connected),
      )
      | inr refused ↦ elim (Bool-cases (leb (nanoseconds a.cur_time) (nanoseconds abstime))) [
        | inr late ↦ (
          false,
          step false false refused (compared ∙ late),
          ([], a, attempts, refl, tt, inr (ground arith), sym refused),
        )
        | inl in_time ↦
            let (success, e, (tried, last, rest, parts, failed, decides, same)) =
              connect_loop-ends abstime (nanoseconds a.cur_time) attempts time later (omega arith)
                (ground arith) in
            (
              success,
              step false true refused (compared ∙ in_time) ∙ e,
              (
                a ∷ tried,
                last,
                rest,
                ap (λ r. a ∷ r) parts,
                ((refused, ground arith), failed),
                decides,
                same,
              ),
            )
      ]
    ]

-- If time passes with every attempt and there are as many attempts as nanoseconds are left,
-- openConnection with a path and a socket ends: with the result of the first attempt that
-- succeeds or ends too late, all attempts before it having failed in time.
pub open_connection-ends :
    (last : ℕ) (sockname : List ℕ) (abstime : Timespec) (start : ℕ) (attempts : List Attempt)
    → IsTime abstime
    → Later start attempts
    → nanoseconds abstime < start + length attempts
    → start ≤ nanoseconds abstime
    → (success : Bool) × (open_connection last (some sockname) true abstime attempts
        ≡ ok (success, set_last_api_call (codes "openConnection") success sockname last))
      × EndsWith abstime attempts success
unfolding open_connection
open_connection-ends last sockname abstime start attempts time later enough early =
    let (success, e, ends) = connect_loop-ends abstime start attempts time later enough early in
    rw e (success, refl, ends)
