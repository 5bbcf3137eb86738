-- ===== src/Locking/Progress.antt =====
-- The program has no deadlock at its locks.
use chirpstack_udp_forwarder.Prelude.{
  ℕ, zero, suc, ◌<◌, ◌≤◌, ◌≡◌, ◌≢◌, ◌⊎◌, inl, inr, refl, sym, ap, arith, List, [], ◌∷◌, ◌++◌, map,
  All, ◌==◌, ==_iff, Bool-cases,
}
use mathlib.Core.Path.{subst}
use chirpstack_udp_forwarder.Locking.{
  event_sock, command_sock, push_data_token, push_data_sent, push_data_acked, pull_data_token,
  pull_data_token_acked, rxfw, Lock, mutex, zmq_context_init, zmq_context, family_init,
  registry_init, registry, Mode, exclusive, shared, Action, acquire, release, Holder, Allows,
  AllAllow, LockStep, acquires, releases, LockRun, begun, then_step,
}
use chirpstack_udp_forwarder.Locking.Threads.{Role, role_locks}
use chirpstack_udp_forwarder.Locking.Order.{rank, Above, Below, Fits, role-Fits}

-- Each thread at its begin.
abbrev pub at_begin : List Role → List Holder
at_begin roles = map (λ r. record { held = []; rest = role_locks r }) roles

module _ {A : Type 0} (P : A → Type 0) where
  All-replace :
      (before after : List A) (x y : A)
      → (P x → P y)
      → All P (before ++ (x ∷ after))
      → All P (before ++ (y ∷ after))
  All-replace [] after x y f (h, hs) = (f h, hs)
  All-replace (b ∷ before) after x y f (h, hs) = (h, All-replace before after x y f hs)

  All-but :
      (before after : List A) (x : A) → All P (before ++ (x ∷ after)) → All P (before ++ after)
  All-but [] after x (h, hs) = hs
  All-but (b ∷ before) after x (h, hs) = (h, All-but before after x hs)

  All-at : (before after : List A) (x : A) → All P (before ++ (x ∷ after)) → P x
  All-at [] after x (h, hs) = h
  All-at (b ∷ before) after x (h, hs) = All-at before after x hs

abbrev AllFit : List Holder → Type 0
AllFit ts = All (λ (t : Holder). Fits t.held t.rest) ts

at_begin-AllFit : (roles : List Role) → AllFit (at_begin roles)
at_begin-AllFit [] = tt
at_begin-AllFit (r ∷ roles) = (role-Fits r, at_begin-AllFit roles)

step-AllFit : {ts us : List Holder} → LockStep ts us → AllFit ts → AllFit us
step-AllFit (acquires before after held m l rest free) h =
    All-replace (λ (t : Holder). Fits t.held t.rest) before after _ _ (λ (a, f). f) h
step-AllFit (releases before after held m l rest) h =
    All-replace (λ (t : Holder). Fits t.held t.rest) before after _ _ (λ (a, f). f) h

run-AllFit : {ts us : List Holder} → LockRun ts us → AllFit ts → AllFit us
run-AllFit begun h = h
run-AllFit (then_step r s) h = step-AllFit s (run-AllFit r h)

rank_bound : (l : Lock) → rank l < 8
rank_bound (mutex n event_sock) = omega arith
rank_bound (mutex n command_sock) = omega arith
rank_bound (mutex n push_data_token) = omega arith
rank_bound (mutex n push_data_sent) = omega arith
rank_bound (mutex n push_data_acked) = omega arith
rank_bound (mutex n pull_data_token) = omega arith
rank_bound (mutex n pull_data_token_acked) = omega arith
rank_bound (mutex n rxfw) = omega arith
rank_bound zmq_context_init = omega arith
rank_bound zmq_context = omega arith
rank_bound (family_init f) = omega arith
rank_bound registry_init = omega arith
rank_bound registry = omega arith

held-Below : (held : List (Mode × Lock)) → Below 8 held
held-Below [] = tt
held-Below ((m, k) ∷ held) = (rank_bound k, held-Below held)

abbrev AllBelow : ℕ → List Holder → Type 0
AllBelow r ts = All (λ (t : Holder). Below r t.held) ts

AllBelow-always : (ts : List Holder) → AllBelow 8 ts
AllBelow-always [] = tt
AllBelow-always (t ∷ ts) = (held-Below t.held, AllBelow-always ts)

-- Where all locks held are below it, a lock is free.
held-Allows :
    (r : ℕ) (m : Mode) (l : Lock) (held : List (Mode × Lock))
    → r ≤ rank l
    → Below r held
    → All (Allows m l) held
held-Allows r m l [] o b = tt
held-Allows r m l ((q, k) ∷ held) o (h, b) = (allows m q, held-Allows r m l held o b)
  where
    differs : l ≢ k
    differs e = let f : rank l ≡ rank k = ap rank e in absurd (omega arith)

    allows : (m q : Mode) → Allows m l (q, k)
    allows shared shared = tt
    allows shared exclusive = differs
    allows exclusive q = differs

all-AllAllow :
    (r : ℕ) (m : Mode) (l : Lock) (ts : List Holder) → r ≤ rank l → AllBelow r ts → AllAllow m l ts
all-AllAllow r m l [] o b = tt
all-AllAllow r m l (t ∷ ts) o (h, b) = (held-Allows r m l t.held o h, all-AllAllow r m l ts o b)

-- A thread that is not at its end, and that goes above all locks held, can go on.
goes_on :
    (r : ℕ) (before after : List Holder) (held : List (Mode × Lock)) (rest : List Action)
    → Fits held rest
    → AllBelow r (before ++ after)
    → ((l : Lock) → Above held l → r ≤ rank l)
    → rest ≢ []
    → (us : List Holder) × LockStep (before ++ (record { held = held; rest = rest } ∷ after)) us
goes_on r before after held [] f b o n = absurd (n refl)
goes_on r before after held (acquire m l ∷ rest) (a, f) b o n =
    (_, acquires before after held m l rest (all-AllAllow r m l (before ++ after) (o l a) b))
goes_on r before after [] (release l ∷ rest) f b o n = absurd f
goes_on r before after ((m, k) ∷ held) (release l ∷ rest) (e, f) b o n =
    subst
      (λ j.
        (us : List Holder) × LockStep
          (before ++ (record { held = (m, k) ∷ held; rest = release j ∷ rest } ∷ after)) us)
      e (_, releases before after held m k rest)

-- The thread holds a lock of this rank, and none above.
abbrev Reaches : ℕ → List (Mode × Lock) → Type 0
Reaches r held = (held ≢ []) × ((l : Lock) → Above held l → suc r ≤ rank l)

held-Reaches :
    (r : ℕ) (held : List (Mode × Lock)) → Below (suc r) held → Reaches r held ⊎ Below r held
held-Reaches r [] b = inr tt
held-Reaches r ((m, k) ∷ held) (h, b) = elim (Bool-cases (rank k == r)) [
  | inl e ↦
      let same = (==_iff (rank k) r).0 e in inl ((λ x. cc), λ l (a, others). omega (arith, same, a))
  | inr e ↦ elim (held-Reaches r held b) [
    | inl (n, f) ↦ inl ((λ x. cc), λ l (a, others). f l others)
    | inr c ↦ inr (ground (arith, e, h), c)
  ]
]

-- Some thread holds a lock of this rank, or all are below.
Found : ℕ → List Holder → Type 0
Found r ts =
    (before : List Holder) × (t : Holder) × (after : List Holder) × (ts ≡ before ++ (t ∷ after))
    × Reaches r t.held

find_highest : (r : ℕ) (ts : List Holder) → AllBelow (suc r) ts → Found r ts ⊎ AllBelow r ts
unfolding Found
find_highest r [] b = inr tt
find_highest r (t ∷ ts) (h, b) = elim (held-Reaches r t.held h) [
  | inl q ↦ inl ([], t, ts, refl, q)
  | inr c ↦ elim (find_highest r ts b) [
    | inl (before, u, after, e, q) ↦ inl (t ∷ before, u, after, ap (λ l. t ∷ l) e, q)
    | inr d ↦ inr (c, d)
  ]
]

abbrev pub AllDone : List Holder → Type 0
AllDone ts = All (λ (t : Holder). t.rest ≡ []) ts

-- All threads are at their ends, or one of them can go on.
abbrev pub GoesOn : List Holder → Type 0
GoesOn ts = AllDone ts ⊎ ((us : List Holder) × LockStep ts us)

rest_cases : (rest : List Action) → (rest ≡ []) ⊎ (rest ≢ [])
rest_cases [] = inl refl
rest_cases (a ∷ rest) = inr (λ e. cc)

-- A thread that is not at its end.
Unfinished : List Holder → Type 0
Unfinished ts =
    (before : List Holder) × (t : Holder) × (after : List Holder) × (ts ≡ before ++ (t ∷ after))
    × (t.rest ≢ [])

find-Unfinished : (ts : List Holder) → AllDone ts ⊎ Unfinished ts
unfolding Unfinished
find-Unfinished [] = inl tt
find-Unfinished (t ∷ ts) = elim (rest_cases t.rest) [
  | inr n ↦ inr ([], t, ts, refl, n)
  | inl e ↦ elim (find-Unfinished ts) [
    | inl d ↦ inl (e, d)
    | inr (before, u, after, q, n) ↦ inr (t ∷ before, u, after, ap (λ l. t ∷ l) q, n)
  ]
]

-- The thread at this place, if it goes above all locks held.
at-GoesOn :
    (r : ℕ) (ts before : List Holder) (t : Holder) (after : List Holder)
    → ts ≡ before ++ (t ∷ after)
    → AllFit ts
    → AllBelow r ts
    → ((l : Lock) → Above t.held l → r ≤ rank l)
    → (Fits t.held t.rest → t.rest ≢ [])
    → GoesOn ts
at-GoesOn r ts before t after e f b up n =
    let t_fits = All-at (λ (u : Holder). Fits u.held u.rest) before after t (subst AllFit e f) in
    let others = All-but (λ (u : Holder). Below r u.held) before after t (subst (AllBelow r) e b) in
    let (us, s) = goes_on r before after t.held t.rest t_fits others up (n t_fits) in
    inr (us, subst (λ l. LockStep l us) (sym e) s)

none-GoesOn : (ts : List Holder) → AllFit ts → AllBelow 0 ts → GoesOn ts
unfolding Unfinished
none-GoesOn ts f b = elim (find-Unfinished ts) [
  | inl d ↦ inl d
  | inr (before, t, after, e, n) ↦ at-GoesOn 0 ts before t after e f b (λ l a. omega arith) (λ x. n)
]

Found-GoesOn : (r : ℕ) (ts : List Holder) → AllFit ts → AllBelow (suc r) ts → Found r ts → GoesOn ts
unfolding Found
Found-GoesOn r ts f b (before, t, after, e, (n, up)) =
    at-GoesOn (suc r) ts before t after e f b up (λ fits q. n (subst (Fits t.held) q fits))

below-GoesOn : (r : ℕ) (ts : List Holder) → AllFit ts → AllBelow r ts → GoesOn ts
below-GoesOn zero ts f b = none-GoesOn ts f b
below-GoesOn (suc r) ts f b = elim (find_highest r ts b) [
  | inl q ↦ Found-GoesOn r ts f b q
  | inr c ↦ below-GoesOn r ts f c
]

-- No deadlock: in whatever order any number of threads have taken and released their locks, for any
-- rounds of the forwarders' loops, restarts and requests of the metrics server, and whichever of them
-- initialize the statics, either all threads are at their ends or one of them can go on.
pub no_deadlock : (roles : List Role) (ts : List Holder) → LockRun (at_begin roles) ts → GoesOn ts
no_deadlock roles ts r =
    below-GoesOn 8 ts (run-AllFit r (at_begin-AllFit roles)) (AllBelow-always ts)
