-- ===== src/Api/Limits/Window.antt =====
-- The deque of a client decides as if every admitted request were remembered.
use mathlib.Core.Path.{ap₂}
use evidence_flow.Prelude.{
  ℕ, ◌+◌, ◌≤◌, ◌<◌, ◌≡◌, refl, sym, ap, ◌∙◌, Bool, true, false, not, List, [], ◌∷◌, ◌++◌, Text,
  arith, leb, ◌==◌, ==_iff, nat_eq, list_eq, length, filter, All, All-append, All-filter,
  Bool-cases, inl, inr, if◌then◌else◌,
}
use evidence_flow.Api.Limits.{SlidingWindow, expire, put_hits, allows}

-- The moments of `log` that lie less than a window before `moment`.
abbrev pub recent : ℕ → ℕ → List ℕ → List ℕ
recent window moment log = filter (λ hit. not (leb (hit + window) moment)) log

-- Moments that do not fall, none after `bound`.
abbrev pub Rising : ℕ → List ℕ → Type 0
Rising bound [] = Unit {0}
Rising bound (x ∷ xs) = (x ≤ bound) × All (λ y. x ≤ y) xs × Rising bound xs

recent-All :
    (window moment : ℕ) (xs : List ℕ)
    → All (λ x. moment < x + window) xs
    → recent window moment xs ≡ xs
recent-All window moment [] h = refl
recent-All window moment (x ∷ xs) h = ground (arith, recent-All window moment xs h.1)

late-All :
    (window moment x : ℕ) (xs : List ℕ)
    → moment < x + window
    → All (λ y. x ≤ y) xs
    → All (λ y. moment < y + window) xs
late-All window moment x [] h k = tt
late-All window moment x (y ∷ ys) h k = (omega arith, late-All window moment x ys h k.1)

-- On rising moments, dropping from the left until one is recent keeps just the recent ones.
pub expire-recent :
    (window moment bound : ℕ) (hits : List ℕ)
    → Rising bound hits
    → expire window moment hits ≡ recent window moment hits
unfolding expire
expire-recent window moment bound [] h = refl
expire-recent window moment bound (x ∷ xs) h = elim (Bool-cases (leb (x + window) moment)) [
  | inl old ↦ rw old (expire-recent window moment bound xs h.2)
  | inr new ↦ rw new (
      ap (λ l. x ∷ l)
        (sym (recent-All window moment xs (late-All window moment x xs (ground arith) h.1))))
]

-- Forgetting what was not recent earlier changes nothing later.
recent-recent :
    (window earlier later : ℕ) (log : List ℕ)
    → earlier ≤ later
    → recent window later (recent window earlier log) ≡ recent window later log
recent-recent window earlier later [] h = refl
recent-recent window earlier later (x ∷ xs) h =
    ground (arith, recent-recent window earlier later xs h)

recent-append :
    (window moment : ℕ) (xs ys : List ℕ)
    → recent window moment (xs ++ ys) ≡ recent window moment xs ++ recent window moment ys
recent-append window moment [] ys = refl
recent-append window moment (x ∷ xs) ys = ground (arith, recent-append window moment xs ys)

Rising-recent :
    (window moment bound : ℕ) (xs : List ℕ)
    → Rising bound xs
    → Rising bound (recent window moment xs)
Rising-recent window moment bound [] h = tt
Rising-recent window moment bound (x ∷ xs) h = elim (Bool-cases (leb (x + window) moment)) [
  | inl old ↦ rw old (Rising-recent window moment bound xs h.2)
  | inr new ↦
      rw new (h.0, All-filter (λ y. x ≤ y) _ xs h.1, Rising-recent window moment bound xs h.2)
]

Rising-later : (now moment : ℕ) (xs : List ℕ) → now ≤ moment → Rising now xs → Rising moment xs
Rising-later now moment [] l h = tt
Rising-later now moment (x ∷ xs) l h = (omega arith, h.1, Rising-later now moment xs l h.2)

Rising-snoc : (moment : ℕ) (xs : List ℕ) → Rising moment xs → Rising moment (xs ++ moment ∷ [])
Rising-snoc moment [] h = (omega arith, tt, tt)
Rising-snoc moment (x ∷ xs) h =
    (h.0, All-append (λ y. x ≤ y) xs (moment ∷ []) h.1 (h.0, tt), Rising-snoc moment xs h.2)

-- Requests, as a client and a moment each, answered one after another.
pub run : SlidingWindow → List (Text × ℕ) → List Bool
run w [] = []
run w ((client, moment) ∷ requests) =
    let (allowed, after) = allows client moment w in allowed ∷ run after requests

abbrev Logs : Type 0
Logs = Text → List ℕ

abbrev pub note : Bool → Text → ℕ → Logs → Logs
note false client moment logs = logs
note true client moment logs =
    λ other. if other == client then logs other ++ moment ∷ [] else logs other

-- The contract: a request is admitted if fewer than `limit` requests of its client were admitted less
-- than a window ago. Nothing is ever forgotten.
abbrev pub admits : ℕ → ℕ → Text → ℕ → Logs → Bool
admits limit window client moment logs =
    not (leb limit (length (recent window moment (logs client))))

pub ideal : ℕ → ℕ → Logs → List (Text × ℕ) → List Bool
ideal limit window logs [] = []
ideal limit window logs ((client, moment) ∷ requests) =
    let allowed = admits limit window client moment logs in
    allowed ∷ ideal limit window (note allowed client moment logs) requests

-- The deques hold what is recent in the logs.
record Tracks (w : SlidingWindow) (logs : Logs) (now : ℕ) : Type 0 where
  agree : (c : Text) → recent w.window now (w.seen c) ≡ recent w.window now (logs c)
  rising : (c : Text) → Rising now (w.seen c)

module _ (w : SlidingWindow) (logs : Logs) (now moment : ℕ) (t : Tracks w logs now)
    (l : now ≤ moment) where
  agree_later : (c : Text) → recent w.window moment (w.seen c) ≡ recent w.window moment (logs c)
  agree_later c =
      sym (recent-recent w.window now moment (w.seen c) l)
      ∙ ap (recent w.window moment) (t.agree c)
      ∙ recent-recent w.window now moment (logs c) l

  kept : (c : Text) → expire w.window moment (w.seen c) ≡ recent w.window moment (logs c)
  kept c = expire-recent w.window moment now (w.seen c) (t.rising c) ∙ agree_later c

  kept-Rising : (c : Text) → Rising moment (expire w.window moment (w.seen c))
  kept-Rising c = rw (expire-recent w.window moment now (w.seen c) (t.rising c)) (
      Rising-recent w.window moment moment (w.seen c)
        (Rising-later now moment (w.seen c) l (t.rising c)))

  recent_kept :
      (c : Text)
      → recent w.window moment (expire w.window moment (w.seen c)) ≡ recent w.window moment (logs c)
  recent_kept c =
      ap (recent w.window moment) (kept c)
      ∙ recent-recent w.window moment moment (logs c) (omega arith)

  refusal-Tracks :
      (c : Text) → Tracks (put_hits c (expire w.window moment (w.seen c)) w) logs moment
  refusal-Tracks c = record {
    agree = λ other. elim (Bool-cases (other == c)) [
      | inl same ↦ rw same (
          recent_kept c ∙ ap (λ o. recent w.window moment (logs o)) (sym ((==_iff other c).0 same)))
      | inr differ ↦ rw differ (agree_later other)
    ];
    rising = λ other. elim (Bool-cases (other == c)) [
      | inl same ↦ rw same (kept-Rising c)
      | inr differ ↦ rw differ (Rising-later now moment (w.seen other) l (t.rising other))
    ];
  }

  admission-Tracks :
      (c : Text)
      → Tracks
          (put_hits c (expire w.window moment (w.seen c) ++ moment ∷ []) w)
          (note true c moment logs)
          moment
  admission-Tracks c = record {
    agree = λ other. elim (Bool-cases (other == c)) [
      | inl same ↦ rw same (
          recent-append w.window moment (expire w.window moment (w.seen c)) (moment ∷ [])
          ∙ ap (λ r. r ++ recent w.window moment (moment ∷ []))
              (recent_kept c
                ∙ ap (λ o. recent w.window moment (logs o)) (sym ((==_iff other c).0 same)))
          ∙ sym (recent-append w.window moment (logs other) (moment ∷ [])))
      | inr differ ↦ rw differ (agree_later other)
    ];
    rising = λ other. elim (Bool-cases (other == c)) [
      | inl same ↦ rw same (Rising-snoc moment (expire w.window moment (w.seen c)) (kept-Rising c))
      | inr differ ↦ rw differ (Rising-later now moment (w.seen other) l (t.rising other))
    ];
  }

  full : Text → Bool
  full c = leb w.limit (length (expire w.window moment (w.seen c)))

  decision : (c : Text) → (allows c moment w).0 ≡ admits w.limit w.window c moment logs
  unfolding allows
  decision c = rw (kept c) (ground arith)

  allows-Tracks :
      (c : Text) → Tracks (allows c moment w).1 (note (allows c moment w).0 c moment logs) moment
  unfolding allows full
  allows-Tracks c = elim (Bool-cases (full c)) [
    | inl over ↦ rw over (refusal-Tracks c)
    | inr room ↦ rw room (admission-Tracks c)
  ]

allows-limit :
    (c : Text) (moment : ℕ) (w : SlidingWindow)
    → ((allows c moment w).1.limit ≡ w.limit) × ((allows c moment w).1.window ≡ w.window)
unfolding allows
allows-limit c moment w = ground arith

-- The moments of a list of requests do not fall, from `now` on.
abbrev pub InOrder : ℕ → List (Text × ℕ) → Type 0
InOrder now [] = Unit {0}
InOrder now (r ∷ requests) = (now ≤ r.1) × InOrder r.1 requests

run-ideal :
    (w : SlidingWindow) (logs : Logs) (now : ℕ) (requests : List (Text × ℕ))
    → Tracks w logs now
    → InOrder now requests
    → run w requests ≡ ideal w.limit w.window logs requests
unfolding run ideal
run-ideal w logs now [] t h = refl
run-ideal w logs now ((c, m) ∷ requests) t h =
    let after = (allows c m w).1 in
    let same = decision w logs now m t h.0 c in
    let later =
      run-ideal after (note (allows c m w).0 c m logs) m requests
        (allows-Tracks w logs now m t h.0 c) h.1 in
    ap₂ (λ b l. b ∷ l) same
      (later
        ∙ ap₂ (λ limit window. ideal limit window (note (allows c m w).0 c m logs) requests)
            (allows-limit c m w).0 (allows-limit c m w).1
        ∙ ap (λ b. ideal w.limit w.window (note b c m logs) requests) same)

abbrev pub fresh_window : ℕ → ℕ → SlidingWindow
fresh_window limit window = record { limit = limit; window = window; seen = λ c. [] }

abbrev pub no_logs : Logs
no_logs c = []

-- From an empty window, requests whose moments do not fall get just the answers of the contract: each
-- is admitted exactly if fewer than `limit` of its client's were admitted less than a window ago.
pub run-eq-ideal :
    (limit window : ℕ) (requests : List (Text × ℕ))
    → InOrder 0 requests
    → run (fresh_window limit window) requests ≡ ideal limit window no_logs requests
run-eq-ideal limit window requests h =
    run-ideal (fresh_window limit window) no_logs 0 requests
      (record { agree = λ c. refl; rising = λ c. tt }) h
