-- ===== src/Api/Limits.antt =====
-- app/api/limits.py: the sliding window and the middleware. Moments are whole ticks of the monotonic
-- clock. `seen` is a function from a client to its deque, oldest hit first, empty for a new client.
pub mod Window
use evidence_flow.Prelude.{
  ℕ, ◌+◌, Bool, true, false, ◌&&◌, ◌||◌, not, Option, none, some, List, [], ◌∷◌, ◌++◌, Text, codes,
  ltb, leb, ◌==◌, nat_eq, list_eq, contains, length, if◌then◌else◌,
}

pub record SlidingWindow : Type 0 where
  pub limit : ℕ
  pub window : ℕ
  pub seen : Text → List ℕ

-- `while hits and hits[0] <= moment - self.window: hits.popleft()`
unfoldable pub expire : ℕ → ℕ → List ℕ → List ℕ
expire window moment [] = []
expire window moment (hit ∷ hits) =
    let rest = expire window moment hits in if leb (hit + window) moment then rest else hit ∷ hits

abbrev pub put_hits : Text → List ℕ → SlidingWindow → SlidingWindow
put_hits client hits w = record w { seen = λ other. if other == client then hits else w.seen other }

unfoldable pub allows : Text → ℕ → SlidingWindow → Bool × SlidingWindow
unfolding expire
allows client moment w =
    let hits = expire w.window moment (w.seen client) in
    if leb w.limit (length hits)
    then (false, put_hits client hits w)
    else (true, put_hits client (hits ++ moment ∷ []) w)

-- The Content-Length header: absent or empty, a number, or text that `int` refuses.
pub data Declared : Type 0 where
  absent malformed : Declared
  size : ℕ → Declared

pub data Answer : Type 0 where
  forwarded : Answer
  refused : ℕ → Answer
  -- an exception of the middleware itself
  server_error : Answer

abbrev pub guarded_methods : List Text
guarded_methods = codes "POST" ∷ codes "PUT" ∷ codes "PATCH" ∷ codes "DELETE" ∷ []

abbrev client_or_unknown : Option Text → Text
client_or_unknown none = codes "unknown"
client_or_unknown (some host) = host

-- Past the test of the size.
unfoldable pub admit : Option Text → ℕ → SlidingWindow → Answer × SlidingWindow
admit client moment w =
    let (allowed, after) = allows (client_or_unknown client) moment w in
    if allowed then (forwarded, after) else (refused 429, after)

unfoldable pub check_size : ℕ → Declared → Option Text → ℕ → SlidingWindow → Answer × SlidingWindow
unfolding admit
check_size max_body_bytes absent client moment w = admit client moment w
check_size max_body_bytes malformed client moment w = (server_error, w)
check_size max_body_bytes (size n) client moment w =
    if ltb max_body_bytes n then (refused 413, w) else admit client moment w

unfoldable pub dispatch :
    ℕ → Text → Declared → Option Text → ℕ → SlidingWindow → Answer × SlidingWindow
unfolding check_size
dispatch max_body_bytes method declared client moment w =
    if contains method guarded_methods
    then check_size max_body_bytes declared client moment w
    else (forwarded, w)
