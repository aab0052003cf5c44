-- ===== src/Hub/RateLimit/Window.antt =====
-- internal/hub/adapter/primary/httpapi/ratelimit.go: how many requests one window permits.
use constellate.Common.{
  ℕ, suc, ◌+◌, ◌-◌, ◌^◌, ◌≡◌, ◌≤◌, ◌<◌, ap, ◌∙◌, false, none, some, List, [], ◌∷◌, arith,
  Bool-cases, inl, inr, le_int, le_int-small, add_int-small, length, min,
}
use constellate.Maps.{Text, find}
use constellate.Maps.Laws.{same_text_refl}
use constellate.Hub.RateLimit.{Entry, RateLimiter, is_over, fresh_entry, Answer}
use constellate.Hub.RateLimit.Counter.{
  live, counter_of, counter, answers, counted_answers, times_of, InOrder, IsDistinct,
  answers_counted,
}

-- How many requests were permitted.
unfoldable pub permitted : List Answer → ℕ
permitted [] = 0
permitted (none ∷ rest) = suc (permitted rest)
permitted (some wait ∷ rest) = permitted rest

unfoldable pub AllUpTo : ℕ → List ℕ → Type 0
AllUpTo b [] = 0 ≤ b
AllUpTo b (t ∷ ts) = (t ≤ b) × AllUpTo b ts

permitted_in_window :
    (max window : ℕ) (ts : List ℕ) (e : Entry)
    → max < 2 ^ 63
    → e.count ≤ max
    → AllUpTo e.window_end ts
    → permitted (counted_answers max window ts (some e)) ≡ min (max - e.count) (length ts)
unfolding permitted counted_answers AllUpTo counter live counter_of
permitted_in_window max window [] e b c h = ground arith
permitted_in_window max window (t ∷ ts) e b c (g, h) =
    let o : is_over t e ≡ false = ground arith in
    let m = permitted_in_window max window ts in
    elim (Bool-cases (le_int max e.count)) [
      | inl p ↦
          rw (o, counter_of, p)
            (m e b c h ∙ ground (arith, p, le_int-small max e.count b (omega arith)))
      | inr p ↦
          let q : suc e.count ≤ max = ground (arith, p, le_int-small max e.count b (omega arith)) in
          rw (o, counter_of, p, add_int-small e.count 1 (omega arith))
            (ap suc (m (record e { count = e.count + 1 }) b (omega arith) h) ∙ ground arith)
    ]

-- Of the requests of a key in one window, which begins with a request for which no window is live,
-- the limiter permits as many as there are and at most its maximum, if that is at least 1 and
-- below 2 ^ 63, whatever other keys ask for.
permitted-answers :
    (k : Text) (t : ℕ) (rs : List (Text × ℕ)) (l : RateLimiter)
    → IsDistinct l.entries
    → InOrder t rs
    → live t (find k l.entries) ≡ none
    → AllUpTo (t + l.window) (times_of k rs)
    → 1 ≤ l.max
    → l.max < 2 ^ 63
    → permitted (answers k ((k, t) ∷ rs) l) ≡ min l.max (suc (length (times_of k rs)))
unfolding counted_answers counter counter_of permitted times_of InOrder
permitted-answers k t rs l d h n a b c =
    rw
      (
        answers_counted k ((k, t) ∷ rs) t l d (omega arith, h),
        same_text_refl k,
        counted_answers,
        counter,
        n,
        counter_of,
      )
      (ap suc (permitted_in_window l.max l.window (times_of k rs) (fresh_entry l t) c b a)
        ∙ ground arith)
