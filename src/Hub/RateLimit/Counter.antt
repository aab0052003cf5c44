-- ===== src/Hub/RateLimit/Counter.antt =====
-- The limiter of ratelimit.go against one counter for each key, which is never swept.
use constellate.Common.{
  ℕ, ◌+◌, ◌-◌, ◌≡◌, ◌≤◌, refl, ap, subst, ◌∙◌, true, false, if◌then◌else◌, Option, none, some, List,
  [], ◌∷◌, arith, Bool-cases, inl, inr, Word, add_int, le_int,
}
use constellate.Maps.{Text, Map, find, put, same_text}
use constellate.Maps.Laws.{find-put_self, find-put_ne, same_text_sound, same_text_sym}
use constellate.Hub.RateLimit.{
  Entry, RateLimiter, is_over, evict, is_multiple, counted_call, Answer, allow_entry, allow,
}

-- An entry whose window is over counts as none.
unfoldable pub live : ℕ → Option Entry → Option Entry
live now none = none
live now (some e) = if is_over now e then none else some e

-- One counter: a new window, a request more in it, or a refusal.
unfoldable pub counter_of : Word → ℕ → ℕ → Option Entry → Answer × Option Entry
counter_of max window now none = (none, some record { count = 1; window_end = now + window })
counter_of max window now (some e) =
    if le_int max e.count
    then (some (e.window_end - now), some e)
    else (none, some (record e { count = add_int e.count 1 }))

unfoldable pub counter : Word → ℕ → ℕ → Option Entry → Answer × Option Entry
counter max window now o = counter_of max window now (live now o)

-- The answers that the requests of one key get, of requests that each have a key and a time.
unfoldable pub answers : Text → List (Text × ℕ) → RateLimiter → List Answer
answers k [] l = []
answers k ((j, now) ∷ rs) l =
    let (a, m) = allow j now l in if same_text j k then a ∷ answers k rs m else answers k rs m

unfoldable pub counted_answers : Word → ℕ → List ℕ → Option Entry → List Answer
counted_answers max window [] o = []
counted_answers max window (now ∷ ts) o =
    let (a, p) = counter max window now o in a ∷ counted_answers max window ts p

unfoldable pub times_of : Text → List (Text × ℕ) → List ℕ
times_of k [] = []
times_of k ((j, now) ∷ rs) = if same_text j k then now ∷ times_of k rs else times_of k rs

-- The requests come in the order of their times, none before `t`.
unfoldable pub InOrder : ℕ → List (Text × ℕ) → Type 0
InOrder t [] = 0 ≤ t
InOrder t ((j, now) ∷ rs) = (t ≤ now) × InOrder now rs

-- No two entries have one key, as in any map of Go.
unfoldable pub IsDistinct : Map Entry → Type 0
IsDistinct [] = 0 ≤ 0
IsDistinct ((k, e) ∷ m) = (find k m ≡ none) × IsDistinct m

live-live : (t n : ℕ) (o : Option Entry) → t ≤ n → live n (live t o) ≡ live n o
unfolding live
live-live t n none h = refl
live-live t n (some e) h = elim (Bool-cases (is_over t e)) [
  | inl o ↦ ground (arith, o, h)
  | inr o ↦ ground (arith, o)
]

find-evict :
    (k : Text) (t : ℕ) (m : Map Entry) → IsDistinct m → find k (evict t m) ≡ live t (find k m)
unfolding find evict live IsDistinct
find-evict k t [] d = refl
find-evict k t ((j, e) ∷ m) (a, d) = elim (Bool-cases (same_text j k)) [
  | inl s ↦
      let b = subst (λ x. find x m ≡ none) (same_text_sound j k s) a in
      elim (Bool-cases (is_over t e)) [
        | inl o ↦ rw (s, o, find-evict k t m d, b) refl
        | inr o ↦ rw (s, o, find, s) refl
      ]
  | inr s ↦ elim (Bool-cases (is_over t e)) [
    | inl o ↦ rw (s, o) (find-evict k t m d)
    | inr o ↦ rw (s, o, find, s) (find-evict k t m d)
  ]
]

evict-IsDistinct : (t : ℕ) (m : Map Entry) → IsDistinct m → IsDistinct (evict t m)
unfolding evict IsDistinct live
evict-IsDistinct t [] d = d
evict-IsDistinct t ((j, e) ∷ m) (a, d) = elim (Bool-cases (is_over t e)) [
  | inl o ↦ rw o (evict-IsDistinct t m d)
  | inr o ↦ rw (o, IsDistinct) (find-evict j t m d ∙ rw a refl, evict-IsDistinct t m d)
]

put-IsDistinct : (k : Text) (e : Entry) (m : Map Entry) → IsDistinct m → IsDistinct (put k e m)
unfolding put IsDistinct find
put-IsDistinct k e [] d = (refl, d)
put-IsDistinct k e ((j, f) ∷ m) (a, d) = elim (Bool-cases (same_text j k)) [
  | inl s ↦ rw (s, IsDistinct) (a, d)
  | inr s ↦
      rw (s, IsDistinct) (find-put_ne k j e m (same_text_sym k j ∙ s) ∙ a, put-IsDistinct k e m d)
]

-- What a call leaves of the limiter `l`, for the later requests of the key `k`.
record Keeps (k : Text) (t : ℕ) (l m : RateLimiter) : Type 0 where
  same_max : m.max ≡ l.max
  same_window : m.window ≡ l.window
  distinct : IsDistinct m.entries
  found : (n : ℕ) → t ≤ n → live n (find k m.entries) ≡ live n (find k l.entries)

counted_call-Keeps :
    (k : Text) (t : ℕ) (l : RateLimiter) → IsDistinct l.entries → Keeps k t l (counted_call t l)
unfolding counted_call
counted_call-Keeps k t l d =
    elim (Bool-cases (is_multiple (add_int l.call_count 1) l.evict_interval)) [
      | inl e ↦ rw e record {
        same_max = refl;
        same_window = refl;
        distinct = evict-IsDistinct t l.entries d;
        found = λ n h. rw (find-evict k t l.entries d) (live-live t n (find k l.entries) h);
      }
      | inr e ↦
          rw e record { same_max = refl; same_window = refl; distinct = d; found = λ n h. refl }
    ]

put-Keeps :
    (j k : Text) (t : ℕ) (l : RateLimiter) (e : Entry)
    → same_text j k ≡ false
    → IsDistinct l.entries
    → Keeps k t l (record l { entries = put j e l.entries })
put-Keeps j k t l e h d = record {
  same_max = refl;
  same_window = refl;
  distinct = put-IsDistinct j e l.entries d;
  found = λ n g. ap (live n) (find-put_ne j k e l.entries h);
}

-- The call of another key.
allow_entry-Keeps :
    (j k : Text) (t : ℕ) (l : RateLimiter) (o : Option Entry)
    → same_text j k ≡ false
    → IsDistinct l.entries
    → Keeps k t l (allow_entry j t l o).1
unfolding allow_entry
allow_entry-Keeps j k t l none h d = put-Keeps j k t l _ h d
allow_entry-Keeps j k t l (some e) h d = elim (Bool-cases (is_over t e)) [
  | inl o ↦ rw o (put-Keeps j k t l _ h d)
  | inr o ↦ elim (Bool-cases (le_int l.max e.count)) [
    | inl p ↦
        rw (o, p) record { same_max = refl; same_window = refl; distinct = d; found = λ n g. refl }
    | inr p ↦ rw (o, p) (put-Keeps j k t l _ h d)
  ]
]

-- What a call under the key `k` answers and leaves, where the counter of `k` answers and leaves `c`.
record Counts (k : Text) (l : RateLimiter) (c : Answer × Option Entry) (r : Answer × RateLimiter)
    : Type 0 where
  same_answer : r.0 ≡ c.0
  found : find k r.1.entries ≡ c.1
  same_max : r.1.max ≡ l.max
  same_window : r.1.window ≡ l.window
  distinct : IsDistinct r.1.entries

module _ (k : Text) (t : ℕ) (l : RateLimiter) (d : IsDistinct l.entries) where
  put-Counts :
      (e : Entry) → Counts k l (none, some e) (none, record l { entries = put k e l.entries })
  put-Counts e = record {
    same_answer = refl;
    found = find-put_self k e l.entries;
    same_max = refl;
    same_window = refl;
    distinct = put-IsDistinct k e l.entries d;
  }

  allow_entry-Counts :
      (o : Option Entry)
      → find k l.entries ≡ o
      → Counts k l (counter l.max l.window t o) (allow_entry k t l o)
  unfolding allow_entry counter counter_of live
  allow_entry-Counts none f = put-Counts _
  allow_entry-Counts (some e) f = elim (Bool-cases (is_over t e)) [
    | inl o ↦ rw (o, counter_of) (put-Counts _)
    | inr o ↦ elim (Bool-cases (le_int l.max e.count)) [
      | inl p ↦
          rw (o, counter_of, p)
            record {
              same_answer = refl;
              found = f;
              same_max = refl;
              same_window = refl;
              distinct = d;
            }
      | inr p ↦ rw (o, counter_of, p) (put-Counts _)
    ]
  ]

-- A limiter that answers for `k` from `t` on as the counter in the state `o` does.
record Tracks (max : Word) (window : ℕ) (k : Text) (t : ℕ) (o : Option Entry) (l : RateLimiter)
    : Type 0 where
  same_max : l.max ≡ max
  same_window : l.window ≡ window
  distinct : IsDistinct l.entries
  found : (n : ℕ) → t ≤ n → live n (find k l.entries) ≡ live n o

counter_of_eq :
    {a b c d : ℕ} {x y : Option Entry} (n : ℕ)
    → a ≡ b
    → c ≡ d
    → x ≡ y
    → counter_of a c n x ≡ counter_of b d n y
counter_of_eq n p q r = cc

module _ (max : Word) (window : ℕ) (k : Text) where
  other-Tracks :
      (t n : ℕ) (o : Option Entry) (l : RateLimiter) (j : Text)
      → same_text j k ≡ false
      → t ≤ n
      → Tracks max window k t o l
      → Tracks max window k n o (allow j n l).1
  unfolding allow
  other-Tracks t n o l j h g v =
      let a = counted_call-Keeps k n l v.distinct in
      let m = counted_call n l in
      let b = allow_entry-Keeps j k n m (find j m.entries) h a.distinct in
      record {
        same_max = b.same_max ∙ a.same_max ∙ v.same_max;
        same_window = b.same_window ∙ a.same_window ∙ v.same_window;
        distinct = b.distinct;
        found = λ i f. b.found i f ∙ a.found i f ∙ v.found i (omega (arith, f, g));
      }

  same-Tracks :
      (t n : ℕ) (o : Option Entry) (l : RateLimiter) (j : Text)
      → same_text j k ≡ true
      → t ≤ n
      → Tracks max window k t o l
      → ((allow j n l).0 ≡ (counter max window n o).0)
        × Tracks max window k n (counter max window n o).1 (allow j n l).1
  unfolding allow counter
  same-Tracks t n o l j h g v =
      let a = counted_call-Keeps k n l v.distinct in
      let m = counted_call n l in
      let b = allow_entry-Counts k n m a.distinct (find k m.entries) refl in
      let e : counter m.max m.window n (find k m.entries) ≡ counter max window n o =
        counter_of_eq n (a.same_max ∙ v.same_max) (a.same_window ∙ v.same_window)
          (a.found n (omega arith) ∙ v.found n g) in
      rw (same_text_sound j k h) (
        b.same_answer ∙ ap (λ x. x.0) e,
        record {
          same_max = b.same_max ∙ a.same_max ∙ v.same_max;
          same_window = b.same_window ∙ a.same_window ∙ v.same_window;
          distinct = b.distinct;
          found = λ i f. ap (live i) (b.found ∙ ap (λ x. x.1) e);
        },
      )

  answers-Tracks :
      (rs : List (Text × ℕ)) (t : ℕ) (o : Option Entry) (l : RateLimiter)
      → InOrder t rs
      → Tracks max window k t o l
      → answers k rs l ≡ counted_answers max window (times_of k rs) o
  unfolding answers counted_answers times_of InOrder
  answers-Tracks [] t o l h v = refl
  answers-Tracks ((j, n) ∷ rs) t o l (g, h) v = elim (Bool-cases (same_text j k)) [
    | inl s ↦
        let (a, w) = same-Tracks t n o l j s g v in
        rw (s, a, answers-Tracks rs n (counter max window n o).1 (allow j n l).1 h w) refl
    | inr s ↦
        let w = other-Tracks t n o l j s g v in
        rw (s, answers-Tracks rs n o (allow j n l).1 h w) refl
  ]

-- For requests in the order of their times, the limiter answers those of each key as one counter
-- of that key alone does, which starts a window with a request behind the last one and is never
-- swept.
pub answers_counted :
    (k : Text) (rs : List (Text × ℕ)) (t : ℕ) (l : RateLimiter)
    → IsDistinct l.entries
    → InOrder t rs
    → answers k rs l ≡ counted_answers l.max l.window (times_of k rs) (find k l.entries)
answers_counted k rs t l d h =
    answers-Tracks l.max l.window k rs t (find k l.entries) l h
      record { same_max = refl; same_window = refl; distinct = d; found = λ n g. refl }
