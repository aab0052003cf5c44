-- ===== src/Terminal/Scrollback/History.antt =====
-- The buffer of the scrollback against all that was ever written to it.
use constellate.Common.{
  ℕ, zero, suc, ◌+◌, ◌-◌, ◌≤◌, ◌<◌, ◌^◌, ◌≡◌, refl, sym, ap, ◌∙◌, Bool, Bool-cases, true, false,
  ◌||◌, inl, inr, List, [], ◌∷◌, ◌++◌, Word, add_int, add_int-small, le_int-small, ltb,
  if◌then◌else◌, length, length-append, length-drop, take, drop, drop-append, drop-append_ge,
  drop-drop, append-nil, append_assoc, subst, arith,
}
use constellate.Terminal.Scrollback.{
  Bytes, Scrollback, new, new_with_data, write, shorten, evict, close, Read, got, ended, read_from,
}
use constellate.Terminal.Scrollback.Closed.{closed-write, closed-new}

-- `history` is all that was written: the buffer is its last `max` bytes, and `start` counts the
-- bytes before them. The history is shorter than the largest offset.
pub record Holds (s : Scrollback) (history : Bytes) : Type 0 where
  pub max_pos : 0 < s.max
  pub fits : length history < 2 ^ 63
  pub start_is : s.start ≡ length history - s.max
  pub buf_is : s.buf ≡ drop (length history - s.max) history

take-length : (n : ℕ) (xs : Bytes) → length xs ≤ n → take n xs ≡ xs
take-length zero [] h = refl
take-length zero (x ∷ xs) h = absurd (omega arith)
take-length (suc n) [] h = refl
take-length (suc n) (x ∷ xs) h = ap (◌∷◌ x) (take-length n xs (omega arith))

drop-eq : (m n : ℕ) (xs : Bytes) → m ≡ n → drop m xs ≡ drop n xs
drop-eq m n xs e = ap (λ k. drop k xs) e

module _ (s : Scrollback) (h : Bytes) (k : ℕ) (pos : 0 < s.max) (fits : length h < 2 ^ 63)
    (le : k ≤ length h - s.max) (start_is : s.start ≡ k) (buf_is : s.buf ≡ drop k h) where
  size : length s.buf ≡ length h - k
  size = omega (arith, ap length buf_is, length-drop k h)

  cut :
      ltb s.max (length s.buf) ≡ true
      → take s.max (drop (length s.buf - s.max) s.buf) ≡ drop (length h - s.max) h
  cut over =
      ap (λ b. take s.max (drop (length s.buf - s.max) b)) buf_is
      ∙ ap (take s.max) (drop-drop (length s.buf - s.max) k h)
      ∙ ap (λ n. take s.max (drop n h)) {x = k + (length s.buf - s.max)} (ground (arith, size))
      ∙ take-length s.max (drop (length h - s.max) h)
          (omega (arith, length-drop (length h - s.max) h))

  -- A buffer that holds the history from `k` on is cut back to its last `max` bytes.
  evict-Holds : Holds (evict s) h
  unfolding evict
  evict-Holds = elim (Bool-cases (ltb s.max (length s.buf))) [
    | inl over ↦ rw over record {
      max_pos = pos;
      fits = fits;
      start_is = ground (arith, size, add_int-small s.start (length s.buf - s.max));
      buf_is = cut over;
    }
    | inr under ↦ rw under record {
      max_pos = pos;
      fits = fits;
      start_is = ground (arith, size);
      buf_is = buf_is ∙ ap (λ n. drop n h) {x = k} (ground (arith, size));
    }
  ]

held : (s : Scrollback) (h : Bytes) → Holds s h → length s.buf ≡ length h - (length h - s.max)
held s h v = omega (arith, ap length v.buf_is, length-drop (length h - s.max) h)

module _ (s : Scrollback) (h p : Bytes) (v : Holds s h) (fits : length h + length p < 2 ^ 63) where
  -- If the buffer holds the last `max` bytes of a history, at their absolute offset, then after a
  -- write that keeps the history below 2 ^ 63 bytes it holds the last `max` bytes of the history
  -- with the written bytes behind it.
  pub write-Holds : Holds (write p s) (h ++ p)
  unfolding write shorten
  write-Holds = elim (Bool-cases (ltb s.max (length p))) [
    | inl over ↦ rw over (
        evict-Holds
          record s {
            buf = drop (length p - s.max) p;
            start = add_int s.start (add_int (length s.buf) (length p - s.max));
          }
          (h ++ p) (length h + length p - s.max) v.max_pos (omega (arith, length-append h p))
          (omega (arith, length-append h p))
          (ground (
            arith,
            held s h v,
            v.start_is,
            add_int-small (length s.buf) (length p - s.max),
            add_int-small s.start (length s.buf + (length p - s.max)),
          ))
          (ap (λ n. drop n p) {x = length p - s.max} (ground arith)
            ∙ sym (drop-append_ge (length h + length p - s.max) h p (ground arith))))
    | inr under ↦ rw under (
        evict-Holds record s { buf = s.buf ++ p } (h ++ p) (length h - s.max) v.max_pos
          (omega (arith, length-append h p)) (omega (arith, length-append h p)) v.start_is
          (ap (λ b. b ++ p) v.buf_is ∙ sym (drop-append (length h - s.max) h p (omega arith))))
  ]

drop-nil : (n : ℕ) → drop {A = ℕ} n [] ≡ []
drop-nil zero = refl
drop-nil (suc n) = refl

pub new-Holds : (max : Word) → max < 2 ^ 63 → Holds (new max) []
unfolding new
new-Holds max h = record {
  max_pos = ground (arith, le_int-small max 0);
  fits = omega arith;
  start_is = omega arith;
  buf_is = sym (drop-nil (0 - (new max).max));
}

pub new_with_data-Holds :
    (max : Word) (p : Bytes) → max < 2 ^ 63 → length p < 2 ^ 63 → Holds (new_with_data max p) p
unfolding new_with_data
new_with_data-Holds max [] h k = new-Holds max h
new_with_data-Holds max (b ∷ p) h k =
    write-Holds (new max) [] (b ∷ p) (new-Holds max h) (omega (arith, k))

-- What is called on a scrollback, beside its readers.
pub data Call : Type 0 where
  writes : Bytes → Call
  closes : Call

abbrev pub call : Call → Scrollback → Scrollback
call (writes p) s = write p s
call closes s = close s

unfoldable pub calls : List Call → Scrollback → Scrollback
calls [] s = s
calls (c ∷ cs) s = calls cs (call c s)

-- All that the calls wrote, and whether one of them closed the scrollback.
unfoldable pub written : List Call → Bytes
written [] = []
written (writes p ∷ cs) = p ++ written cs
written (closes ∷ cs) = written cs

unfoldable pub is_closed : List Call → Bool
is_closed [] = false
is_closed (writes p ∷ cs) = is_closed cs
is_closed (closes ∷ cs) = true

max-write : (p : Bytes) (s : Scrollback) → (write p s).max ≡ s.max
unfolding write shorten evict
max-write p s = ground arith

close-Holds : (s : Scrollback) (h : Bytes) → Holds s h → Holds (close s) h
unfolding close
close-Holds s h v = record {
  max_pos = v.max_pos;
  fits = v.fits;
  start_is = v.start_is;
  buf_is = v.buf_is;
}

max-calls : (cs : List Call) (s : Scrollback) → (calls cs s).max ≡ s.max
unfolding calls close
max-calls [] s = refl
max-calls (writes p ∷ cs) s = max-calls cs (write p s) ∙ max-write p s
max-calls (closes ∷ cs) s = max-calls cs (close s)

closed-calls : (cs : List Call) (s : Scrollback) → (calls cs s).closed ≡ (s.closed || is_closed cs)
unfolding calls close is_closed
closed-calls [] s = ground arith
closed-calls (writes p ∷ cs) s =
    closed-calls cs (write p s) ∙ ap (λ b. b || is_closed cs) (closed-write p s)
closed-calls (closes ∷ cs) s = closed-calls cs (close s) ∙ ground arith

calls-Holds :
    (cs : List Call) (s : Scrollback) (h : Bytes)
    → Holds s h
    → length h + length (written cs) < 2 ^ 63
    → Holds (calls cs s) (h ++ written cs)
unfolding calls written
calls-Holds [] s h v fits = rw (append-nil h) v
calls-Holds (writes p ∷ cs) s h v fits =
    subst (Holds (calls cs (write p s))) (append_assoc h p (written cs)) (
      calls-Holds cs (write p s) (h ++ p)
        (write-Holds s h p v (omega (arith, length-append p (written cs))))
        (omega (arith, length-append p (written cs), length-append h p)))
calls-Holds (closes ∷ cs) s h v fits = calls-Holds cs (close s) h (close-Holds s h v) fits

-- A reader at `cursor`, where all of `h` was written and the last `max` bytes are kept: it gets what
-- is kept from its cursor on, and its next cursor is the end; from there on it ends or waits.
unfoldable pub read_all : ℕ → Bool → Word → Bytes → Read
read_all max closed cursor h =
    if ltb cursor (length h - max)
    then got (drop (length h - max) h) (length h)
    else if ltb cursor (length h)
    then got (drop cursor h) (length h)
    else if closed
    then ended cursor
    else Read.waits cursor

end_is : (s : Scrollback) (h : Bytes) → Holds s h → add_int s.start (length s.buf) ≡ length h
end_is s h v = ground (arith, v.start_is, v.fits, held s h v, add_int-small s.start (length s.buf))

from_here :
    (c : ℕ) (s : Scrollback) (h : Bytes)
    → Holds s h
    → s.start ≤ c
    → drop (c - s.start) s.buf ≡ drop c h
from_here c s h v le =
    ap (drop (c - s.start)) v.buf_is
    ∙ drop-drop (c - s.start) (length h - s.max) h
    ∙ ap (λ n. drop n h) {x = length h - s.max + (c - s.start)} (omega (arith, v.start_is))

read_from-Holds :
    (cursor : Word) (s : Scrollback) (h : Bytes)
    → Holds s h
    → read_from cursor s ≡ read_all s.max s.closed cursor h
unfolding read_from read_all
read_from-Holds cursor s h v = elim (Bool-cases (ltb cursor s.start)) [
  | inl old ↦ ground (arith, old, end_is s h v, v.start_is, v.buf_is)
  | inr new' ↦ elim (Bool-cases (ltb cursor (length h))) [
    | inl inside ↦
        ground
          (arith, new', inside, end_is s h v, v.start_is, from_here cursor s h v (ground arith))
    | inr past ↦ ground (arith, new', past, end_is s h v, v.start_is)
  ]
]

-- A reader of a scrollback of any capacity below 2 ^ 63, on which any writes, of fewer than 2 ^ 63
-- bytes in all, and any closes were called, gets all that was written from its cursor on, or from
-- the oldest byte that is kept if its cursor fell behind, with the end of what was written as its
-- next cursor; at or past the end it ends if one of the calls closed the scrollback, and waits
-- otherwise.
pub read_from-calls :
    (max cursor : Word) (cs : List Call)
    → max < 2 ^ 63
    → length (written cs) < 2 ^ 63
    → read_from cursor (calls cs (new max))
      ≡ read_all (new max).max (is_closed cs) cursor (written cs)
read_from-calls max cursor cs h fits =
    read_from-Holds cursor (calls cs (new max)) (written cs)
      (calls-Holds cs (new max) [] (new-Holds max h) (omega arith))
    ∙ ap (λ n. read_all n (calls cs (new max)).closed cursor (written cs)) (max-calls cs (new max))
    ∙ ap (λ b. read_all (new max).max b cursor (written cs))
        (closed-calls cs (new max) ∙ ap (λ b. b || is_closed cs) (closed-new max))
