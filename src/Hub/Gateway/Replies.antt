-- ===== src/Hub/Gateway/Replies.antt =====
-- gateway.go: a reply goes to the open that waits for it, and never blocks the loop that reads the
-- agent's messages.
use constellate.Common.{
  ℕ, ◌<◌, ◌≡◌, ◌⊎◌, refl, ap, sym, subst, ◌∙◌, true, false, Bool-cases, inl, inr, Option, none,
  some, [], ◌∷◌, ◌++◌, arith, length, get_elem?, get_elem?-set_self, get_elem?-set_ne, set,
  get_elem?-append_length, get_elem?-append_some, some-lt-length,
}
use constellate.Maps.{Text, same_text, Map, find, put, remove}
use constellate.Maps.Laws.{find-put, find-remove, find-remove_self, same_text_sound}
use constellate.Hub.Gateway.{
  OpenResult, Link, await_open, cancel_open, send, resolve_found, resolve_open, take_result,
  receive,
}

-- Every open that waits has an empty channel of its own.
pub record IsWaiting (l : Link) : Type 0 where
  pub blank :
      (id : Text) (ch : ℕ) → find id l.pending ≡ some ch → get_elem? l.channels ch ≡ some none
  pub apart :
      (i j : Text) (ch : ℕ)
      → find i l.pending ≡ some ch
      → find j l.pending ≡ some ch
      → same_text i j ≡ true

-- What the map has behind a removal.
kept :
    (id j : Text) (ch : ℕ) (m : Map ℕ)
    → find j (remove id m) ≡ some ch
    → (same_text id j ≡ false) × (find j m ≡ some ch)
kept id j ch m f = elim (Bool-cases (same_text id j)) [
  | inl h ↦ absurd (ground (arith, f, find-remove id j m, h))
  | inr h ↦ (h, ground (arith, f, find-remove id j m, h))
]

cancel_open-IsWaiting : (id : Text) (l : Link) → IsWaiting l → IsWaiting (cancel_open id l)
unfolding cancel_open
cancel_open-IsWaiting id l v = record {
  blank = λ j ch e. v.blank j ch (kept id j ch l.pending e).1;
  apart = λ i j ch e f. v.apart i j ch (kept id i ch l.pending e).1 (kept id j ch l.pending f).1;
}

module _ (id : Text) (l : Link) (v : IsWaiting l) where
  old_lt : (j : Text) (ch : ℕ) → find j l.pending ≡ some ch → ch < length l.channels
  old_lt j ch e = some-lt-length l.channels ch none (v.blank j ch e)

  found :
      (j : Text) (ch : ℕ)
      → find j (put id (length l.channels) l.pending) ≡ some ch
      → ((same_text id j ≡ true) × (ch ≡ length l.channels))
        ⊎ ((same_text id j ≡ false) × (find j l.pending ≡ some ch))
  found j ch e = elim (Bool-cases (same_text id j)) [
    | inl h ↦ inl (h, ground (arith, e, find-put id j (length l.channels) l.pending, h))
    | inr h ↦ inr (h, ground (arith, e, find-put id j (length l.channels) l.pending, h))
  ]

  await_open-IsWaiting : IsWaiting (await_open id l).1
  unfolding await_open
  await_open-IsWaiting = record {
    blank = λ j ch e. elim (found j ch e) [
      | inl a ↦
          ap (get_elem? (l.channels ++ (none ∷ []))) a.1
          ∙ get_elem?-append_length l.channels none []
      | inr a ↦ get_elem?-append_some l.channels (none ∷ []) ch none (v.blank j ch a.1)
    ];
    apart = λ i j ch e f. elim (found i ch e) [
      | inl a ↦ elim (found j ch f) [
        | inl b ↦ subst (λ x. same_text x j ≡ true) (same_text_sound id i a.0) b.0
        | inr b ↦ absurd (omega (arith, a.1, old_lt j ch b.1))
      ]
      | inr a ↦ elim (found j ch f) [
        | inl b ↦ absurd (omega (arith, b.1, old_lt i ch a.1))
        | inr b ↦ v.apart i j ch a.1 b.1
      ]
    ];
  }

-- What a reply leaves where its identifier waits at the channel `ch`.
answered : Text → ℕ → OpenResult → Link → Link
answered id ch r l = record l {
  pending = remove id l.pending;
  channels = set l.channels ch (some r);
}

module _ (id : Text) (r : OpenResult) (l : Link) (v : IsWaiting l) (ch : ℕ)
    (waits : find id l.pending ≡ some ch) where
  resolve_open_answers : resolve_open id r l ≡ some (answered id ch r l)
  unfolding resolve_open resolve_found send cancel_open answered
  resolve_open_answers =
      ap (λ o. resolve_found id r o l) waits
      ∙ ap (λ o. send ch r o (cancel_open id l)) (v.blank id ch waits)

  answered-IsWaiting : IsWaiting (answered id ch r l)
  unfolding answered
  answered-IsWaiting = record {
    blank = λ j c e.
        let (n, f) = kept id j c l.pending e in
        get_elem?-set_ne l.channels ch c (some r)
          (λ x. absurd (cc (n, v.apart id j ch waits (f ∙ ap some (sym x)))))
        ∙ v.blank j c f;
    apart = λ i j c e f. v.apart i j c (kept id i c l.pending e).1 (kept id j c l.pending f).1;
  }

  -- The open that waits for the reply receives it, and another reply with its identifier is dropped.
  pub receive-resolve_open :
      (q : OpenResult)
      → (m : Link) × (resolve_open id r l ≡ some m)
        × ((receive ch m).0 ≡ some r)
        × (resolve_open id q m ≡ some m)
  unfolding receive take_result answered resolve_open resolve_found
  receive-resolve_open q = (
    answered id ch r l,
    resolve_open_answers,
    ap take_result (
        get_elem?-set_self l.channels ch (some r)
          (some-lt-length l.channels ch none (v.blank id ch waits))),
    ap (λ o. resolve_found id q o (answered id ch r l)) (find-remove_self id l.pending),
  )

-- If every open that waits has an empty channel of its own, a reply never blocks, whatever its
-- identifier, and the opens that still wait have an empty channel of their own behind it, as they
-- have behind a new open and behind a cancelled one.
pub resolve_open_returns :
    (id : Text) (r : OpenResult) (l : Link)
    → IsWaiting l
    → ((m : Link) × (resolve_open id r l ≡ some m) × IsWaiting m)
      × IsWaiting (await_open id l).1
      × IsWaiting (cancel_open id l)
unfolding resolve_open resolve_found
resolve_open_returns id r l v =
    (of_found (find id l.pending) refl, await_open-IsWaiting id l v, cancel_open-IsWaiting id l v)
  where
    of_found :
        (o : Option ℕ)
        → find id l.pending ≡ o
        → (m : Link) × (resolve_found id r o l ≡ some m) × IsWaiting m
    of_found none e = (l, refl, v)
    of_found (some ch) e = (
      answered id ch r l,
      sym (ap (λ o. resolve_found id r o l) e) ∙ resolve_open_answers id r l v ch e,
      answered-IsWaiting id r l v ch e,
    )
