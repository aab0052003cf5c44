-- ===== src/Transport/Codec/RoundTrip.antt =====
-- internal/transport/codec.go: messages that were encoded, decoded and unmarshalled again.
use constellate.Common.{
  ℕ, zero, suc, ◌==◌, ◌≡◌, refl, Bool, true, not, ◌&&◌, Bool-cases, ◌⊎◌, inl, inr, Option, none,
  some, List, [], ◌∷◌, ◌++◌, append_assoc, length, ◌>>=◌, arith,
}
use mathlib.Core.List.{map}
use constellate.Maps.{Text}
use constellate.Transport.Codec.{
  Frame, Json, DecodeError, EncodeError, extend, read_bytes, frame_of, next_line, next, Writes,
  encode_data, encode, unmarshal_frame,
}

unfoldable pub is_one_line : Text → Bool
is_one_line [] = true
is_one_line (b ∷ bs) = not (b == b'\n') && is_one_line bs

-- What the library for JSON promises for values whose field `type` is `kind`: a text has no newline,
-- and the text with one behind it has that field, and gives the value back.
pub record IsSound {ℓ} {A : Type ℓ} (json : Json A) (kind : A → Text) : Type ℓ where
  pub one_line : (a : A) (d : Text) → json.marshal a ≡ some d → is_one_line d ≡ true
  pub tags :
      (a : A) (d : Text) → json.marshal a ≡ some d → json.header (d ++ b'\n' ∷ []) ≡ some (kind a)
  pub reads :
      (a : A) (d : Text) → json.marshal a ≡ some d → json.unmarshal (d ++ b'\n' ∷ []) ≡ some a

unfoldable pub join : EncodeError ⊎ Text → EncodeError ⊎ Text → EncodeError ⊎ Text
join (inl e) s = inl e
join (inr d) (inl e) = inl e
join (inr d) (inr s) = inr (d ++ s)

-- What messages put on the stream, one after the other, or the first error.
unfoldable pub encode_each {ℓ} : {A : Type ℓ} → Json A → Writes → List A → EncodeError ⊎ Text
encode_each json w [] = inr []
encode_each json w (a ∷ rest) = join (encode json a w) (encode_each json w rest)

-- A frame without an error, unmarshalled.
unfoldable pub message_of {ℓ} :
    {A : Type ℓ} → Json A → Frame × Option DecodeError → Option (Text × A)
message_of json (f, some e) = none
message_of json (f, none) = unmarshal_frame json f >>= λ a. some (f.type_name, a)

-- The tags and the values of the next so many messages, and the rest of the stream.
unfoldable pub receive_each {ℓ} : {A : Type ℓ} → Json A → ℕ → Text → Option (List (Text × A) × Text)
receive_each json zero s = some ([], s)
receive_each json (suc n) s =
    let r = next json.header s in
    message_of json r.0 >>= λ m. receive_each json n r.1 >>= λ (ms, rest). some (m ∷ ms, rest)

read_bytes-append :
    (d rest : Text)
    → is_one_line d ≡ true
    → read_bytes (d ++ b'\n' ∷ rest) ≡ record { line = d ++ b'\n' ∷ []; error = none; rest = rest }
unfolding is_one_line read_bytes extend
read_bytes-append [] rest h = refl
read_bytes-append (b ∷ bs) rest h = elim (Bool-cases (b == b'\n')) [
  | inl e ↦ ground (arith, e, h)
  | inr e ↦ rw (e, read_bytes-append bs rest (ground (arith, e, h))) refl
]

frame_of_line :
    (header : Text → Option Text) (d k : Text)
    → header (d ++ b'\n' ∷ []) ≡ some k
    → next_line header (d ++ b'\n' ∷ []) none
      ≡ (record { type_name = k; raw = d ++ b'\n' ∷ [] }, none)
unfolding next_line frame_of
frame_of_line header [] k h = rw h refl
frame_of_line header (b ∷ bs) k h = rw h refl

encode_data-inr :
    (o : Option Text) (w : Writes) (s : Text)
    → encode_data o w ≡ inr s
    → (d : Text) × (o ≡ some d) × (s ≡ d ++ b'\n' ∷ [])
unfolding encode_data
encode_data-inr none w s e = cc
encode_data-inr (some d) w s e = elim (Bool-cases w.takes_data) [
  | inr n ↦ absurd (ground (arith, e, n))
  | inl y ↦ elim (Bool-cases w.takes_newline) [
    | inr n ↦ absurd (ground (arith, e, y, n))
    | inl z ↦ elim (Bool-cases w.flushes) [
      | inr n ↦ absurd (ground (arith, e, y, z, n))
      | inl f ↦ (d, refl, ground (arith, e, y, z, f))
    ]
  ]
]

join-inr :
    (x y : EncodeError ⊎ Text) (s : Text)
    → join x y ≡ inr s
    → (d u : Text) × (x ≡ inr d) × (y ≡ inr u) × (s ≡ d ++ u)
unfolding join
join-inr (inl e) y s h = cc
join-inr (inr d) (inl e) s h = cc
join-inr (inr d) (inr u) s h = (d, u, refl, refl, cc)

module _ {ℓ} {A : Type ℓ} {json : Json A} {kind : A → Text} (sound : IsSound json kind) where
  receive_one :
      (a : A) (d rest : Text)
      → json.marshal a ≡ some d
      → next json.header ((d ++ b'\n' ∷ []) ++ rest)
        ≡ ((record { type_name = kind a; raw = d ++ b'\n' ∷ [] }, none), rest)
  unfolding next
  receive_one a d rest e =
      rw
        (
          append_assoc d (b'\n' ∷ []) rest,
          read_bytes-append d rest (sound.one_line a d e),
          frame_of_line json.header d (kind a) (sound.tags a d e),
        )
        refl

  -- Of messages that were encoded onto a stream one after the other without an error, as many
  -- calls of `Next` give each with its own tag, in order, `Unmarshal` gives their values, and what
  -- follows on the stream is left, if the library for JSON writes no newline into a text and reads
  -- back what it wrote.
  pub receive_each-encode_each :
      (w : Writes) (xs : List A) (s rest : Text)
      → encode_each json w xs ≡ inr s
      → receive_each json (length xs) (s ++ rest) ≡ some (map (λ a. (kind a, a)) xs, rest)
  unfolding encode_each receive_each encode message_of unmarshal_frame
  receive_each-encode_each w [] s rest e = rw (empty s e) refl
    where
      empty : (s : Text) → encode_each json w [] ≡ inr s → s ≡ []
      empty s e = cc
  receive_each-encode_each w (a ∷ xs) s rest e =
      let (t, u, f, g, h) = join-inr (encode_data (json.marshal a) w) (encode_each json w xs) s e in
      let (d, m, k) = encode_data-inr (json.marshal a) w t f in
      rw
        (
          h,
          k,
          append_assoc (d ++ b'\n' ∷ []) u rest,
          receive_one a d (u ++ rest) m,
          sound.reads a d m,
          receive_each-encode_each w xs u rest g,
        )
        refl
