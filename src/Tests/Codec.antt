-- ===== src/Tests/Codec.antt =====
-- Messages on a stream, at concrete inputs.
use constellate.Common.{
  ℕ, ◌+◌, ◌-◌, ◌≡◌, refl, ap, subst, true, Option, none, some, [], ◌∷◌, ◌++◌, arith,
}
use mathlib.Core.List.{map}
use mathlib.Core.Option.{some-injective}
use constellate.Maps.{Text}
use constellate.Transport.Codec.{Json, Writes, encode, encode_data}
use constellate.Transport.Codec.RoundTrip.{
  IsSound, is_one_line, join, encode_each, receive_each, receive_each-encode_each,
}

-- The text of a number is the letter that stands so far behind `a`, and an `x`.
abbrev text : ℕ → Text
text n = (b'a' + n) ∷ b'x' ∷ []

abbrev number : Text → Option ℕ
number [] = none
number (b ∷ bs) = some (b - b'a')

abbrev json : Json ℕ
json = record {
  header = λ line. some (b't' ∷ []);
  marshal = λ n. some (text n);
  unmarshal = number;
}

abbrev kind : ℕ → Text
kind n = b't' ∷ []

json-IsSound : IsSound json kind
unfolding is_one_line
json-IsSound = record {
  one_line =
      λ n d e. subst (λ d. is_one_line d ≡ true) (some-injective (text n) d e) (ground arith);
  tags = λ n d e. refl;
  reads = λ n d e.
      subst (λ d. number (d ++ b'\n' ∷ []) ≡ some n) (some-injective (text n) d e)
        (ap some (omega arith));
}

-- No call of the writer fails.
abbrev writes : Writes
writes = record { takes_data = true; takes_newline = true; flushes = true }

receive_each-encode_each_example :
    receive_each json 2 ((b'd' ∷ b'x' ∷ b'\n' ∷ b'h' ∷ b'x' ∷ b'\n' ∷ []) ++ b'l' ∷ [])
    ≡ some (map (λ a. (kind a, a)) (3 ∷ 7 ∷ []), b'l' ∷ [])
unfolding encode_each encode encode_data join
receive_each-encode_each_example =
    receive_each-encode_each json-IsSound writes (3 ∷ 7 ∷ [])
      (b'd' ∷ b'x' ∷ b'\n' ∷ b'h' ∷ b'x' ∷ b'\n' ∷ []) (b'l' ∷ []) refl
