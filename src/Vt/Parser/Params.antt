-- ===== src/Vt/Parser/Params.antt =====
-- `parseParams` against a printer of decimal fields.
use constellate.Common.{
  ℕ, ◌+◌, ◌*◌, ◌^◌, ◌≤◌, ◌<◌, ◌≡◌, ◌≢◌, refl, ap, ◌∙◌, List, [], ◌∷◌, ◌++◌, Word, append-nil,
  append_assoc, All, arith,
}
use mathlib.Core.List.{map}
use constellate.Vt.Parser.{Bytes, params_from, parse_params}

-- A field is the list of its decimal digits, most significant first.
abbrev pub Field : Type 0
Field = List ℕ

abbrev value_from : ℕ → Field → ℕ
value_from cur [] = cur
value_from cur (d ∷ ds) = value_from (cur * 10 + d) ds

abbrev pub value : Field → ℕ
value ds = value_from 0 ds

abbrev pub print_digits : Field → Bytes
print_digits [] = []
print_digits (d ∷ ds) = (b'0' + d) ∷ print_digits ds

-- The fields, separated by `;`.
abbrev pub print_fields : Field → List Field → Bytes
print_fields f [] = print_digits f
print_fields f (g ∷ fs) = print_digits f ++ (b';' ∷ print_fields g fs)

-- Decimal digits of a number that fits a word.
abbrev pub IsField : Field → Type 0
IsField ds = All (λ d. d < 10) ds × (value ds < 2 ^ 64)

value_from-le : (cur : ℕ) (ds : Field) → cur ≤ value_from cur ds
value_from-le cur [] = omega arith
value_from-le cur (d ∷ ds) = omega (arith, value_from-le (cur * 10 + d) ds)

params_from-digits :
    (cur : ℕ) (out : List Word) (ds : Field) (rest : Bytes)
    → All (λ d. d < 10) ds
    → value_from cur ds < 2 ^ 64
    → params_from cur out (print_digits ds ++ rest) ≡ params_from (value_from cur ds) out rest
unfolding params_from
params_from-digits cur out [] rest h k = refl
params_from-digits cur out (d ∷ ds) rest h k =
    ground
      (arith, value_from-le (cur * 10 + d) ds, params_from-digits (cur * 10 + d) out ds rest h.1 k)

params_from-fields :
    (out : List Word) (f : Field) (fs : List Field)
    → IsField f
    → All IsField fs
    → params_from 0 out (print_fields f fs) ≡ out ++ map value (f ∷ fs)
unfolding params_from
params_from-fields out f [] h k =
    ap (params_from 0 out) {y = print_digits f ++ []} (mathlib.Core.Path.sym (append-nil _))
    ∙ params_from-digits 0 out f [] h.0 h.1
params_from-fields out f (g ∷ fs) h k =
    params_from-digits 0 out f (b';' ∷ print_fields g fs) h.0 h.1
    ∙ params_from-fields (out ++ value f ∷ []) g fs k.0 k.1
    ∙ append_assoc out (value f ∷ []) (map value (g ∷ fs))

-- Of decimal fields joined by semicolons, not all of which is empty text, and with values below 2
-- ^ 64, parsing gives the values in order; an empty field reads as 0.
pub parse_params-print_fields :
    (f : Field) (fs : List Field)
    → print_fields f fs ≢ []
    → IsField f
    → All IsField fs
    → parse_params (print_fields f fs) ≡ map value (f ∷ fs)
unfolding parse_params
parse_params-print_fields f fs ne h k =
    unfolded (print_fields f fs) ne ∙ params_from-fields [] f fs h k
  where
    unfolded : (raw : Bytes) → raw ≢ [] → parse_params raw ≡ params_from 0 [] raw
    unfolded [] ne' = absurd (ne' refl)
    unfolded (b ∷ bs) ne' = refl
