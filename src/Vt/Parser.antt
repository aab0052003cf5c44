-- ===== src/Vt/Parser.antt =====
-- internal/agent/adapter/secondary/vt/parser.go: the escape-sequence state machine, a byte at a
-- time. A fixed array with its count of used entries is the list of those entries; the capacities
-- are `inter_max`, `param_max` and `osc_max`, one less than the arrays' lengths, as in the guards.
pub mod Bounds
pub mod Params
pub mod Sequences
pub mod Ground
use constellate.Common.{
  ℕ, ◌+◌, ◌-◌, ◌*◌, ◌%◌, ◌^◌, Bool, true, false, ◌&&◌, ◌||◌, List, [], ◌∷◌, ◌++◌, Word, leb, ltb,
  ◌==◌, if◌then◌else◌, length,
}

abbrev pub Bytes : Type 0
Bytes = List ℕ

-- `parserState`, without the prefix `st`
pub data State : Type 0 where
  ground escape escape_inter csi_entry csi_param csi_inter csi_ignore : State
  osc_string dcs_entry dcs_passthrough : State

-- `action`, a constructor for each `actionKind` with the fields that it uses
pub data Action : Type 0 where
  nothing : Action
  print : ℕ → Action
  execute : ℕ → Action
  esc : ℕ → Bytes → Action
  csi : ℕ → Bytes → List Word → Action
  osc : Bytes → Action
  dcs : Action

pub record Parser : Type 0 where
  pub state : State
  pub inter : Bytes
  pub param_buf : Bytes
  pub osc_buf : Bytes

abbrev pub inter_max : ℕ
inter_max = 3

abbrev pub param_max : ℕ
param_max = 31

abbrev pub osc_max : ℕ
osc_max = 511

abbrev pub initial : Parser
initial = record { state = State.ground; inter = []; param_buf = []; osc_buf = [] }

abbrev pub between : ℕ → ℕ → ℕ → Bool
between lo hi b = leb lo b && leb b hi

-- The guarded write of `b` to one of the arrays.
abbrev pub push : ℕ → Bytes → ℕ → Bytes
push most xs b = if ltb (length xs) most then xs ++ b ∷ [] else xs

-- The loop of `parseParams`, with `cur` and the fields so far. `cur*10 + int(b-'0')` wraps.
pub params_from : Word → List Word → Bytes → List Word
params_from cur out [] = out ++ cur ∷ []
params_from cur out (b ∷ bs) =
    params_from
      (if b == b';'
        then 0
        else if between b'0' b'9' b
        then (cur * 10 + (b - b'0')) % 2 ^ 64
        else cur)
      (if b == b';' then out ++ cur ∷ [] else out) bs

pub parse_params : Bytes → List Word
unfolding params_from
parse_params [] = []
parse_params (b ∷ bs) = params_from 0 [] (b ∷ bs)

pub reset_csi : Parser → Parser
reset_csi p = record p { inter = []; param_buf = [] }

pub build_osc : Parser → Action × Parser
build_osc p = (osc p.osc_buf, record p { osc_buf = [] })

pub build_esc : ℕ → Parser → Action × Parser
unfolding build_osc
build_esc final p =
    if final == 0x5c
    then (osc p.osc_buf, record p { osc_buf = []; inter = [] })
    else (esc final p.inter, record p { inter = [] })

pub build_csi : ℕ → Parser → Action × Parser
unfolding reset_csi
build_csi final p = (csi final p.inter (parse_params p.param_buf), reset_csi p)

abbrev pub go : State → Action × Parser → Action × Parser
go st (a, p) = (a, record p { state = st })

abbrev pub to : State → Parser → Action × Parser
to st p = (nothing, record p { state = st })

abbrev pub push_inter : ℕ → Parser → Parser
push_inter b p = record p { inter = push inter_max p.inter b }

abbrev pub push_param : ℕ → Parser → Parser
push_param b p = record p { param_buf = push param_max p.param_buf b }

pub in_ground : ℕ → Parser → Action × Parser
in_ground b p = if between 0x20 0x7e b then (print b, p) else (nothing, p)

pub in_escape : ℕ → Parser → Action × Parser
unfolding build_esc reset_csi
in_escape b p =
    if b == b'['
    then to State.csi_entry (reset_csi p)
    else if b == b']'
    then to State.osc_string (record p { osc_buf = [] })
    else if b == b'P'
    then to State.dcs_entry p
    else if between 0x20 0x2f b
    then to State.escape_inter (push_inter b p)
    else if between 0x30 0x7e b
    then go State.ground (build_esc b p)
    else if b == 0x7f
    then (nothing, p)
    else to State.ground p

pub in_escape_inter : ℕ → Parser → Action × Parser
unfolding build_esc
in_escape_inter b p =
    if between 0x20 0x2f b
    then (nothing, push_inter b p)
    else if between 0x30 0x7e b
    then go State.ground (build_esc b p)
    else to State.ground p

-- The first digit's write has no guard in the source.
pub in_csi_entry : ℕ → Parser → Action × Parser
unfolding build_csi
in_csi_entry b p =
    if between b'0' b'9' b
    then to State.csi_param (record p { param_buf = p.param_buf ++ b ∷ [] })
    else if b == b';'
    then to State.csi_param (push_param b p)
    else if between 0x20 0x2f b
    then to State.csi_inter (push_inter b p)
    else if b == b'?' || b == b'<' || b == b'=' || b == b'>'
    then to State.csi_param (push_inter b p)
    else if between 0x40 0x7e b
    then go State.ground (build_csi b p)
    else if b == 0x7f
    then (nothing, p)
    else to State.csi_ignore p

pub in_csi_param : ℕ → Parser → Action × Parser
unfolding build_csi
in_csi_param b p =
    if between b'0' b'9' b
    then (nothing, push_param b p)
    else if b == b';'
    then (nothing, push_param b';' p)
    else if b == b':'
    then (nothing, push_param b';' p)
    else if between 0x20 0x2f b
    then to State.csi_inter (push_inter b p)
    else if between 0x40 0x7e b
    then go State.ground (build_csi b p)
    else if b == 0x7f
    then (nothing, p)
    else to State.csi_ignore p

pub in_csi_inter : ℕ → Parser → Action × Parser
unfolding build_csi
in_csi_inter b p =
    if between 0x20 0x2f b
    then (nothing, push_inter b p)
    else if between 0x40 0x7e b
    then go State.ground (build_csi b p)
    else to State.csi_ignore p

pub in_osc : ℕ → Parser → Action × Parser
unfolding build_osc
in_osc b p =
    if b == 0x07
    then go State.ground (build_osc p)
    else (nothing, record p { osc_buf = push osc_max p.osc_buf b })

-- The `switch p.state` of `feedByte`, for bytes from 0x20 on.
pub feed_in : State → ℕ → Parser → Action × Parser
unfolding in_ground in_escape in_escape_inter in_csi_entry in_csi_param in_csi_inter in_osc
feed_in State.ground b p = in_ground b p
feed_in State.escape b p = in_escape b p
feed_in State.escape_inter b p = in_escape_inter b p
feed_in State.csi_entry b p = in_csi_entry b p
feed_in State.csi_param b p = in_csi_param b p
feed_in State.csi_inter b p = in_csi_inter b p
feed_in State.csi_ignore b p = if between 0x40 0x7e b then to State.ground p else (nothing, p)
feed_in State.osc_string b p = in_osc b p
feed_in State.dcs_entry b p =
    if b == 0x5c then go State.ground (dcs, p) else to State.dcs_passthrough p
feed_in State.dcs_passthrough b p = if b == 0x5c then go State.ground (dcs, p) else (nothing, p)

abbrev pub is_executed : ℕ → Bool
is_executed b = b == b'\r' || b == b'\n' || b == b'\t' || b == 8 || b == 7 || b == 11 || b == 12

-- `handleC0` behind its two tests for BEL and the `switch b`. (`case 0x9C` never meets a byte here:
-- the caller passes bytes below 0x20 only.)
pub c0_in : State → ℕ → Parser → Action × Parser
c0_in State.osc_string b p = (nothing, p)
c0_in State.dcs_passthrough b p = (nothing, p)
c0_in State.dcs_entry b p = (nothing, p)
c0_in _ b p = if is_executed b then (execute b, p) else (nothing, p)

abbrev pub is_osc : State → Bool
is_osc State.osc_string = true
is_osc _ = false

abbrev pub is_dcs_passthrough : State → Bool
is_dcs_passthrough State.dcs_passthrough = true
is_dcs_passthrough _ = false

pub handle_c0 : ℕ → Parser → Action × Parser
unfolding build_osc c0_in
handle_c0 b p =
    if b == 0x07 && is_osc p.state
    then go State.ground (build_osc p)
    else if b == 0x07 && is_dcs_passthrough p.state
    then (nothing, p)
    else if b == 0x1b
    then to State.escape (record p { inter = [] })
    else if b == 0x18 || b == 0x1a
    then to State.ground p
    else if b == 0x9c
    then (if is_osc p.state
        then go State.ground (build_osc p)
        else if is_dcs_passthrough p.state
        then go State.ground (dcs, p)
        else to State.ground p)
    else c0_in p.state b p

pub feed_byte : ℕ → Parser → Action × Parser
unfolding handle_c0 feed_in
feed_byte b p = if ltb b 0x20 then handle_c0 b p else feed_in p.state b p
