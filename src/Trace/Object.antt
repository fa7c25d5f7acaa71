-- ===== src/Trace/Object.antt =====
-- trace/cmu-trace.{h,cc}: a trace object, its constructor, and what Tcl can tell it. The members of the
-- base classes of ns-2 are those that the code reads.
use Prim.Native.String.{String}
use antnet.Common.{
  ℕ, ◌==◌, if◌then◌else◌, ◌&&◌, ◌||◌, Bool, true, false, Option, none, some, List, [], ◌∷◌, leb,
  take, Text, codes, same_codes, ◌>>=◌,
}
use antnet.Common.Int.{ℤ, pos, negsuc}
use antnet.Packet.Types.{PInfo, name}
use antnet.Agent.Command.{Status, tcl_ok, tcl_error}
use antnet.Trace.Printf.Scan.{number, negative}
use antnet.Trace.Headers.{Letters}

pub data TraceType : Type 0 where
  tr_router tr_phy tr_mac tr_ifq tr_agent : TraceType

-- `class CMUTrace`, with `type_`, `src_` and `target_` of the base class, and of its `BaseTrace`
-- whether lines are tagged and whether there is a channel to nam. Objects are numbers.
pub record CmuTrace : Type 0 where
  pub tracename : Text
  pub node_color : ℕ → ℕ
  pub tracetype : TraceType
  pub node : Option ℕ
  pub newtrace : ℤ
  pub type : ℕ
  pub src : ℤ
  pub target : Option ℕ
  pub tagged : Bool
  pub namchannel : Bool

abbrev pub max_id_len : ℕ
max_id_len = 3

abbrev pub max_node : ℕ
max_node = 4096

-- `initialized`
abbrev pub initialized : CmuTrace → Bool
initialized t = elim (t.node) [ none ↦ false | some node ↦ true ]

-- An `int` as a truth value.
abbrev pub is_set : ℤ → Bool
is_set (pos n) = if n == 0 then false else true
is_set (negsuc n) = true

abbrev pub is_mac : TraceType → Bool
is_mac tr_mac = true
is_mac type = false

-- The comparisons of the constructor; `none` is `exit(1)`.
pub trace_type : Text → Option TraceType
trace_type s =
    if same_codes s (codes "RTR")
    then some tr_router
    else if same_codes s (codes "TRP")
    then some tr_router
    else if same_codes s (codes "PHY")
    then some tr_phy
    else if same_codes s (codes "MAC")
    then some tr_mac
    else if same_codes s (codes "IFQ")
    then some tr_ifq
    else if same_codes s (codes "AGT")
    then some tr_agent
    else none

-- The assertion of the constructor.
abbrev pub is_allowed : Letters → ℕ → TraceType → Bool
is_allowed l type tracetype =
    (type == l.drop)
    || (type == l.send)
    || (type == l.recv)
    || ((type == l.eot) && is_mac tracetype)

-- The constructor, on an object whose base class is constructed; `none` is `exit(1)` or a failed
-- assertion.
unfoldable pub new_cmu_trace : Letters → Text → ℕ → CmuTrace → Option CmuTrace
unfolding trace_type
new_cmu_trace l s type base =
    let tracename = take max_id_len s in
    trace_type tracename >>= λ tracetype.
    if is_allowed l type tracetype
    then some (record base {
      tracename = tracename;
      node_color = λ i. 3;
      tracetype = tracetype;
      node = none;
      newtrace = pos 0;
      type = type;
    })
    else none

abbrev pub skip_blanks : Text → Text
skip_blanks [] = []
skip_blanks (c ∷ cs) = if (c == b' ') || (leb 9 c && leb c 13) then skip_blanks cs else c ∷ cs

-- What follows the blanks: a sign, and digits.
abbrev pub signed : Text → ℤ
signed [] = pos 0
signed (c ∷ cs) =
    if c == b'+'
    then pos (number 0 cs).0
    else if c == b'-'
    then (negative (number 0 cs)).0
    else pos (number 0 (c ∷ cs)).0

-- `atoi` of the C library.
abbrev pub atoi : Text → ℤ
atoi s = signed (skip_blanks s)

-- `command`, with the objects that Tcl knows and the `command` of the base class.
unfoldable pub command :
    (String → Option ℕ)
    → (List String → CmuTrace → Status × CmuTrace)
    → CmuTrace
    → List String
    → Status × CmuTrace
command lookup base t (argv0 ∷ argv1 ∷ argv2 ∷ []) =
    if same_codes (codes argv1) (codes "node")
    then (
      elim (lookup argv2) [ none ↦ tcl_error | some object ↦ tcl_ok ],
      record t { node = lookup argv2 },
    )
    else if same_codes (codes argv1) (codes "newtrace")
    then (tcl_ok, record t { newtrace = atoi (codes argv2) })
    else base (argv0 ∷ argv1 ∷ argv2 ∷ []) t
command lookup base t argv = base argv t

-- `packet_info.name(ptype)`; `none` is a read past the array or a null pointer.
unfoldable pub type_name : PInfo → ℕ → Option Text
unfolding name
type_name info ptype = name info ptype >>= λ s. s >>= λ s'. some (codes s')
