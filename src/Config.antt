-- ===== src/Config.antt =====
-- internal/config/expand.go: the ports of an instance, and the instances that a configuration stands for. A text is
-- its code points. A port is what its JSON value says: a whole number, a text, or anything else.
mod Tests
pub mod Expansion
pub mod Validation
pub mod Defaults
use Prim.Native.String.{String}
use text.Mathlib.Text.{◌==◌ as str_eq}
use slip_stream_plus.Prelude.{
  ℕ, zero, suc, ◌+◌, ◌-◌, ◌*◌, ◌^◌, Bool, true, false, not, ◌&&◌, ◌||◌, List, [], ◌∷◌, ◌++◌, ltb,
  leb, ◌==◌, if◌then◌else◌, length, Option, none, some,
}
use slip_stream_plus.Prelude.Int.{ℤ, pos, negsuc, ◌+ℤ◌, wrap64, ltb_ℤ, pos_part}

abbrev pub Text : Type 0
Text = List ℕ

-- `unicode.IsSpace`
unfoldable pub is_space : ℕ → Bool
is_space c =
    (leb 9 c && leb c 13)
    || (c == 32
        || (c == 0x85
            || (c == 0xA0
                || (c == 0x1680
                    || ((leb 0x2000 c && leb c 0x200A)
                        || (c == 0x2028
                            || (c == 0x2029 || (c == 0x202F || (c == 0x205F || c == 0x3000)))))))))

unfoldable pub trim_left : Text → Text
unfolding is_space
trim_left [] = []
trim_left (c ∷ s) = if is_space c then trim_left s else c ∷ s

unfoldable pub trim_right : Text → Text
unfolding is_space
trim_right [] = []
trim_right (c ∷ s) =
    let rest = trim_right s in
    if length rest == 0 then (if is_space c then [] else c ∷ []) else c ∷ rest

-- `strings.TrimSpace`
unfoldable pub trim_space : Text → Text
trim_space s = trim_right (trim_left s)

unfoldable pub digits : ℕ → Text → Option ℕ
digits n [] = some n
digits n (c ∷ s) =
    let rest = digits (n * 10 + (c - 48)) s in if leb 48 c && leb c 57 then rest else none

-- Digits, and at least one.
unfoldable pub number_of : Text → Option ℕ
unfolding digits
number_of [] = none
number_of (c ∷ s) = digits 0 (c ∷ s)

unfoldable pub positive : Option ℕ → Option ℤ
positive none = none
positive (some n) = if ltb n (2 ^ 63) then some (pos n) else none

unfoldable pub negative : Option ℕ → Option ℤ
negative none = none
negative (some zero) = some (pos 0)
negative (some (suc n)) = if ltb n (2 ^ 63) then some (negsuc n) else none

-- `strconv.Atoi`
unfoldable pub atoi : Text → Option ℤ
unfolding number_of positive negative
atoi [] = none
atoi (c ∷ s) =
    if c == 45
    then negative (number_of s)
    else if c == 43
    then positive (number_of s)
    else positive (number_of (c ∷ s))

-- `strings.SplitN(s, "-", 2)`, when it gives two parts.
unfoldable pub split_dash : Text → Option (Text × Text)
split_dash [] = none
split_dash (c ∷ s) =
    let rest = split_dash s in
    if c == 45 then some ([], s) else (elim rest [ none ↦ none | some (a, b) ↦ some (c ∷ a, b) ])

pub data Error : Type 0 where
  invalid_port invalid_range invalid_start invalid_end start_after_end out_of_range : Error
  too_few_ports : ℕ → ℕ → Error
  duplicate_port : ℤ → Error
  at_instance : ℕ → Error → Error

pub data Parsed {ℓ} (A : Type ℓ) : Type ℓ where
  failed : Error → Parsed A
  parsed : A → Parsed A

-- The loop from `start`, for so many ports.
unfoldable pub ports_from : ℕ → ℕ → List ℤ
ports_from start zero = []
ports_from start (suc n) = pos start ∷ ports_from (suc start) n

-- The guards on the two ends.
unfoldable pub port_range : ℤ → ℤ → Parsed (List ℤ)
unfolding ports_from
port_range start end =
    if ltb_ℤ end start
    then failed start_after_end
    else if not (ltb_ℤ (pos 0) start) || ltb_ℤ (pos 65535) end
    then failed out_of_range
    else parsed (ports_from (pos_part start) (suc (pos_part end - pos_part start)))

unfoldable pub ends : Text × Text → Parsed (List ℤ)
unfolding trim_space atoi port_range
ends parts = elim (atoi (trim_space (parts.0))) [
  | none ↦ failed invalid_start
  | some start ↦ elim (atoi (trim_space (parts.1))) [
    | none ↦ failed invalid_end
    | some end ↦ port_range start end
  ]
]

unfoldable pub parse_port_range : Text → Parsed (List ℤ)
unfolding trim_space atoi split_dash ends
parse_port_range s =
    let t = trim_space s in
    elim (atoi t) [
      | some port ↦ parsed (port ∷ [])
      | none ↦ elim (split_dash t) [ none ↦ failed invalid_range | some parts ↦ ends parts ]
    ]

-- A JSON value: a number that is an int, a string, null, no value, or another one.
pub data Port : Type 0 where
  number : ℤ → Port
  quoted : Text → Port
  null missing other : Port

-- `ParsePorts`. A null is read as the empty string.
unfoldable pub parse_ports : Port → Parsed (List ℤ)
unfolding parse_port_range
parse_ports (number p) = parsed (p ∷ [])
parse_ports (quoted s) = parse_port_range s
parse_ports null = parse_port_range []
parse_ports missing = failed invalid_port
parse_ports other = failed invalid_port

pub record InstanceConfig : Type 0 where
  pub domain : String
  pub resolver : String
  pub port : Port
  pub replicas : ℤ
  pub mode : String
  pub authoritative : Bool
  pub cert : String
  pub ssh_port : ℤ
  pub ssh_user : String
  pub ssh_password : String
  pub ssh_key : String

-- `config` stands for the fields that are copied.
pub record ExpandedInstance : Type 0 where
  pub config : InstanceConfig
  pub port : ℤ
  pub mode : String
  pub original_index : ℕ
  pub replica_index : ℕ

-- At least one.
unfoldable pub replicas_of : InstanceConfig → ℕ
replicas_of c = if ltb_ℤ (pos 0) c.replicas then pos_part c.replicas else 1

-- `basePort + r`, for r from a number on.
unfoldable pub consecutive : ℤ → ℕ → ℕ → List ℤ
consecutive base r zero = []
consecutive base r (suc n) = wrap64 (base +ℤ pos r) ∷ consecutive base (suc r) n

-- A single port with more replicas stands for as many ports.
unfoldable pub spread : ℕ → List ℤ → List ℤ
unfolding consecutive
spread replicas (base ∷ []) = if ltb 1 replicas then consecutive base 0 replicas else base ∷ []
spread replicas ports = ports

unfoldable pub mode_of : InstanceConfig → String
mode_of c = if str_eq c.mode "" then "socks" else c.mode

-- The replicas from number `r` on, with the ports from there on.
unfoldable pub replicas_from : ℕ → InstanceConfig → ℕ → ℕ → List ℤ → List ExpandedInstance
unfolding mode_of
replicas_from i c r zero ports = []
replicas_from i c r (suc n) [] = []
replicas_from i c r (suc n) (p ∷ ports) =
    record { config = c; port = p; mode = mode_of c; original_index = i; replica_index = r }
    ∷ replicas_from i c (suc r) n ports

-- One entry of the configuration, when its ports are parsed.
unfoldable pub expand_ports : ℕ → InstanceConfig → Parsed (List ℤ) → Parsed (List ExpandedInstance)
unfolding spread replicas_of replicas_from
expand_ports i c (failed e) = failed (at_instance i e)
expand_ports i c (parsed ports) =
    let n = replicas_of c in
    let all = spread n ports in
    if ltb (length all) n
    then failed (at_instance i (too_few_ports (length all) n))
    else parsed (replicas_from i c 0 n all)

unfoldable pub then_append :
    List ExpandedInstance → Parsed (List ExpandedInstance) → Parsed (List ExpandedInstance)
then_append xs (failed e) = failed e
then_append xs (parsed ys) = parsed (xs ++ ys)

-- The loop over the entries, from number `i` on.
unfoldable pub expand_from : ℕ → List InstanceConfig → Parsed (List ExpandedInstance)
unfolding expand_ports parse_ports then_append
expand_from i [] = parsed []
expand_from i (c ∷ rest) =
    let more = expand_from (suc i) rest in
    elim (expand_ports i c (parse_ports c.port)) [
      | failed e ↦ failed e
      | parsed xs ↦ then_append xs more
    ]

unfoldable pub in_set : ℤ → List ℤ → Bool
in_set p [] = false
in_set p (q ∷ seen) = if ltb_ℤ p q then in_set p seen else if ltb_ℤ q p then in_set p seen else true

-- The first port that is in the set already.
unfoldable pub first_duplicate : List ℤ → List ExpandedInstance → Option ℤ
unfolding in_set
first_duplicate seen [] = none
first_duplicate seen (e ∷ rest) =
    let more = first_duplicate (e.port ∷ seen) rest in
    if in_set e.port seen then some e.port else more

unfoldable pub check_ports : List ExpandedInstance → Parsed (List ExpandedInstance)
unfolding first_duplicate
check_ports out = elim (first_duplicate [] out) [
  | some p ↦ failed (duplicate_port p)
  | none ↦ parsed out
]

-- `ExpandInstances`
unfoldable pub expand_instances : List InstanceConfig → Parsed (List ExpandedInstance)
unfolding expand_from check_ports
expand_instances configs = elim (expand_from 0 configs) [
  | failed e ↦ failed e
  | parsed out ↦ check_ports out
]
