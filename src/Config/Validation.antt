-- ===== src/Config/Validation.antt =====
-- internal/config/config.go: `Validate`, which checks a configuration and fills in what is missing.
use Prim.Native.String.{String}
use text.Mathlib.Text.{◌==◌ as str_eq}
use slip_stream_plus.Prelude.{
  ℕ, suc, Bool, true, false, not, ◌&&◌, ◌||◌, List, [], ◌∷◌, length, ◌==◌, if◌then◌else◌, Option,
  none, some,
}
use slip_stream_plus.Prelude.Int.{ℤ, pos, ltb_ℤ}
use slip_stream_plus.Config.{
  Port, missing, InstanceConfig, Parsed, failed, parsed, expand_instances,
}
use slip_stream_plus.Config as Expand
use slip_stream_plus.Users.{UserConfig}

pub record Config : Type 0 where
  pub listen : String
  pub buffer_size : ℤ
  pub max_connections : ℤ
  pub strategy : String
  pub address : String
  pub chunk_size : ℤ
  pub instances : List InstanceConfig
  pub interval : String
  pub target : String
  pub timeout : String
  pub gui_listen : String
  pub gui_enabled : Bool
  pub gui_username : String
  pub gui_password : String
  pub slipstream_binary : String
  pub users : List UserConfig

-- What `Validate` refuses.
pub data Problem : Type 0 where
  no_listen no_instances bad_strategy no_address : Problem
  no_domain no_resolver no_port bad_mode no_ssh_user no_ssh_secret : ℕ → Problem
  not_expanded : Expand.Error → Problem

pub data Checked {ℓ} (A : Type ℓ) : Type ℓ where
  refused : Problem → Checked A
  taken : A → Checked A

unfoldable pub or_text : String → String → String
or_text standard s = if str_eq s "" then standard else s

unfoldable pub or_positive : ℤ → ℤ → ℤ
or_positive standard n = if ltb_ℤ (pos 0) n then n else standard

unfoldable pub is_strategy : String → Bool
is_strategy s =
    str_eq s "round_robin"
    || (str_eq s "random"
        || (str_eq s "least_ping" || (str_eq s "least_load" || str_eq s "packet_split")))

-- The strategies of the configuration, and the default for none.
unfoldable pub strategy_or_default : String → Option String
unfolding is_strategy
strategy_or_default s =
    if is_strategy s then some s else if str_eq s "" then some "round_robin" else none

unfoldable pub is_missing : Port → Bool
is_missing p = elim p [ missing ↦ true | _ ↦ false ]

-- The checks of an entry's mode.
unfoldable pub mode_problem : ℕ → InstanceConfig → Option Problem
mode_problem i c =
    if not (str_eq c.mode "" || (str_eq c.mode "socks" || str_eq c.mode "ssh"))
    then some (bad_mode i)
    else if not (str_eq c.mode "ssh")
    then none
    else if str_eq c.ssh_user ""
    then some (no_ssh_user i)
    else if str_eq c.ssh_password "" && str_eq c.ssh_key ""
    then some (no_ssh_secret i)
    else none

-- The checks of an entry.
unfoldable pub instance_problem : ℕ → InstanceConfig → Option Problem
unfolding mode_problem is_missing
instance_problem i c =
    if str_eq c.domain ""
    then some (no_domain i)
    else if str_eq c.resolver ""
    then some (no_resolver i)
    else if is_missing c.port
    then some (no_port i)
    else mode_problem i c

-- An SSH entry without a port gets port 22.
unfoldable pub fill_instance : InstanceConfig → InstanceConfig
unfolding or_positive
fill_instance c = record c {
  ssh_port = if str_eq c.mode "ssh" then or_positive (pos 22) c.ssh_port else c.ssh_port;
}

unfoldable pub validate_instance : ℕ → InstanceConfig → Checked InstanceConfig
unfolding instance_problem fill_instance
validate_instance i c = elim (instance_problem i c) [
  | some p ↦ refused p
  | none ↦ taken (fill_instance c)
]

unfoldable pub then_cons :
    InstanceConfig → Checked (List InstanceConfig) → Checked (List InstanceConfig)
then_cons c (refused p) = refused p
then_cons c (taken cs) = taken (c ∷ cs)

unfoldable pub validate_from : ℕ → List InstanceConfig → Checked (List InstanceConfig)
unfolding validate_instance then_cons
validate_from i [] = taken []
validate_from i (c ∷ rest) =
    let more = validate_from (suc i) rest in
    elim (validate_instance i c) [ refused p ↦ refused p | taken d ↦ then_cons d more ]

-- The expansion must succeed; then the texts that are still empty are filled in.
unfoldable pub validate_rest : Config → List InstanceConfig → Checked Config
unfolding or_text expand_instances
validate_rest c instances = elim (expand_instances instances) [
  | failed e ↦ refused (not_expanded e)
  | parsed _ ↦ taken (record c {
    instances = instances;
    interval = or_text "10s" c.interval;
    target = or_text "google.com" c.target;
    timeout = or_text "5s" c.timeout;
    gui_listen = or_text "127.0.0.1:8384" c.gui_listen;
  })
]

unfoldable pub validate_instances : Config → Checked Config
unfolding validate_from validate_rest
validate_instances c = elim (validate_from 0 c.instances) [
  | refused p ↦ refused p
  | taken instances ↦ validate_rest c instances
]

-- The numbers that have a default.
unfoldable pub with_numbers : Config → Config
unfolding or_positive
with_numbers c = record c {
  chunk_size =
      if str_eq c.strategy "packet_split"
      then or_positive (pos 8192) c.chunk_size
      else c.chunk_size;
  buffer_size = or_positive (pos 65536) c.buffer_size;
  max_connections = or_positive (pos 10000) c.max_connections;
}

unfoldable pub validate_strategy : Config → Checked Config
unfolding with_numbers validate_instances
validate_strategy c =
    if str_eq c.strategy "packet_split" && str_eq c.address ""
    then refused no_address
    else validate_instances (with_numbers c)

-- `Validate`
unfoldable pub validate : Config → Checked Config
unfolding strategy_or_default validate_strategy
validate c =
    if str_eq c.listen ""
    then refused no_listen
    else if length c.instances == 0
    then refused no_instances
    else (elim (strategy_or_default c.strategy) [
      | none ↦ refused bad_strategy
      | some s ↦ validate_strategy (record c { strategy = s })
    ])

-- `Load`, for what the file's JSON stands for; it is none when the file cannot be read or parsed.
unfoldable pub load : Option Config → Option Config
unfolding validate
load none = none
load (some c) = elim (validate c) [ refused _ ↦ none | taken d ↦ some d ]
