-- ===== src/Config/Tests.antt =====
-- internal/config at concrete inputs: an entry with a range of two ports, and an SSH entry on a port of its own.
use slip_stream_plus.Prelude.{◌≡◌, ◌⊎◌, refl, false, List, [], ◌∷◌, map, All, some}
use slip_stream_plus.Prelude.Int.{ℤ, pos}
use slip_stream_plus.Config.{
  Text, number, quoted, InstanceConfig, ExpandedInstance, parsed, parse_port_range, parse_ports,
  atoi, trim_space, trim_left, trim_right, is_space, digits, number_of, positive, split_dash, ends,
  port_range, ports_from, expand_ports, spread, replicas_of, replicas_from, mode_of, then_append,
  expand_from, check_ports, first_duplicate, in_set, expand_instances,
}
use slip_stream_plus.Config.Expansion.{
  AreDistinct, IsPort, numbers, origin, expand_instances-AreDistinct, parse_port_range-IsPort,
}
use slip_stream_plus.Config.Validation.{
  Config, taken, validate, validate_strategy, validate_instances, validate_rest, validate_from,
  validate_instance, instance_problem, mode_problem, fill_instance, is_missing, then_cons,
  with_numbers, or_positive, or_text, strategy_or_default, is_strategy,
}
use slip_stream_plus.Config.Defaults.{validate_twice}

-- " 5000 - 5002 "
abbrev range : Text
range = 32 ∷ 53 ∷ 48 ∷ 48 ∷ 48 ∷ 32 ∷ 45 ∷ 32 ∷ 53 ∷ 48 ∷ 48 ∷ 50 ∷ 32 ∷ []

range_parsed : parse_port_range range ≡ parsed (pos 5000 ∷ pos 5001 ∷ pos 5002 ∷ [])
unfolding parse_port_range trim_space trim_left trim_right is_space atoi digits number_of positive
    split_dash ends port_range ports_from
range_parsed = refl

parse_port_range-IsPort_example :
    ((p : ℤ) × (atoi (trim_space range) ≡ some p) × (pos 5000 ∷ pos 5001 ∷ pos 5002 ∷ [] ≡ p ∷ []))
    ⊎ All IsPort (pos 5000 ∷ pos 5001 ∷ pos 5002 ∷ [])
parse_port_range-IsPort_example =
    parse_port_range-IsPort range (pos 5000 ∷ pos 5001 ∷ pos 5002 ∷ []) range_parsed

abbrev entry : InstanceConfig
entry = record {
  domain = "a.example";
  resolver = "8.8.8.8";
  port = quoted range;
  replicas = pos 2;
  mode = "";
  authoritative = false;
  cert = "";
  ssh_port = pos 0;
  ssh_user = "";
  ssh_password = "";
  ssh_key = "";
}

abbrev ssh_entry : InstanceConfig
ssh_entry = record {
  domain = "b.example";
  resolver = "8.8.8.8";
  port = number (pos 6000);
  replicas = pos 0;
  mode = "ssh";
  authoritative = false;
  cert = "";
  ssh_port = pos 22;
  ssh_user = "root";
  ssh_password = "p";
  ssh_key = "";
}

abbrev expanded : List ExpandedInstance
expanded =
    record {
      config = entry;
      port = pos 5000;
      mode = "socks";
      original_index = 0;
      replica_index = 0;
    }
    ∷ record {
      config = entry;
      port = pos 5001;
      mode = "socks";
      original_index = 0;
      replica_index = 1;
    }
    ∷ record {
      config = ssh_entry;
      port = pos 6000;
      mode = "ssh";
      original_index = 1;
      replica_index = 0;
    }
    ∷ []

entries_expanded : expand_instances (entry ∷ ssh_entry ∷ []) ≡ parsed expanded
unfolding expand_instances expand_from expand_ports parse_ports parse_port_range trim_space
    trim_left trim_right is_space atoi digits number_of positive split_dash ends port_range
    ports_from spread replicas_of replicas_from mode_of then_append check_ports first_duplicate
    in_set
entries_expanded = refl

expand_instances-AreDistinct_example :
    AreDistinct (map (λ e. e.port) expanded)
    × (map origin expanded ≡ numbers 0 (entry ∷ ssh_entry ∷ []))
expand_instances-AreDistinct_example =
    expand_instances-AreDistinct (entry ∷ ssh_entry ∷ []) expanded entries_expanded

abbrev given : Config
given = record {
  listen = ":1080";
  buffer_size = pos 0;
  max_connections = pos 0;
  strategy = "";
  address = "";
  chunk_size = pos 0;
  instances = ssh_entry ∷ [];
  interval = "";
  target = "";
  timeout = "";
  gui_listen = "";
  gui_enabled = false;
  gui_username = "";
  gui_password = "";
  slipstream_binary = "";
  users = [];
}

abbrev filled_in : Config
filled_in = record {
  listen = ":1080";
  buffer_size = pos 65536;
  max_connections = pos 10000;
  strategy = "round_robin";
  address = "";
  chunk_size = pos 0;
  instances = ssh_entry ∷ [];
  interval = "10s";
  target = "google.com";
  timeout = "5s";
  gui_listen = "127.0.0.1:8384";
  gui_enabled = false;
  gui_username = "";
  gui_password = "";
  slipstream_binary = "";
  users = [];
}

given_taken : validate given ≡ taken filled_in
unfolding validate validate_strategy validate_instances validate_rest validate_from
    validate_instance instance_problem mode_problem fill_instance is_missing then_cons with_numbers
    or_positive or_text strategy_or_default is_strategy expand_instances expand_from expand_ports
    parse_ports spread replicas_of replicas_from mode_of then_append check_ports first_duplicate
    in_set
given_taken = refl

validate_twice_example : validate filled_in ≡ taken filled_in
validate_twice_example = validate_twice given filled_in given_taken
