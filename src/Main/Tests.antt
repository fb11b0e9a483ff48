-- ===== src/Main/Tests.antt =====
-- The theorems on cmd/slipstreamplus at concrete inputs.
use slip_stream_plus.Prelude.{true, false, [], ◌∷◌, none, some}
use slip_stream_plus.Prelude.Int.{pos}
use slip_stream_plus.Config.{InstanceConfig, ExpandedInstance, number, parsed}
use slip_stream_plus.Config as Expand
use slip_stream_plus.Config.Validation as Validation
use slip_stream_plus.Config.Validation.{Config}
use slip_stream_plus.Engine.Instance.{starting, socks, new_instance, set_state}
use slip_stream_plus.Engine.Manager as Manager
use slip_stream_plus.Engine.Manager.Control as Engine
use slip_stream_plus.Users.{UserConfig}
use slip_stream_plus.Gui.{World, Request, user_action}
use slip_stream_plus.Main.{Host, Flags, socks_server, Launched, new_api_server}

abbrev ann : UserConfig
ann = record {
  username = "ann";
  password = "p";
  bandwidth_limit = pos 0;
  bandwidth_unit = "";
  data_limit = pos 0;
  data_unit = "";
  ip_limit = pos 0;
}

abbrev entry : InstanceConfig
entry = record {
  domain = "t.example";
  resolver = "8.8.8.8";
  port = number (pos 6000);
  replicas = pos 1;
  authoritative = false;
  cert = "";
  mode = "socks";
  ssh_port = pos 0;
  ssh_user = "";
  ssh_password = "";
  ssh_key = "";
}

-- A configuration that `Validate` leaves as it is.
abbrev config : Config
config = record {
  listen = ":1080";
  buffer_size = pos 65536;
  max_connections = pos 10000;
  strategy = "round_robin";
  address = "";
  chunk_size = pos 0;
  instances = entry ∷ [];
  interval = "10s";
  target = "google.com";
  timeout = "5s";
  gui_listen = "127.0.0.1:8384";
  gui_enabled = true;
  gui_username = "";
  gui_password = "";
  slipstream_binary = "client";
  users = ann ∷ [];
}

abbrev host : Host
host = record { stored = some config; embedded = none; exists = λ path. true; starts = λ id. true }

abbrev flags : Flags
flags = record { gui = false; gui_listen = "" }

abbrev manager : Engine.Manager
manager = record {
  instances = set_state starting (new_instance 0 socks) ∷ [];
  binary = "client";
  live = true;
  supervised = 0 ∷ [];
}

abbrev launched : Launched
launched = record {
  api = new_api_server manager config;
  dashboard = true;
  tunnel_pool = false;
  strategy = "round_robin";
  proxy = socks_server;
}

-- A request to remove ann.
abbrev removal : World × Request
removal = (
  record { starts = λ id. true; saves = true; stored = none },
  record {
    route = user_action;
    method = "POST";
    parts = "api" ∷ "users" ∷ "ann" ∷ "delete" ∷ [];
    id = none;
    basic_auth = none;
    config_body = none;
    user_body = none;
  },
)
