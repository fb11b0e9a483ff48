-- ===== src/Gui/Tests.antt =====
-- The theorems on internal/gui at concrete inputs.
use Prim.Native.String.{String}
use slip_stream_plus.Prelude.{◌≡◌, ◌⊎◌, refl, true, false, List, [], ◌∷◌, Option, none, some}
use slip_stream_plus.Prelude.Int.{pos}
use slip_stream_plus.Config.{InstanceConfig, number}
use slip_stream_plus.Config as Expand
use slip_stream_plus.Config.Validation as Validation
use slip_stream_plus.Config.Validation.{Config, load}
use slip_stream_plus.Users.{UserConfig}
use slip_stream_plus.Gui.{ApiServer, World, Request, Route, users, reload, user_action}
use slip_stream_plus.Gui.Handlers.{has_name, change_users, delete_user}
use slip_stream_plus.Gui.Serving.{serve, serve_all}
use slip_stream_plus.Gui.Handlers.{handle_reload}
use slip_stream_plus.Gui.Changes.{IsAllowed, serve_changes}
use slip_stream_plus.Gui.UserChanges.{IsInStep, removal, change, find_user, wanted, change-IsInStep}
use slip_stream_plus.Gui.Names.{AreDistinct, serve_all-AreDistinct}
use slip_stream_plus.Gui.Reload.{Reloaded, handle_reload-Reloaded}

abbrev user_named : String → UserConfig
user_named name = record {
  username = name;
  password = "p";
  bandwidth_limit = pos 0;
  bandwidth_unit = "";
  data_limit = pos 0;
  data_unit = "";
  ip_limit = pos 0;
}

abbrev entry : InstanceConfig
entry = record {
  domain = "t.example";
  resolver = "8.8.8.8";
  port = number (pos 6000);
  replicas = pos 1;
  authoritative = false;
  cert = "";
  mode = "socks";
  ssh_port = pos 0;
  ssh_user = "";
  ssh_password = "";
  ssh_key = "";
}

-- A configuration that `Validate` leaves as it is.
abbrev config_with : List UserConfig → Config
config_with us = record {
  listen = ":1080";
  buffer_size = pos 65536;
  max_connections = pos 10000;
  strategy = "round_robin";
  address = "";
  chunk_size = pos 0;
  instances = entry ∷ [];
  interval = "10s";
  target = "google.com";
  timeout = "5s";
  gui_listen = "127.0.0.1:8384";
  gui_enabled = true;
  gui_username = "admin";
  gui_password = "secret";
  slipstream_binary = "client";
  users = us;
}

abbrev server : ApiServer
server = record {
  manager = record { instances = []; binary = "client"; live = true; supervised = [] };
  cfg = config_with (user_named "ann" ∷ []);
  file = none;
  user_mgr = none;
  checker = some (record { packet_split = true; running = true });
  bw_history = [];
  last_tx = pos 0;
  last_rx = pos 0;
  user_managers = [];
  proxy_users = none;
  restarts = 0;
}

abbrev world : World
world = record {
  starts = λ id. true;
  saves = true;
  stored = some (config_with (user_named "ann" ∷ []));
}

abbrev post : Route → List String → Option UserConfig → Request
post route parts body = record {
  route = route;
  method = "POST";
  parts = parts;
  id = none;
  basic_auth = some ("admin", "secret");
  config_body = none;
  user_body = body;
}

abbrev add_bob : Request
add_bob = post users ("api" ∷ "users" ∷ []) (some (user_named "bob"))

abbrev delete_ann : Request
delete_ann = post user_action ("api" ∷ "users" ∷ "ann" ∷ "delete" ∷ []) none

serve_changes_example :
    let out = serve (some ("admin", "secret")) world add_bob server in
    (out.1 ≡ server)
    ⊎ (IsAllowed (some ("admin", "secret")) add_bob × ((out.0.0 ≡ 200) ⊎ (out.0.0 ≡ 500)))
serve_changes_example = serve_changes (some ("admin", "secret")) world add_bob server

change-IsInStep_example :
    let t = (change world (removal "ann") server).1 in
    (find_user "ann" t.cfg.users ≡ wanted (removal "ann") "ann" (find_user "ann" server.cfg.users))
    × (t.file ≡ some t.cfg)
    × IsInStep t
change-IsInStep_example =
    change-IsInStep world (removal "ann") "ann" server
      (unfold change delete_user change_users in refl)

serve_all-AreDistinct_example :
    AreDistinct (serve_all none ((world, add_bob) ∷ (world, delete_ann) ∷ []) server).cfg.users
serve_all-AreDistinct_example =
    serve_all-AreDistinct none ((world, add_bob) ∷ (world, delete_ann) ∷ []) server
      (((unfold has_name in refl, tt), tt), (((unfold has_name in refl, tt), tt), tt))
      (unfold has_name in refl, tt)

stored_loads : load world.stored ≡ some (config_with (user_named "ann" ∷ []))
unfolding load Validation.validate Validation.validate_strategy Validation.validate_instances
    Validation.validate_rest Validation.validate_from Validation.validate_instance
    Validation.instance_problem Validation.mode_problem Validation.fill_instance
    Validation.is_missing Validation.then_cons Validation.with_numbers Validation.or_positive
    Validation.or_text Validation.strategy_or_default Validation.is_strategy Expand.expand_instances
    Expand.expand_from Expand.expand_ports Expand.parse_ports Expand.spread Expand.replicas_of
    Expand.replicas_from Expand.mode_of Expand.then_append Expand.check_ports Expand.first_duplicate
    Expand.in_set
stored_loads = refl

handle_reload-Reloaded_example :
    Reloaded world
      (config_with (user_named "ann" ∷ []))
      server
      (handle_reload world (post reload ("api" ∷ "reload" ∷ []) none) server)
handle_reload-Reloaded_example =
    handle_reload-Reloaded world (post reload ("api" ∷ "reload" ∷ []) none) server
      (config_with (user_named "ann" ∷ [])) refl refl stored_loads
