-- ===== src/Main.antt =====
-- cmd/slipstreamplus/main.go: what the process starts from its flags and its configuration.
mod Tests
pub mod Wiring
use Prim.Native.String.{String}
use text.Mathlib.Text.{◌==◌ as str_eq}
use slip_stream_plus.Prelude.{
  ℕ, Bool, true, false, not, ◌&&◌, ◌||◌, List, [], ◌∷◌, ltb, if◌then◌else◌, length, Option, none,
  some,
}
use slip_stream_plus.Prelude.Int.{ℤ, pos}
use slip_stream_plus.Config.{Error, ExpandedInstance, Parsed, failed, parsed, expand_instances}
use slip_stream_plus.Config.Validation.{Config, load}
use slip_stream_plus.Engine.Manager.{start_all}
use slip_stream_plus.Engine.Manager.Control as Engine
use slip_stream_plus.Users.{Manager, new_manager}
use slip_stream_plus.Gui.{ApiServer, Checker}

-- What is outside of the process when it starts. `embedded` is none for a build without the binary, and else the path
-- that it is extracted to, none if that fails; `stored` is what the file of the configuration holds.
pub record Host : Type 0 where
  pub stored : Option Config
  pub embedded : Option (Option String)
  pub exists : String → Bool
  pub starts : ℕ → Bool

-- The flags but the path of the configuration.
pub record Flags : Type 0 where
  pub gui : Bool
  pub gui_listen : String

-- The server that takes the clients.
pub data Proxy : Type 0 where
  ssh_server socks_server no_server : Proxy
  packet_split_server : ℤ → Proxy

pub record Launched : Type 0 where
  pub api : ApiServer
  pub dashboard : Bool
  pub tunnel_pool : Bool
  pub strategy : String
  pub proxy : Proxy

-- Which binary runs; none is a fatal error.
unfoldable pub choose_binary : Host → Config → Option Config
choose_binary h c = elim h.embedded [
  | some none ↦ none
  | some (some path) ↦ some (record c { slipstream_binary = path })
  | none ↦
      if str_eq c.slipstream_binary ""
      then none
      else if h.exists c.slipstream_binary
      then some c
      else none
]

-- `hasSSH`
unfoldable pub has_ssh : List ExpandedInstance → Bool
has_ssh [] = false
has_ssh (e ∷ rest) = if str_eq e.mode "ssh" then true else has_ssh rest

-- `hasSOCKS`
unfoldable pub has_socks : List ExpandedInstance → Bool
has_socks [] = false
has_socks (e ∷ rest) = if str_eq e.mode "ssh" then has_socks rest else true

unfoldable pub is_packet_split : Config → Bool
is_packet_split c = str_eq c.strategy "packet_split"

unfoldable pub choose_proxy : Config → List ExpandedInstance → Proxy
unfolding has_ssh has_socks is_packet_split
choose_proxy c es =
    if has_ssh es
    then ssh_server
    else if has_socks es
    then (if is_packet_split c then packet_split_server c.chunk_size else socks_server)
    else no_server

-- The user managers that there are: one, if there are users.
unfoldable pub first_managers : Config → List Manager
first_managers c = if ltb 0 (length c.users) then new_manager c.users ∷ [] else []

unfoldable pub first_pointer : Config → Option ℕ
first_pointer c = if ltb 0 (length c.users) then some 0 else none

-- `NewAPIServer`, and what it shares.
unfoldable pub new_api_server : Engine.Manager → Config → ApiServer
unfolding first_managers first_pointer is_packet_split
new_api_server m c = record {
  manager = m;
  cfg = c;
  file = none;
  user_mgr = first_pointer c;
  checker = some (record { packet_split = is_packet_split c; running = true });
  bw_history = [];
  last_tx = pos 0;
  last_rx = pos 0;
  user_managers = first_managers c;
  proxy_users = first_pointer c;
  restarts = 0;
}

unfoldable pub with_gui : Flags → Config → Config
with_gui f c =
    if (f.gui || c.gui_enabled) && not (str_eq f.gui_listen "")
    then record c { gui_listen = f.gui_listen }
    else c

-- `main` behind `StartAll`, which an instance that does not start ends.
unfoldable pub launch_started :
    Host → Flags → Config → List ExpandedInstance → Engine.Manager → Option Launched
unfolding start_all with_gui new_api_server choose_proxy is_packet_split
launch_started h f c es m =
    let started = start_all h.starts m.instances in
    elim (started.2) [
      | some _ ↦ none
      | none ↦ some (record {
        api =
            new_api_server (record m { instances = started.0; supervised = started.1 })
              (with_gui f c);
        dashboard = f.gui || c.gui_enabled;
        tunnel_pool = is_packet_split c;
        strategy = c.strategy;
        proxy = choose_proxy c es;
      })
    ]

-- `main` behind the choice of the binary.
unfoldable pub launch_with : Host → Flags → Config → Option Launched
unfolding launch_started expand_instances
launch_with h f c = elim (expand_instances c.instances) [
  | failed _ ↦ none
  | parsed es ↦ elim (Engine.new_manager c) [
    | failed _ ↦ none
    | parsed m ↦ launch_started h f c es m
  ]
]

-- `main`, up to the server that takes the clients; none is a fatal error.
unfoldable pub launch : Host → Flags → Option Launched
unfolding load choose_binary launch_with
launch h f = elim (load h.stored) [
  | none ↦ none
  | some c ↦ elim (choose_binary h c) [ none ↦ none | some d ↦ launch_with h f d ]
]
