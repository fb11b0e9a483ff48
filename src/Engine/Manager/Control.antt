-- ===== src/Engine/Manager/Control.antt =====
-- internal/engine/manager.go: the manager as a whole, and how it is shut down and given another configuration. A
-- supervisor that has been cancelled is gone; `Shutdown` and `Reload` wait for that.
use Prim.Native.String.{String}
use text.Mathlib.Text.{◌==◌ as str_eq}
use slip_stream_plus.Prelude.{
  ℕ, Bool, true, false, List, [], map, if◌then◌else◌, Option, none, some,
}
use slip_stream_plus.Config.{Error, Parsed, failed, parsed, expand_instances}
use slip_stream_plus.Config.Validation.{Config}
use slip_stream_plus.Engine.Instance.{Instance}
use slip_stream_plus.Engine.Manager.{new_instances, stop, start_each, restart_instance}

-- `live` is that the context has not been cancelled; `supervised` has the numbers of the instances that a supervisor
-- watches.
pub record Manager : Type 0 where
  pub instances : List Instance
  pub binary : String
  pub live : Bool
  pub supervised : List ℕ

unfoldable pub new_manager : Config → Parsed Manager
unfolding expand_instances new_instances
new_manager cfg = elim (expand_instances cfg.instances) [
  | failed e ↦ failed e
  | parsed es ↦ parsed (record {
    instances = new_instances 0 es;
    binary = cfg.slipstream_binary;
    live = true;
    supervised = [];
  })
]

unfoldable pub set_binary : String → Manager → Manager
set_binary path m = record m { binary = path }

unfoldable pub shutdown : Manager → Manager
unfolding stop
shutdown m = record m { instances = map stop m.instances; live = false; supervised = [] }

-- `Reload` from the new context on.
unfoldable pub start_over : (ℕ → Bool) → String → List Instance → Manager
unfolding start_each
start_over starts binary instances =
    let started = start_each starts instances in
    record { instances = started.0; binary = binary; live = true; supervised = started.1 }

-- An error leaves everything stopped.
unfoldable pub reload : (ℕ → Bool) → Config → Manager → Option Error × Manager
unfolding shutdown start_over new_instances expand_instances
reload starts cfg m =
    let binary = if str_eq cfg.slipstream_binary "" then m.binary else cfg.slipstream_binary in
    elim (expand_instances cfg.instances) [
      | failed e ↦ (some e, record (shutdown m) { binary = binary })
      | parsed es ↦ (none, start_over starts binary (new_instances 0 es))
    ]

-- `RestartInstance` on the manager; an instance that is not found is an error.
unfoldable pub restart : ℕ → Manager → Option Manager
unfolding restart_instance
restart id m = elim (restart_instance id m.instances) [
  | none ↦ none
  | some is ↦ some (record m { instances = is })
]
