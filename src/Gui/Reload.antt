-- ===== src/Gui/Reload.antt =====
-- internal/gui/handlers.go and internal/engine/manager.go: what a reload of the configuration leaves.
use text.Mathlib.Text.{◌==◌ as str_eq}
use slip_stream_plus.Prelude.{
  ℕ, ◌≡◌, refl, sym, subst, Bool, true, false, List, [], ◌∷◌, map, ltb, length, if◌then◌else◌,
  Option, none, some, arith, if_lem, Option_lem, Bool-cases, inl, inr,
}
use slip_stream_plus.Config.{Error, Parsed, ExpandedInstance, failed, parsed, expand_instances}
use slip_stream_plus.Config.Validation.{
  Config, Checked, refused, taken, validate, validate_strategy, validate_instances, validate_rest,
  with_numbers, load,
}
use slip_stream_plus.Engine.Instance.{Instance, starting, set_state}
use slip_stream_plus.Engine.Manager.{new_instances, start, start_each}
use slip_stream_plus.Engine.Manager.Control as Engine
use slip_stream_plus.Gui.{ApiServer, Checker, World, Request, Response, done, message, renew_users}
use slip_stream_plus.Gui.Handlers.{
  stop_checker, new_checker, stopped, fresh, reload_users, with_binary, put_to_use, reload_with,
  post_reload, handle_reload,
}

validate-failed :
    (c d : Config) (f : Error) → validate c ≡ taken d → expand_instances d.instances ≡ failed f → ⊥
unfolding validate validate_strategy validate_instances validate_rest with_numbers
validate-failed c d f e h = ground (arith, e, h)

load-validate :
    (given : Option Config) (c : Config)
    → load given ≡ some c
    → (b : Config) × (validate b ≡ taken c)
unfolding load
load-validate none c e = absurd (cc)
load-validate (some given) c e = go (validate given) refl e
  where
    go :
        (v : Checked Config)
        → validate given ≡ v
        → (elim v [ refused _ ↦ none | taken d ↦ some d ]) ≡ some c
        → (b : Config) × (validate b ≡ taken c)
    go (refused p) ev e = absurd (cc)
    go (taken d) ev e = (given, cc)

-- A configuration that was loaded can be expanded.
load-expands :
    (given : Option Config) (c : Config)
    → load given ≡ some c
    → (es : List ExpandedInstance) × (expand_instances c.instances ≡ parsed es)
load-expands given c e = go (expand_instances c.instances) refl
  where
    go :
        (p : Parsed (List ExpandedInstance))
        → expand_instances c.instances ≡ p
        → (es : List ExpandedInstance) × (expand_instances c.instances ≡ parsed es)
    go (parsed es) h = (es, h)
    go (failed f) h = let v = load-validate given c e in absurd (validate-failed (v.0) c f (v.1) h)

-- What is left of an instance that was to be started.
abbrev pub tried : (ℕ → Bool) → Instance → Instance
tried starts i = if starts i.id then set_state starting i else i

-- The numbers of the instances that start.
abbrev pub started : (ℕ → Bool) → List Instance → List ℕ
started starts [] = []
started starts (i ∷ rest) = if starts i.id then i.id ∷ started starts rest else started starts rest

start_each_lem :
    (starts : ℕ → Bool) (is : List Instance)
    → start_each starts is ≡ (map (tried starts) is, started starts is)
unfolding start_each start
start_each_lem starts [] = refl
start_each_lem starts (i ∷ is) = elim (Bool-cases (starts i.id)) [
  | inl h ↦ rw (start_each_lem starts is, h) refl
  | inr h ↦ rw (start_each_lem starts is, h) refl
]

-- The server behind a reload.
pub record Reloaded (w : World) (c : Config) (s : ApiServer) (out : Response × ApiServer)
    : Type 0 where
  pub es : List ExpandedInstance
  pub expanded : expand_instances c.instances ≡ parsed es
  pub answer : out.0 ≡ (200, done "reloaded")
  pub cfg : out.1.cfg ≡ with_binary c s
  pub checker : out.1.checker ≡ fresh s.checker
  pub instances : out.1.manager.instances ≡ map (tried w.starts) (new_instances 0 es)
  pub supervised : out.1.manager.supervised ≡ started w.starts (new_instances 0 es)
  pub live : out.1.manager.live ≡ true

reload_users-Reloaded :
    (w : World) (c : Config) (s t : ApiServer)
    → Reloaded w c s ((200, done "reloaded"), t)
    → Reloaded w c s ((200, done "reloaded"), reload_users t)
unfolding reload_users renew_users
reload_users-Reloaded w c s t r =
    Option_lem (λ (u : ApiServer). Reloaded w c s ((200, done "reloaded"), u)) t.user_mgr (λ _. r)
      (λ _ _.
        if_lem (λ (u : ApiServer). Reloaded w c s ((200, done "reloaded"), u))
          (ltb 0 (length t.cfg.users))
          (λ _. record {
            es = r.es;
            expanded = r.expanded;
            answer = refl;
            cfg = r.cfg;
            checker = r.checker;
            instances = r.instances;
            supervised = r.supervised;
            live = r.live;
          })
          (λ _. r))

fresh-stopped : (c : Option Checker) → fresh (stopped c) ≡ fresh c
unfolding fresh stopped
fresh-stopped none = refl
fresh-stopped (some c) = refl

-- The manager behind a reload of a configuration that can be expanded.
reload_lem :
    (starts : ℕ → Bool) (c : Config) (m : Engine.Manager) (es : List ExpandedInstance)
    → expand_instances c.instances ≡ parsed es
    → Engine.reload starts c m ≡ (
      none,
      record {
        instances = map (tried starts) (new_instances 0 es);
        binary = if str_eq c.slipstream_binary "" then m.binary else c.slipstream_binary;
        live = true;
        supervised = started starts (new_instances 0 es);
      },
    )
unfolding Engine.reload Engine.start_over
reload_lem starts c m es e = rw (Engine.reload, e, start_each_lem starts (new_instances 0 es)) refl

-- A POST to /api/reload, when the stored configuration can be loaded, is always answered with 200: the configuration
-- is the loaded one, with the binary of the old one if it has none, its instances are the manager's, each started and
-- supervised if it can be started, the manager is live, and a checker that there was is replaced by a running one that
-- does not know of packet splitting.
pub handle_reload-Reloaded :
    (w : World) (r : Request) (s : ApiServer) (c : Config)
    → str_eq r.method "OPTIONS" ≡ false
    → str_eq r.method "POST" ≡ true
    → load w.stored ≡ some c
    → Reloaded w c s (handle_reload w r s)
unfolding handle_reload post_reload reload_with put_to_use new_checker stop_checker with_binary
handle_reload-Reloaded w r s c o p e =
    let x = load-expands w.stored c e in
    rw (o, p, post_reload, e)
      (subst
        (λ (q : Option Error × Engine.Manager). Reloaded w c s (elim (q.0) [
          | some _ ↦ ((500, message), record (stop_checker s) { manager = q.1 })
          | none ↦ ((200, done "reloaded"), put_to_use (q.1) (with_binary c s) (stop_checker s))
        ]))
        (sym (reload_lem w.starts (with_binary c s) s.manager (x.0) (x.1)))
        (reload_users-Reloaded w c s _ (record {
          es = x.0;
          expanded = x.1;
          answer = refl;
          cfg = refl;
          checker = fresh-stopped s.checker;
          instances = refl;
          supervised = refl;
          live = refl;
        })))
