-- ===== src/Main/Wiring.antt =====
-- cmd/slipstreamplus/main.go together with internal/gui and internal/users: what holds of a process that has started.
use Prim.Native.String.{String}
use text.Mathlib.Text.{◌==◌ as str_eq}
use slip_stream_plus.Prelude.{
  ◌≡◌, refl, sym, ap, ◌∙◌, true, List, ltb, if◌then◌else◌, length, Option, none, some, arith,
  some_inj, bind_inv,
}
use slip_stream_plus.Prelude.Maps.{string_key}
use slip_stream_plus.Config.{ExpandedInstance, Parsed, failed, parsed, expand_instances}
use slip_stream_plus.Config.Validation.{Config, load}
use slip_stream_plus.Engine.Manager.Control as Engine
use slip_stream_plus.Users.{Manager, new_manager}
use slip_stream_plus.Main.{
  Host, Flags, ssh_server, Launched, choose_binary, has_ssh, is_packet_split, choose_proxy,
  launch_started, launch_with, launch,
}

-- The users that a configuration asks a proxy to let in.
abbrev pub asked : Config → Option Manager
asked c = if ltb 0 (length c.users) then some (new_manager c.users) else none

-- What a process that has started was made of.
record Made (h : Host) (f : Flags) (l : Launched) : Type 0 where
  loaded : Config
  chosen : Config
  es : List ExpandedInstance
  m : Engine.Manager
  is_loaded : load h.stored ≡ some loaded
  is_chosen : choose_binary h loaded ≡ some chosen
  expanded : expand_instances chosen.instances ≡ parsed es
  made : launch_started h f chosen es m ≡ some l

parsed_inv {ℓ κ} :
    {A : Type ℓ} {B : Type κ} (p : Parsed A) (f : A → Option B) (b : B)
    → (elim p as (λ _. Option B) [ failed _ ↦ none | parsed a ↦ f a ]) ≡ some b
    → (a : A) × (p ≡ parsed a) × (f a ≡ some b)
parsed_inv (failed e) f b h = absurd (cc)
parsed_inv (parsed a) f b h = (a, refl, h)

launch-Made : (h : Host) (f : Flags) (l : Launched) → launch h f ≡ some l → Made h f l
unfolding launch launch_with
launch-Made h f l e =
    let (c, ec, e1) = bind_inv (load h.stored) _ l e in
    let (d, ed, e2) = bind_inv (choose_binary h c) _ l e1 in
    let (es, ees, e3) = parsed_inv (expand_instances d.instances) _ l e2 in
    let (m, em, e4) = parsed_inv (Engine.new_manager d) _ l e3 in
    record {
      loaded = c;
      chosen = d;
      es = es;
      m = m;
      is_loaded = ec;
      is_chosen = ed;
      expanded = ees;
      made = e4;
    }

choose_binary-kept :
    (h : Host) (c d : Config)
    → choose_binary h c ≡ some d
    → (d.instances ≡ c.instances) × d.strategy ≡ c.strategy
unfolding choose_binary
choose_binary-kept h c d e = ground (arith, e)

parsed_inj : {a b : List ExpandedInstance} → parsed a ≡ parsed b → a ≡ b
parsed_inj {a} p = ap (λ o. elim o [ failed _ ↦ a | parsed x ↦ x ]) p

module _ (h : Host) (f : Flags) (c : Config) (es : List ExpandedInstance) (m : Engine.Manager)
    (l : Launched) where
  launch_started-proxy :
      launch_started h f c es m ≡ some l
      → (l.proxy ≡ choose_proxy c es) × l.tunnel_pool ≡ is_packet_split c
  unfolding launch_started
  launch_started-proxy e = ground (arith, e)

-- A configuration with an SSH instance makes a process whose proxy is the SSH server, also where there are SOCKS
-- instances and where the strategy is packet_split, for which a pool of tunnels is kept all the same.
pub launch-ssh_server :
    (h : Host) (f : Flags) (l : Launched) (c : Config) (es : List ExpandedInstance)
    → load h.stored ≡ some c
    → launch h f ≡ some l
    → expand_instances c.instances ≡ parsed es
    → has_ssh es ≡ true
    → (l.proxy ≡ ssh_server) × (l.tunnel_pool ≡ is_packet_split c)
unfolding choose_proxy is_packet_split
launch-ssh_server h f l c es loaded e expanded ssh =
    let w = launch-Made h f l e in
    let p = launch_started-proxy h f w.chosen w.es w.m l w.made in
    let same : w.loaded ≡ c = some_inj (sym w.is_loaded ∙ loaded) in
    let kept = choose_binary-kept h w.loaded w.chosen w.is_chosen in
    let alike : w.es ≡ es = parsed_inj (
      sym w.expanded
      ∙ ap expand_instances (kept.0 ∙ ap (λ (x : Config). x.instances) same)
      ∙ expanded) in
    (
      p.0 ∙ rw (alike, ssh) refl,
      p.1 ∙ ap (λ s. str_eq s "packet_split") (kept.1 ∙ ap (λ (x : Config). x.strategy) same),
    )
