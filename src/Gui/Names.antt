-- ===== src/Gui/Names.antt =====
-- internal/gui/handlers.go: the names of the users in the configuration.
use Prim.Native.String.{String}
use text.Mathlib.Text.{◌==◌ as str_eq}
use slip_stream_plus.Prelude.{
  ℕ, ◌≡◌, refl, sym, ap, ◌∙◌, subst, true, false, List, [], ◌∷◌, ◌++◌, ltb, length, if◌then◌else◌,
  Option, none, some, get_elem?, arith, if_lem, Option_lem, Bool-cases, inl, inr, All,
}
use slip_stream_plus.Prelude.Maps.{eqb-true, string_key}
use slip_stream_plus.Config.Validation.{
  Config, Checked, refused, taken, validate, validate_strategy, validate_instances, validate_rest,
  with_numbers, load,
}
use slip_stream_plus.Engine.Manager.Control as Engine
use slip_stream_plus.Users.{UserConfig, get_user}
use slip_stream_plus.Gui.{ApiServer, World, Request, Response, renew_users, save}
use slip_stream_plus.Gui.Handlers.{
  store_config, stop_checker, new_checker, reload_users, with_binary, put_to_use, reload_with,
  change_users, reset_at, renew_or_drop, has_name, replace_user, without_user,
}
use slip_stream_plus.Gui.Serving.{serve, serve_all}
use slip_stream_plus.Gui.Steps.{
  Served, same, stored, reloaded, scheduled, restarted, added, edited, deleted, reset, serve-Served,
}

-- No name stands twice.
abbrev pub AreDistinct : List UserConfig → Type 0
AreDistinct [] = Unit
AreDistinct (u ∷ rest) = (has_name u.username rest ≡ false) × AreDistinct rest

-- `Validate` leaves the users alone.
validate-users : (c d : Config) → validate c ≡ taken d → d.users ≡ c.users
unfolding validate validate_strategy validate_instances validate_rest with_numbers
validate-users c d e = ground (arith, e)

has_name-append :
    (name : String) (us : List UserConfig) (uc : UserConfig)
    → has_name name us ≡ false
    → str_eq uc.username name ≡ false
    → has_name name (us ++ (uc ∷ [])) ≡ false
unfolding has_name
has_name-append name [] uc h e = rw (e) refl
has_name-append name (u ∷ us) uc h e = ground (arith, h, e, has_name-append name us uc)

other_sym : (a b : String) → str_eq a b ≡ false → str_eq b a ≡ false
other_sym a b h = elim (Bool-cases (str_eq b a)) [
  | inr e ↦ e
  | inl e ↦ absurd (cc (eqb-true b a e, h))
]

AreDistinct-append :
    (us : List UserConfig) (uc : UserConfig)
    → has_name uc.username us ≡ false
    → AreDistinct us
    → AreDistinct (us ++ (uc ∷ []))
unfolding has_name
AreDistinct-append [] uc h d = (refl, tt)
AreDistinct-append (u ∷ us) uc h d = elim (Bool-cases (str_eq u.username uc.username)) [
  | inl e ↦ absurd (cc (rw (has_name, e) at h))
  | inr e ↦ (
    has_name-append u.username us uc (d.0) (other_sym u.username uc.username e),
    AreDistinct-append us uc (rw (has_name, e) at h) (d.1),
  )
]

has_name-replace_user :
    (other : String) (uc : UserConfig) (name : String) (us : List UserConfig)
    → has_name other (replace_user uc name us) ≡ has_name other us
unfolding has_name replace_user
has_name-replace_user other uc name [] = refl
has_name-replace_user other uc name (u ∷ us) = elim (Bool-cases (str_eq u.username name)) [
  | inl e ↦ rw (e) (
      ap (λ n. if str_eq n other then true else has_name other us)
        (sym (eqb-true u.username name e)))
  | inr e ↦ rw (e, has_name-replace_user other uc name us) refl
]

AreDistinct-replace_user :
    (uc : UserConfig) (name : String) (us : List UserConfig)
    → AreDistinct us
    → AreDistinct (replace_user uc name us)
unfolding replace_user
AreDistinct-replace_user uc name [] d = tt
AreDistinct-replace_user uc name (u ∷ us) d = elim (Bool-cases (str_eq u.username name)) [
  | inl e ↦ rw (e) (ap (λ n. has_name n us) (sym (eqb-true u.username name e)) ∙ d.0, d.1)
  | inr e ↦
      rw (e) (
        has_name-replace_user u.username uc name us ∙ d.0,
        AreDistinct-replace_user uc name us (d.1),
      )
]

has_name-without_user :
    (other name : String) (us : List UserConfig)
    → has_name other us ≡ false
    → has_name other (without_user name us) ≡ false
unfolding has_name without_user
has_name-without_user other name [] h = refl
has_name-without_user other name (u ∷ us) h = ground (arith, h, has_name-without_user other name us)

AreDistinct-without_user :
    (name : String) (us : List UserConfig) → AreDistinct us → AreDistinct (without_user name us)
unfolding without_user
AreDistinct-without_user name [] d = tt
AreDistinct-without_user name (u ∷ us) d =
    if_lem AreDistinct (str_eq u.username name) (λ _. AreDistinct-without_user name us (d.1))
      (λ _.
        (has_name-without_user u.username name us (d.0), AreDistinct-without_user name us (d.1)))

-- A configuration that is sent or stored names no user twice.
abbrev HasDistinct : Option Config → Type 0
HasDistinct none = Unit
HasDistinct (some c) = AreDistinct c.users

-- So do all that come from outside with a request.
abbrev pub IsClean : World × Request → Type 0
IsClean q = HasDistinct q.0.stored × HasDistinct q.1.config_body

load-AreDistinct :
    (given : Option Config) (c : Config)
    → load given ≡ some c
    → HasDistinct given
    → AreDistinct c.users
unfolding load
load-AreDistinct none c e h = absurd (cc)
load-AreDistinct (some given) c e h = go (validate given) refl e
  where
    users_of : Option Config → List UserConfig
    users_of none = []
    users_of (some d) = d.users

    go :
        (v : Checked Config)
        → validate given ≡ v
        → (elim v [ refused _ ↦ none | taken d ↦ some d ]) ≡ some c
        → AreDistinct c.users
    go (refused p) ev e = absurd (cc)
    go (taken d) ev e = subst AreDistinct (sym (validate-users given d ev) ∙ ap users_of e) h

reload_users-cfg : (s : ApiServer) → (reload_users s).cfg ≡ s.cfg
unfolding reload_users renew_users
reload_users-cfg s =
    Option_lem (λ (t : ApiServer). t.cfg ≡ s.cfg) s.user_mgr (λ _. refl)
      (λ _ _.
        if_lem (λ (t : ApiServer). t.cfg ≡ s.cfg) (ltb 0 (length s.cfg.users)) (λ _. refl)
          (λ _. refl))

renew_or_drop-cfg : (s : ApiServer) → (renew_or_drop s).cfg ≡ s.cfg
unfolding renew_or_drop renew_users
renew_or_drop-cfg s =
    if_lem (λ (t : ApiServer). t.cfg ≡ s.cfg) (ltb 0 (length s.cfg.users)) (λ _. refl) (λ _. refl)

-- A step behind which no name stands twice.
abbrev Names : Response × ApiServer → Type 0
Names out = AreDistinct out.1.cfg.users

module _ (w : World) (s : ApiServer) where
  reload_with-Names :
      (c : Config) → AreDistinct c.users → AreDistinct s.cfg.users → Names (reload_with w c s)
  unfolding reload_with stop_checker put_to_use new_checker with_binary
  reload_with-Names c new old =
      Option_lem Names ((Engine.reload w.starts (with_binary c s) s.manager).0)
        (λ _. rw (reload_users-cfg) new) (λ _ _. old)

  change_users-Names :
      (renew : ApiServer → ApiServer) (answer : String) (us : List UserConfig)
      → ((t : ApiServer) → (renew t).cfg ≡ t.cfg)
      → AreDistinct us
      → Names (change_users w renew answer us s)
  unfolding change_users save
  change_users-Names renew answer us kept d = if_lem Names w.saves (λ _. rw (kept) d) (λ _. d)

  reset_at-Names : (at : ℕ) (name : String) → AreDistinct s.cfg.users → Names (reset_at at name s)
  unfolding reset_at
  reset_at-Names at name d =
      Option_lem Names (get_elem? s.user_managers at) (λ _. d)
        (λ m _. Option_lem Names (get_user name m) (λ _. d) (λ _ _. d))

Served-Names :
    (w : World) (r : Request) (s : ApiServer) (out : Response × ApiServer)
    → Served w r s out
    → IsClean (w, r)
    → AreDistinct s.cfg.users
    → Names out
unfolding store_config save
Served-Names w r s _ (same a) clean d = d
Served-Names w r s _ (stored c e b v) clean d =
    if_lem Names w.saves
      (λ _. subst AreDistinct (sym (validate-users c e v)) (subst HasDistinct b (clean.1))) (λ _. d)
Served-Names w r s _ (reloaded c e) clean d =
    reload_with-Names w s c (load-AreDistinct w.stored c e (clean.0)) d
Served-Names w r s _ scheduled clean d = d
Served-Names w r s _ (restarted id m e) clean d = d
Served-Names w r s _ (added uc e) clean d =
    change_users-Names w s renew_users "added" _ (λ _. unfold renew_users in refl)
      (AreDistinct-append s.cfg.users uc e d)
Served-Names w r s _ (edited uc name e) clean d =
    change_users-Names w s renew_users "updated" _ (λ _. unfold renew_users in refl)
      (AreDistinct-replace_user uc name s.cfg.users d)
Served-Names w r s _ (deleted name) clean d =
    change_users-Names w s renew_or_drop "deleted" _ renew_or_drop-cfg
      (AreDistinct-without_user name s.cfg.users d)
Served-Names w r s _ (reset at name) clean d = reset_at-Names w s at name d

-- As long as the configurations that are sent and stored name no user twice, the running configuration, which starts
-- so, names no user twice, whatever users are added, changed and removed.
pub serve_all-AreDistinct :
    (auth : Option (String × String)) (requests : List (World × Request)) (s : ApiServer)
    → All IsClean requests
    → AreDistinct s.cfg.users
    → AreDistinct (serve_all auth requests s).cfg.users
unfolding serve_all
serve_all-AreDistinct auth [] s clean d = d
serve_all-AreDistinct auth ((w, r) ∷ rest) s clean d =
    serve_all-AreDistinct auth rest _ (clean.1)
      (Served-Names w r s (serve auth w r s) (serve-Served auth w r s) (clean.0) d)
