-- ===== src/Users/Authentication.antt =====
-- internal/users/manager.go: who is let in, from the configuration.
use Prim.Native.String.{String}
use text.Mathlib.Text.{◌==◌ as str_eq}
use slip_stream_plus.Prelude.{
  ◌≡◌, refl, ap, ◌∙◌, Bool, false, List, [], ◌∷◌, ◌++◌, if◌then◌else◌, none, some, All,
}
use slip_stream_plus.Prelude.Maps.{eqb, eqb_refl, lookup, string_key}
use slip_stream_plus.Prelude.Maps.Laws.{lookup-insert}
use slip_stream_plus.Users.{UserConfig, Manager, new_user, add_users, new_manager, authenticate}

-- The configuration of another user.
abbrev pub IsOther : String → UserConfig → Type 0
IsOther name cu = eqb cu.username name ≡ false

lookup-add_users :
    (name : String) (after : List UserConfig) (m : Manager)
    → All (IsOther name) after
    → lookup name (add_users after m).users ≡ lookup name m.users
unfolding add_users
lookup-add_users name [] m h = refl
lookup-add_users name (c ∷ rest) m h =
    lookup-add_users name rest _ h.1
    ∙ lookup-insert c.username name (new_user c) m.users
    ∙ ap (λ (b : Bool). if b then some (new_user c) else lookup name m.users) h.0

pub lookup-add_users_last :
    (cu : UserConfig) (before after : List UserConfig) (m : Manager)
    → All (IsOther cu.username) after
    → lookup cu.username (add_users (before ++ (cu ∷ after)) m).users ≡ some (new_user cu)
unfolding add_users
lookup-add_users_last cu [] after m h =
    lookup-add_users cu.username after _ h
    ∙ lookup-insert cu.username cu.username (new_user cu) m.users
    ∙ ap (λ (b : Bool). if b then some (new_user cu) else lookup cu.username m.users)
        (eqb_refl cu.username)
lookup-add_users_last cu (c ∷ before) after m h = lookup-add_users_last cu before after _ h

-- A name of the configuration is let in with the password that its last entry has and with no other,
-- as the user that this entry describes.
pub authenticate_last :
    (cu : UserConfig) (before after : List UserConfig) (password : String)
    → All (IsOther cu.username) after
    → authenticate cu.username password (new_manager (before ++ (cu ∷ after)))
      ≡ (if str_eq cu.password password then some (new_user cu) else none)
unfolding authenticate new_manager new_user
authenticate_last cu before after password h =
    rw
      (lookup-add_users_last cu before after (record { users = []; ordering = [] }) h, authenticate)
