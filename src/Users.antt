-- ===== src/Users.antt =====
-- internal/users: who may connect, how much was used, and how much may be sent at a time; and from
-- internal/config/config.go the limits in bytes. Times are milliseconds; locks are not modelled, an
-- operation is one step.
mod Tests
pub mod Authentication
pub mod Limits
pub mod Departure
pub mod Race
pub mod Writer
use Prim.Native.String.{String}
use text.Mathlib.Text.{◌==◌ as str_eq}
use slip_stream_plus.Prelude.{
  ℕ, zero, suc, ◌+◌, ◌-◌, ◌*◌, ◌/◌, Bool, true, false, not, ◌||◌, List, [], ◌∷◌, ◌++◌, ltb, leb,
  ◌==◌, if◌then◌else◌, length, take, drop, Option, none, some,
}
use slip_stream_plus.Prelude.Int.{ℤ, pos, negsuc, ◌+ℤ◌, ltb_ℤ, wrap64}
use slip_stream_plus.Prelude.Maps.{Map, lookup, insert, delete, string_key}

-- `UserConfig`
pub record UserConfig : Type 0 where
  pub username : String
  pub password : String
  pub bandwidth_limit : ℤ
  pub bandwidth_unit : String
  pub data_limit : ℤ
  pub data_unit : String
  pub ip_limit : ℤ

-- `/ 8`, which truncates.
unfoldable pub eighth : ℤ → ℤ
eighth (pos n) = pos (n / 8)
eighth (negsuc n) = if (n + 1) / 8 == 0 then pos 0 else negsuc ((n + 1) / 8 - 1)

unfoldable pub bandwidth_bytes_per_sec : UserConfig → ℤ
unfolding eighth
bandwidth_bytes_per_sec u = elim u.bandwidth_limit [
  | negsuc _ ↦ pos 0
  | pos n ↦
      if n == 0
      then pos 0
      else if str_eq u.bandwidth_unit "mbit"
      then eighth (wrap64 (pos (n * 1000 * 1000)))
      else eighth (wrap64 (pos (n * 1000)))
]

unfoldable pub data_limit_bytes : UserConfig → ℤ
data_limit_bytes u = elim u.data_limit [
  | negsuc _ ↦ pos 0
  | pos n ↦
      if n == 0
      then pos 0
      else if str_eq u.data_unit "gb"
      then wrap64 (pos (n * 1024 * 1024 * 1024))
      else wrap64 (pos (n * 1024 * 1024))
]

-- `User`; a limiter is its burst.
pub record User : Type 0 where
  pub config : UserConfig
  pub limiter : Option ℕ
  pub used_bytes : ℤ
  pub data_limit : ℤ
  pub active_ips : Map String ℤ
  pub cooldown_ips : Map String ℕ
  pub ip_limit : ℤ

-- Why `CheckConnect` refuses.
pub data Refusal : Type 0 where
  quota_exceeded : Refusal
  ip_cooldown : ℕ → Refusal
  ip_limit_reached : Refusal

abbrev pub cooldown : ℕ
cooldown = 10000

unfoldable pub expire : ℕ → Map String ℕ → Map String ℕ
expire now [] = []
expire now ((ip, since) ∷ rest) =
    if ltb (since + cooldown) now then expire now rest else (ip, since) ∷ expire now rest

-- `m[ip]` with 0 for a missing key.
unfoldable pub count : String → Map String ℤ → ℤ
count ip m = elim (lookup ip m) [ none ↦ pos 0 | some n ↦ n ]

unfoldable pub over_quota : User → Bool
over_quota u = if ltb_ℤ (pos 0) u.data_limit then not (ltb_ℤ u.used_bytes u.data_limit) else false

-- The part of `CheckConnect` under the lock, when the expired cooldowns are gone.
unfoldable pub check_ip : String → ℕ → User → Option Refusal
unfolding count
check_ip ip now u =
    if ltb_ℤ (pos 0) (count ip u.active_ips) then none else (elim (lookup ip u.cooldown_ips) [
      | some since ↦ some (ip_cooldown (since + cooldown - now))
      | none ↦ if ltb_ℤ (pos (length u.active_ips)) u.ip_limit then none else some ip_limit_reached
    ])

unfoldable pub check_connect : String → ℕ → User → Option Refusal × User
unfolding over_quota expire check_ip
check_connect ip now u =
    let u' = record u { cooldown_ips = expire now u.cooldown_ips } in
    if over_quota u
    then (some quota_exceeded, u)
    else if ltb_ℤ (pos 0) u.ip_limit
    then (check_ip ip now u', u')
    else (none, u)

unfoldable pub mark_connect : String → User → User
unfolding count
mark_connect ip u = record u {
  active_ips = insert ip (wrap64 (count ip u.active_ips +ℤ pos 1)) u.active_ips;
  cooldown_ips = delete ip u.cooldown_ips;
}

unfoldable pub mark_disconnect : String → ℕ → User → User
unfolding count
mark_disconnect ip now u =
    let n = wrap64 (count ip u.active_ips +ℤ negsuc 0) in
    let ips = insert ip n u.active_ips in
    if ltb_ℤ (pos 0) n then record u { active_ips = ips } else record u {
      active_ips = delete ip ips;
      cooldown_ips =
          if ltb_ℤ (pos 0) u.ip_limit then insert ip now u.cooldown_ips else u.cooldown_ips;
    }

unfoldable pub add_used_bytes : ℤ → User → User
add_used_bytes n u = record u { used_bytes = wrap64 (u.used_bytes +ℤ n) }

unfoldable pub reset_used_bytes : User → User
reset_used_bytes u = record u { used_bytes = pos 0 }

unfoldable pub needs_rate_limit : User → Bool
needs_rate_limit u = elim u.limiter [ none ↦ false | some _ ↦ true ]

-- The users by name, and their names in the order of the configuration.
pub record Manager : Type 0 where
  pub users : Map String User
  pub ordering : List String

-- `burst`, at least 4096 and at most 65536
unfoldable pub burst_of : ℤ → Option ℕ
burst_of (negsuc _) = none
burst_of (pos bps) =
    if bps == 0
    then none
    else if ltb 65536 bps
    then some 65536
    else if ltb bps 4096
    then some 4096
    else some bps

unfoldable pub new_user : UserConfig → User
unfolding bandwidth_bytes_per_sec data_limit_bytes burst_of
new_user cu = record {
  config = cu;
  limiter = burst_of (bandwidth_bytes_per_sec cu);
  used_bytes = pos 0;
  data_limit = data_limit_bytes cu;
  active_ips = [];
  cooldown_ips = [];
  ip_limit = cu.ip_limit;
}

-- The loop of `NewManager`, on what it has built so far.
unfoldable pub add_users : List UserConfig → Manager → Manager
unfolding new_user
add_users [] m = m
add_users (cu ∷ rest) m = add_users rest (record {
  users = insert cu.username (new_user cu) m.users;
  ordering = m.ordering ++ (cu.username ∷ []);
})

unfoldable pub new_manager : List UserConfig → Manager
unfolding add_users
new_manager configs = add_users configs (record { users = []; ordering = [] })

unfoldable pub has_users : Manager → Bool
has_users m = ltb 0 (length m.users)

unfoldable pub authenticate : String → String → Manager → Option User
authenticate username password m = elim (lookup username m.users) [
  | none ↦ none
  | some u ↦ if str_eq u.config.password password then some u else none
]

-- `AllUsers`
unfoldable pub all_users : Map String User → List String → List User
all_users users [] = []
all_users users (name ∷ rest) = elim (lookup name users) [
  | none ↦ all_users users rest
  | some u ↦ u ∷ all_users users rest
]

-- `GetUser`
unfoldable pub get_user : String → Manager → Option User
get_user name m = lookup name m.users

pub record UserStatus : Type 0 where
  pub username : String
  pub bandwidth_limit : ℤ
  pub bandwidth_unit : String
  pub data_limit : ℤ
  pub data_unit : String
  pub data_used_bytes : ℤ
  pub ip_limit : ℤ
  pub active_ips : ℕ

unfoldable pub status : User → UserStatus
status u = record {
  username = u.config.username;
  bandwidth_limit = u.config.bandwidth_limit;
  bandwidth_unit = u.config.bandwidth_unit;
  data_limit = u.config.data_limit;
  data_unit = u.config.data_unit;
  data_used_bytes = u.used_bytes;
  ip_limit = u.ip_limit;
  active_ips = length u.active_ips;
}
