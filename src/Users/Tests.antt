-- ===== src/Users/Tests.antt =====
-- The theorems on internal/users at concrete inputs.
use slip_stream_plus.Prelude.{
  ℕ, ◌≡◌, refl, ap, Bool, false, [], ◌∷◌, ◌++◌, length, take, none, some, arith,
}
use slip_stream_plus.Prelude.Int.{pos, ◌+ℤ◌, ◌≤ℤ◌}
use slip_stream_plus.Prelude.Maps.{lookup, string_key}
use slip_stream_plus.Tunnel.Protocol.{Bytes}
use slip_stream_plus.Users.{
  UserConfig, User, count, over_quota, expire, check_ip, check_connect, mark_connect,
}
use slip_stream_plus.Users.Race.{check_connect-race}
use slip_stream_plus.Users.Limits.{check_connect-within}
use slip_stream_plus.Users.Writer.{IsWriter, Wrote, limited_write, limited_write_lem}

abbrev config : UserConfig
config = record {
  username = "ann";
  password = "p";
  bandwidth_limit = pos 800;
  bandwidth_unit = "kbit";
  data_limit = pos 1;
  data_unit = "mb";
  ip_limit = pos 2;
}

abbrev user : User
user = record {
  config = config;
  limiter = some 65536;
  used_bytes = pos 10;
  data_limit = pos 1048576;
  active_ips = ("10.0.0.1", pos 1) ∷ [];
  cooldown_ips = ("10.0.0.9", 100) ∷ [];
  ip_limit = pos 2;
}

check_connect-within_example :
    pos (length (mark_connect "10.0.0.2" (record user { cooldown_ips = [] })).active_ips) ≤ℤ pos 2
check_connect-within_example =
    check_connect-within "10.0.0.2" 20000 user (record user { cooldown_ips = [] }) (omega arith)
      (omega arith) (unfold check_connect over_quota expire check_ip count lookup in refl)

-- A connection that takes everything.
abbrev write : Bytes → Bytes → Bytes × ℕ × Bool
write s p = (s ++ p, length p, false)

take_whole : (p : Bytes) → take (length p) p ≡ p
take_whole [] = refl
take_whole (b ∷ p) = ap (◌∷◌ b) (take_whole p)

write-IsWriter : IsWriter write (λ s. s)
write-IsWriter s p = (ap (λ q. s ++ q) (rw (take_whole p)), omega arith, λ e. refl)

limited_write_lem_example :
    (out : Bytes × User × ℕ × Bool) × (limited_write write 4 2 [] user 0 (1 ∷ 2 ∷ 3 ∷ [])
      ≡ some out)
    × Wrote write (λ s. s) [] 10 0 (1 ∷ 2 ∷ 3 ∷ []) out
limited_write_lem_example =
    limited_write_lem write (λ s. s) write-IsWriter 4 2 [] user 10 0 (1 ∷ 2 ∷ 3 ∷ []) (omega arith)
      refl (omega arith)

-- One address of two is taken.
abbrev calm : User
calm = record user { cooldown_ips = [] }

check_connect-race_example :
    let first = check_connect "10.0.0.2" 20000 calm in
    let second = check_connect "10.0.0.3" 20000 (first.1) in
    (first.0 ≡ none)
    × (second.0 ≡ none)
    × (pos (length (mark_connect "10.0.0.3" (mark_connect "10.0.0.2" (second.1))).active_ips)
        ≡ pos 2 +ℤ pos 1)
check_connect-race_example =
    check_connect-race "10.0.0.2" "10.0.0.3" 20000 calm (refl, refl, unfold over_quota in refl)
      (unfold lookup in refl) (unfold lookup in refl) refl
