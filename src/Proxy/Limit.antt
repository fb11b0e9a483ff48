-- ===== src/Proxy/Limit.antt =====
-- internal/proxy/socks5.go and ssh.go: `maxConnections`, over the accept loop and the ends of the handlers.
use slip_stream_plus.Prelude.{
  ℕ, ◌+◌, ◌^◌, ◌<◌, ◌≤◌, ◌≡◌, refl, Option, none, some, arith, if◌then◌else◌,
}
use slip_stream_plus.Prelude.Int.{ℤ, pos, negsuc, ◌+ℤ◌, wrap64, ltb_ℤ}

-- The guard of `ListenAndServe`: the count with the new connection, or the connection is closed.
unfoldable pub admit_conn : ℤ → ℤ → Option ℤ
admit_conn max_connections current =
    if ltb_ℤ current max_connections then some (wrap64 (current +ℤ pos 1)) else none

-- The handler's deferred end.
unfoldable pub end_conn : ℤ → ℤ
end_conn current = wrap64 (current +ℤ negsuc 0)

-- The server's count, and how many handlers run.
pub record Serving : Type 0 where
  pub active_conns : ℤ
  pub running : ℕ

pub data Step (max_connections : ℤ) (s : Serving) : Serving → Type 0 where
  admitted :
      (n : ℤ)
      → admit_conn max_connections s.active_conns ≡ some n
      → Step max_connections s (record { active_conns = n; running = s.running + 1 })
  turned_away : admit_conn max_connections s.active_conns ≡ none → Step max_connections s s
  ended :
      (k : ℕ)
      → s.running ≡ k + 1
      → Step max_connections s (record { active_conns = end_conn s.active_conns; running = k })

pub data Reach (max_connections : ℤ) : Serving → Type 0 where
  start : Reach max_connections (record { active_conns = pos 0; running = 0 })
  then_step :
      {s t : Serving} → Reach max_connections s → Step max_connections s t → Reach max_connections t

pub record Bounded (n : ℕ) (s : Serving) : Type 0 where
  pub exact : s.active_conns ≡ pos s.running
  pub at_most : s.running ≤ n

Step-Bounded : (n : ℕ) {s t : Serving} → n < 2 ^ 63 → Bounded n s → Step (pos n) s t → Bounded n t
unfolding admit_conn end_conn wrap64 ◌+ℤ◌
Step-Bounded n h b (admitted k e) = record {
  exact = ground (arith, e, b.exact, b.at_most);
  at_most = ground (arith, e, b.exact, b.at_most);
}
Step-Bounded n h b (turned_away e) = b
Step-Bounded n h b (ended k e) = record {
  exact = ground (arith, e, b.exact, b.at_most);
  at_most = omega (arith, e, b.at_most);
}

-- For a configured maximum below 2 ^ 63, the count is the number of handlers that run, and that is never more than
-- the maximum.
pub Reach-Bounded : (n : ℕ) {s : Serving} → n < 2 ^ 63 → Reach (pos n) s → Bounded n s
Reach-Bounded n h start = record { exact = refl; at_most = omega arith }
Reach-Bounded n h (then_step r s) = Step-Bounded n h (Reach-Bounded n h r) s
