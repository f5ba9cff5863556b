-- ===== src/Net.antt =====
-- `std::net`: addresses, as the number of their bits.
use den_browser.Prelude.{ℕ, ◌≡◌, ◌↔◌, Bool, true, false, Eq, ◌==◌, nat_eq, eq_iff, arith}

pub data IpAddr : Type 0 where
  v4 v6 : ℕ → IpAddr

pub record SocketAddr : Type 0 where
  pub ip : IpAddr
  pub port : ℕ

unfoldable pub ip_beq : IpAddr → IpAddr → Bool
ip_beq (v4 a) (v4 b) = a == b
ip_beq (v6 a) (v6 b) = a == b
ip_beq _ _ = false

pub ip_beq_iff : (a b : IpAddr) → (ip_beq a b ≡ true) ↔ (a ≡ b)
unfolding ip_beq
ip_beq_iff (v4 a) (v4 b) = ground (arith, eq_iff a b)
ip_beq_iff (v6 a) (v6 b) = ground (arith, eq_iff a b)
ip_beq_iff (v4 a) (v6 b) = ground arith
ip_beq_iff (v6 a) (v4 b) = ground arith

instance abbrev pub ip_eq : Eq IpAddr
ip_eq = record { eq = ip_beq; eq_reflects = ip_beq_iff }
