-- ===== src/Transport/Clamps.antt =====
-- The limits that a request runs under.
use cynative.Base.{ℕ, ◌≤◌, ◌≡◌, arith}
use cynative.Transport.Message.{ℤ, pos, negsuc}
use cynative.Transport.Request.{clamp_timeout, clamp_size, absolute_max_response_bytes}

-- The timeout is between 1 and 60 seconds and the size between 1 byte and 10 MiB, whatever the
-- model asks for; what it asks for within these bounds is what it gets.
pub clamps_bounded :
    (t s : ℤ)
    → ((1 ≤ clamp_timeout t) × (clamp_timeout t ≤ 60))
      × ((1 ≤ clamp_size s) × (clamp_size s ≤ absolute_max_response_bytes))
unfolding clamp_timeout clamp_size
clamps_bounded (pos t) (pos s) = ground arith
clamps_bounded (pos t) (negsuc s) = ground arith
clamps_bounded (negsuc t) (pos s) = ground arith
clamps_bounded (negsuc t) (negsuc s) = ground arith

pub clamps_keep :
    (t s : ℕ)
    → 1 ≤ t
    → t ≤ 60
    → 1 ≤ s
    → s ≤ absolute_max_response_bytes
    → (clamp_timeout (pos t) ≡ t) × (clamp_size (pos s) ≡ s)
unfolding clamp_timeout clamp_size
clamps_keep t s a b c d = ground arith
