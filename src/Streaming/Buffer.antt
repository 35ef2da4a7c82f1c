-- ===== src/Streaming/Buffer.antt =====
-- src/streaming.rs: the buffer of outgoing envelopes and the delays between connection attempts.
pub mod Laws
use construct_tui.Prelude.{ℕ, ◌^◌, min, List, [], ◌∷◌, ◌++◌, length, leb, if◌then◌else◌}

abbrev pub outgoing_buffer_cap : ℕ
outgoing_buffer_cap = 256

abbrev pub pop_front {ℓ} : {A : Type ℓ} → List A → List A
pop_front [] = []
pop_front (x ∷ xs) = xs

-- A full buffer drops its oldest envelope.
unfoldable pub push_pending : {E : Type 0} → List E → E → List E
push_pending pending envelope =
    (if leb outgoing_buffer_cap (length pending) then pop_front pending else pending)
    ++ (envelope ∷ [])

unfoldable pub backoff_base_secs : ℕ → ℕ
backoff_base_secs attempt = min (2 ^ (min attempt 6)) 60
