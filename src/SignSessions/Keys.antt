-- ===== src/SignSessions/Keys.antt =====
-- When the table of sign sessions is well formed: its keys, and the attempts on each session.
use kub.Base.{ℕ, Bool, true, all, leb, ◌≡◌, Ordered}
use kub.SignSessions.Table.{SignSession, SignStore, session_key}

abbrev pub tried_at_most : ℕ → SignSession → Bool
tried_at_most n r = leb r.attempts n

abbrev pub IsValid : SignStore → Type 0
IsValid s = Ordered session_key s.sessions s.next_id × (all (tried_at_most 5) s.sessions ≡ true)
