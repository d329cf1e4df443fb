-- ===== src/Proto/Tests.antt =====
-- Messages of concrete sessions.
use clicon.Base.{ℕ, ◌≤◌, Bool, [], ◌∷◌, leb, le→leb, arith}
use clicon.Proto.Types.{CString, IsCString}
use clicon.Proto.Reading.{Grants}

-- An allocator that has chunks of up to 64 KB.
abbrev granted : ℕ → Bool
granted n = leb n 65536

granted-Grants : (n : ℕ) → n ≤ 65536 → Grants granted n
granted-Grants n h m lower upper = le→leb m 65536 (omega arith)

abbrev candidate : CString
candidate = b'/' ∷ b'c' ∷ []

abbrev running : CString
running = b'/' ∷ b'r' ∷ []

candidate-IsCString : IsCString candidate
candidate-IsCString = (omega arith, (omega arith, tt))

running-IsCString : IsCString running
running-IsCString = (omega arith, (omega arith, tt))
