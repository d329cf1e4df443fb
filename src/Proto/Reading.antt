-- ===== src/Proto/Reading.antt =====
-- What a read finds where a field stands.
use clicon.Base.{
  ℕ, zero, suc, ◌+◌, ◌^◌, ◌≤◌, ◌<◌, ◌≡◌, refl, ap, Bool, true, List, [], ◌∷◌, ◌++◌, append_assoc,
  arith, le→leb, length, drop, drop-drop, drop-append, length-append, take-append,
}
use clicon.Proto.Types.{Msg, CString, IsCString, strlen}
use clicon.Proto.Buffer.{Run, ok, ◌>>=◌, htonl, ntohl_at, c_string, chunk_sprintf, chunk_memcpy}

-- The bytes of `buf` from `p` on.
abbrev pub At : List ℕ → ℕ → List ℕ → Type 0
At buf p rest = drop p buf ≡ rest

pub ntohl-htonl :
    (buf : List ℕ) (p v : ℕ) (r : List ℕ)
    → At buf p (htonl v ++ r)
    → v < 2 ^ 32
    → ntohl_at buf p ≡ ok v
unfolding ntohl_at
ntohl-htonl buf p v r at h = rw at (ap ok (omega arith))

pub At-htonl : (buf : List ℕ) (p v : ℕ) (r : List ℕ) → At buf p (htonl v ++ r) → At buf (p + 4) r
At-htonl buf p v r at = drop-drop p 4 buf (htonl v) r at refl

c_string-append : (s : CString) (r : List ℕ) → IsCString s → c_string (s ++ 0 ∷ r) ≡ ok s
unfolding c_string
c_string-append [] r h = refl
c_string-append (zero ∷ s) r h = absurd (omega arith)
c_string-append (suc c ∷ s) r h = rw (c_string-append s r h.1)

pub At-str :
    (buf : List ℕ) (p : ℕ) (s : CString) (r : List ℕ)
    → At buf p ((s ++ 0 ∷ []) ++ r)
    → At buf (p + (strlen s + 1)) r
At-str buf p s r at =
    drop-drop p (strlen s + 1) buf (s ++ 0 ∷ []) r at (omega (arith, length-append s (0 ∷ [])))

pub At-str_first :
    (buf : List ℕ) (s : CString) (r : List ℕ)
    → At buf 0 ((s ++ 0 ∷ []) ++ r)
    → At buf (strlen s + 1) r
At-str_first buf s r at =
    rw at (drop-append (strlen s + 1) (s ++ 0 ∷ []) r (omega (arith, length-append s (0 ∷ []))))

-- Every request of 1 to `n` bytes is granted. (`chunk` returns NULL for a length of 0.)
abbrev pub Grants : (ℕ → Bool) → ℕ → Type 0
Grants granted n = (k : ℕ) → 0 < k → k ≤ n → granted k ≡ true

module _ (granted : ℕ → Bool) where
  pub chunk_sprintf-str :
      (buf : List ℕ) (p : ℕ) (s : CString) (r : List ℕ)
      → At buf p ((s ++ 0 ∷ []) ++ r)
      → IsCString s
      → granted (strlen s + 1) ≡ true
      → chunk_sprintf granted buf p ≡ ok s
  unfolding chunk_sprintf
  chunk_sprintf-str buf p s r at h g = rw (at, append_assoc, c_string-append s r h, g)

  pub chunk_memcpy-raw :
      (buf : List ℕ) (p : ℕ) (b r : List ℕ)
      → At buf p (b ++ r)
      → granted (length b) ≡ true
      → chunk_memcpy granted buf p (length b) ≡ ok b
  unfolding chunk_memcpy
  chunk_memcpy-raw buf p b r at g =
      let fits : length b ≤ length (b ++ r) = omega (arith, length-append b r) in
      rw (g, at, le→leb _ _ fits, take-append (length b) b r refl)

-- What the sender encoded is what the receiver decodes.
pub decode_sent {ℓ} :
    {A : Type ℓ} (encoded : Run Msg) (msg : Msg) (decode : Msg → Run A) (a : A)
    → encoded ≡ ok msg
    → (encoded >>= decode) ≡ ok a
    → decode msg ≡ ok a
decode_sent encoded msg decode a sent understood = cc
