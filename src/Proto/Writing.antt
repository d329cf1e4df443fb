-- ===== src/Proto/Writing.antt =====
-- What a write at the end of the written part does to a cleared buffer.
use clicon.Base.{
  Bool, true, ℕ, ◌+◌, ◌-◌, suc, ◌≤◌, ◌≡◌, ap, sym, ◌∙◌, List, [], ◌∷◌, ◌++◌, append_assoc,
  append-nil, arith, le→leb, length, take, drop, length-append, length-replicate, take-append,
  drop-append, replicate-split,
}
use clicon.Proto.Types.{CString, strlen, sizeof_msg}
use clicon.Proto.Wire.{Field, u32, str, raw, wire}
use clicon.Proto.Buffer.{chunk_body, htonl, ok, memcpy, strncpy, zeros}

length-zeros : (n : ℕ) → length (zeros n) ≡ n
length-zeros n = length-replicate n 0

pub memcpy_next :
    (w src : List ℕ) (p k k' : ℕ)
    → p ≡ length w
    → k ≡ length src + k'
    → memcpy (w ++ zeros k) p src ≡ ok ((w ++ src) ++ zeros k')
unfolding memcpy
memcpy_next w src p k k' hp hk =
    let fits : p + length src ≤ length (w ++ zeros k) =
      omega (arith, length-append w (zeros k), length-zeros k) in
    let cut : zeros k ≡ zeros (length src) ++ zeros k' =
      rw hk (replicate-split (length src) k' 0) in
    let behind : drop (p + length src) (w ++ zeros k) ≡ zeros k' =
      rw (cut, ← append_assoc)
        (drop-append (p + length src) (w ++ zeros (length src)) (zeros k')
          (omega (arith, length-append w (zeros (length src)), length-zeros (length src)))) in
    rw (le→leb _ _ fits, behind, take-append p w (zeros k) hp) (ap ok (sym (append_assoc w src _)))

padded :
    (s : CString) (n k : ℕ)
    → n ≡ length s + 1 + k
    → take n (s ++ zeros n) ≡ (s ++ 0 ∷ []) ++ zeros k
padded s n k h =
    let front = s ++ zeros (suc k) in
    let cut : zeros n ≡ zeros (suc k) ++ zeros (length s) =
      let e : n ≡ suc k + length s = omega arith in rw e (replicate-split (suc k) (length s) 0) in
    rw (cut, ← append_assoc)
      (take-append n front _ (omega (arith, length-append s (zeros (suc k)), length-zeros (suc k)))
        ∙ sym (append_assoc s (0 ∷ []) (zeros k)))

pub strncpy_next :
    (w : List ℕ) (s : CString) (p n k' : ℕ)
    → p ≡ length w
    → n ≡ length s + 1 + k'
    → strncpy (w ++ zeros n) p s n ≡ ok ((w ++ (s ++ 0 ∷ [])) ++ zeros k')
unfolding strncpy
strncpy_next w s p n k' hp hn =
    let text = s ++ 0 ∷ [] in
    let size : n ≡ length (text ++ zeros k') + 0 =
      omega (arith, length-append text (zeros k'), length-append s (0 ∷ []), length-zeros k') in
    rw (padded s n k' hn) (memcpy_next w (text ++ zeros k') p n 0 hp size)
    ∙ ap ok (append-nil _ ∙ sym (append_assoc w text _))

-- The same with what is left of the buffer measured by the fields still to come.
pub memcpy_u32 :
    (w : List ℕ) (v : ℕ) (fs : List Field) (p : ℕ)
    → p ≡ length w
    → memcpy (w ++ zeros (length (wire (u32 v ∷ fs)))) p (htonl v)
      ≡ ok ((w ++ htonl v) ++ zeros (length (wire fs)))
memcpy_u32 w v fs p h = memcpy_next w (htonl v) p _ _ h (length-append (htonl v) (wire fs))

pub memcpy_raw :
    (w b : List ℕ) (fs : List Field) (p : ℕ)
    → p ≡ length w
    → memcpy (w ++ zeros (length (wire (raw b ∷ fs)))) p b
      ≡ ok ((w ++ b) ++ zeros (length (wire fs)))
memcpy_raw w b fs p h = memcpy_next w b p _ _ h (length-append b (wire fs))

pub length-str :
    (s : CString) (fs : List Field) → length (wire (str s ∷ fs)) ≡ strlen s + 1 + length (wire fs)
length-str s fs = omega (arith, length-append (s ++ 0 ∷ []) (wire fs), length-append s (0 ∷ []))

pub length-raw :
    (b : List ℕ) (fs : List Field) → length (wire (raw b ∷ fs)) ≡ length b + length (wire fs)
length-raw b fs = length-append b (wire fs)

-- `n` is what the source passes, `len - p - hdrlen`.
pub strncpy_str :
    (w : List ℕ) (s : CString) (fs : List Field) (p len : ℕ)
    → p ≡ length w
    → len ≡ 4 + (p + length (wire (str s ∷ fs)))
    → strncpy (w ++ zeros (length (wire (str s ∷ fs)))) p s (len - p - sizeof_msg)
      ≡ ok ((w ++ (s ++ 0 ∷ [])) ++ zeros (length (wire fs)))
strncpy_str w s fs p len h e =
    let n : len - p - sizeof_msg ≡ length (wire (str s ∷ fs)) = omega arith in
    rw n (strncpy_next w s p _ _ h (length-str s fs))

pub chunk_body-granted :
    (granted : ℕ → Bool) (n : ℕ)
    → granted (4 + n) ≡ true
    → chunk_body granted (4 + n) ≡ ok (zeros n)
unfolding chunk_body
chunk_body-granted granted n g = let e : 4 + n - sizeof_msg ≡ n = omega arith in rw (g, e)
