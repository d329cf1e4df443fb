-- ===== src/Netconf/Input/Messages.antt =====
-- The messages that the NETCONF client finds in its input.
use clicon.Base.{
  ℕ, zero, suc, ◌<◌, ◌≡◌, refl, sym, ap, ◌∙◌, false, List, [], ◌∷◌, ◌++◌, ◌==◌, take, drop,
  append_assoc, append-nil, arith, All, map,
}
use mathlib.Core.Path.{subst}
use clicon.Proto.Types.{CString}
use clicon.Xml.Read.{char_at}
use clicon.Netconf.Input.{
  detect_endtag, end_of_message, Handled, after_packet, input_loop, Chunk, netconf_input_cb,
  input_calls,
}

-- A character that the client keeps, and that does not begin an end of message.
abbrev pub Plain : CString → Type 0
Plain [] = Unit
Plain (c ∷ s) = ((c == 0) ≡ false) × ((93 == c) ≡ false) × Plain s

-- Bytes that take the state from one to another without the end of a message.
abbrev Passing : CString → ℕ → ℕ → Type 0
Passing [] n m = n ≡ m
Passing (c ∷ s) n m =
    ((c == 0) ≡ false) × (k : ℕ) × (detect_endtag end_of_message c n ≡ (k, false)) × Passing s k m

Passing-Plain : (a : CString) → Plain a → Passing a 0 0
unfolding detect_endtag char_at
Passing-Plain [] h = refl
Passing-Plain (c ∷ a) (h0, h1, h) = (h0, 0, rw h1 refl, Passing-Plain a h)

Passing-append : (a b : CString) (n m k : ℕ) → Passing a n m → Passing b m k → Passing (a ++ b) n k
Passing-append [] b n m k h g = subst (λ t. Passing b t k) (sym h) g
Passing-append (c ∷ a) b n m k (h0, l, hd, h) g = (h0, l, hd, Passing-append a b l m k h g)

loop-step :
    (packet : CString → Handled) (c : ℕ) (buf xf : CString) (n m : ℕ)
    → (c == 0) ≡ false
    → detect_endtag end_of_message c n ≡ (m, false)
    → input_loop packet (c ∷ buf) xf n ≡ input_loop packet buf (xf ++ (c ∷ [])) m
unfolding input_loop
loop-step packet c buf xf n m h0 h =
    let found : (detect_endtag end_of_message c n).1 ≡ false = ap (λ p. p.1) h in
    rw (h0, found, input_loop) (ap (input_loop packet buf (xf ++ (c ∷ []))) (ap (λ p. p.0) h))

loop-Passing :
    (packet : CString → Handled) (s buf xf : CString) (n m : ℕ)
    → Passing s n m
    → input_loop packet (s ++ buf) xf n ≡ input_loop packet buf (xf ++ s) m
loop-Passing packet [] buf xf n m h =
    ap (input_loop packet buf xf) h ∙ ap (λ t. input_loop packet buf t m) (sym (append-nil xf))
loop-Passing packet (c ∷ s) buf xf n m (h0, k, hd, h) =
    loop-step packet c (s ++ buf) xf n k h0 hd
    ∙ loop-Passing packet s buf (xf ++ (c ∷ [])) k m h
    ∙ ap (λ t. input_loop packet buf t m) (append_assoc xf (c ∷ []) s)

-- The mark but for its last character.
abbrev almost : CString
almost = 93 ∷ 93 ∷ 62 ∷ 93 ∷ 93 ∷ []

almost-Passing : Passing almost 0 5
unfolding detect_endtag char_at
almost-Passing =
    (refl, 1, refl, (refl, 2, refl, (refl, 3, refl, (refl, 4, refl, (refl, 5, refl, refl)))))

loop-last :
    (packet : CString → Handled) (buf xf : CString)
    → packet (xf ++ (62 ∷ [])) ≡ Handled.going
    → input_loop packet (62 ∷ buf) xf 5
      ≡ after_packet (xf ++ (62 ∷ [])) (input_loop packet buf [] 0)
unfolding input_loop detect_endtag char_at
loop-last packet buf xf h = rw h refl

loop-message :
    (packet : CString → Handled) (a rest : CString)
    → Plain a
    → packet (a ++ end_of_message) ≡ Handled.going
    → input_loop packet (a ++ (end_of_message ++ rest)) [] 0
      ≡ after_packet (a ++ end_of_message) (input_loop packet rest [] 0)
loop-message packet a rest h g =
    let whole : (a ++ almost) ++ (62 ∷ []) ≡ a ++ end_of_message =
      append_assoc a almost (62 ∷ []) in
    ap (λ t. input_loop packet t [] 0) (sym (append_assoc a almost (62 ∷ rest)))
    ∙ loop-Passing packet (a ++ almost) (62 ∷ rest) [] 0 5
        (Passing-append a almost 0 0 5 (Passing-Plain a h) almost-Passing)
    ∙ loop-last packet rest (a ++ almost) (ap packet whole ∙ g)
    ∙ ap (λ t. after_packet t (input_loop packet rest [] 0)) whole

-- The bytes of messages, each with its mark.
abbrev pub stream : List CString → CString
stream [] = []
stream (a ∷ more) = a ++ (end_of_message ++ stream more)

-- When one read brings messages without NUL and `]`, each with its mark, and the session goes on, the
-- client handles each of them with its mark, in their order, and its buffer is empty after.
pub loop-stream :
    (packet : CString → Handled) (messages : List CString)
    → All Plain messages
    → ((s : CString) → packet s ≡ Handled.going)
    → input_loop packet (stream messages) [] 0
      ≡ record { xf = []; packets = map (λ a. a ++ end_of_message) messages; last = Handled.going }
unfolding input_loop
loop-stream packet [] h g = refl
loop-stream packet (a ∷ more) (ha, h) g =
    loop-message packet a (stream more) ha (g (a ++ end_of_message))
    ∙ ap (after_packet (a ++ end_of_message)) (loop-stream packet more h g)

-- Both parts of a mark that is cut pass as plain bytes, the second from the state 0 of a new call.
parts-Passing :
    (k : ℕ)
    → 0 < k
    → k < 6
    → ((n : ℕ) × Passing (take k end_of_message) 0 n)
      × ((m : ℕ) × Passing (drop k end_of_message) 0 m)
unfolding detect_endtag char_at
parts-Passing zero h0 h1 = absurd (omega arith)
parts-Passing (suc zero) h0 h1 = (
  (1, (refl, 1, refl, refl)),
  (3, (refl, 1, refl, (refl, 0, refl, (refl, 1, refl, (refl, 2, refl, (refl, 3, refl, refl)))))),
)
parts-Passing (suc (suc zero)) h0 h1 = (
  (2, (refl, 1, refl, (refl, 2, refl, refl))),
  (3, (refl, 0, refl, (refl, 1, refl, (refl, 2, refl, (refl, 3, refl, refl))))),
)
parts-Passing (suc (suc (suc zero))) h0 h1 = (
  (3, (refl, 1, refl, (refl, 2, refl, (refl, 3, refl, refl)))),
  (3, (refl, 1, refl, (refl, 2, refl, (refl, 3, refl, refl)))),
)
parts-Passing (suc (suc (suc (suc zero)))) h0 h1 = (
  (4, (refl, 1, refl, (refl, 2, refl, (refl, 3, refl, (refl, 4, refl, refl))))),
  (0, (refl, 1, refl, (refl, 0, refl, refl))),
)
parts-Passing (suc (suc (suc (suc (suc zero))))) h0 h1 = (
  (5, (refl, 1, refl, (refl, 2, refl, (refl, 3, refl, (refl, 4, refl, (refl, 5, refl, refl)))))),
  (0, (refl, 0, refl, refl)),
)
parts-Passing (suc (suc (suc (suc (suc (suc k)))))) h0 h1 = absurd (omega arith)

loop-end :
    (packet : CString → Handled) (s xf : CString) (n m : ℕ)
    → Passing s n m
    → input_loop packet s xf n ≡ record { xf = xf ++ s; packets = []; last = Handled.going }
unfolding input_loop
loop-end packet s xf n m h =
    ap (λ t. input_loop packet t xf n) (sym (append-nil s)) ∙ loop-Passing packet s [] xf n m h

-- A read that ends no message leaves its bytes to the next.
call-Passing :
    (packet : CString → Handled) (s xf : CString) (n : ℕ) (rs : List Chunk)
    → Passing s 0 n
    → input_calls packet (Chunk.bytes s ∷ rs) xf ≡ input_calls packet rs (xf ++ s)
unfolding input_calls netconf_input_cb input_loop
call-Passing packet s xf n rs h =
    let e = loop-end packet s xf 0 n h in
    let last : (input_loop packet s xf 0).last ≡ Handled.going = ap (λ p. p.last) e in
    let none : (input_loop packet s xf 0).packets ≡ [] = ap (λ p. p.packets) e in
    let buffer : (input_loop packet s xf 0).xf ≡ xf ++ s = ap (λ p. p.xf) e in
    rw (input_calls, netconf_input_cb, last, none, buffer) refl

calls-two :
    (packet : CString → Handled) (s t : CString) (n m : ℕ)
    → Passing s 0 n
    → Passing t 0 m
    → input_calls packet (Chunk.bytes s ∷ Chunk.bytes t ∷ []) [] ≡ ([], s ++ t)
unfolding input_calls
calls-two packet s t n m hs ht =
    call-Passing packet s [] n (Chunk.bytes t ∷ []) hs ∙ call-Passing packet t s m [] ht

take-drop : (k : ℕ) (s : CString) → take k s ++ drop k s ≡ s
take-drop zero s = refl
take-drop (suc k) [] = refl
take-drop (suc k) (c ∷ s) = ap (λ t. c ∷ t) (take-drop k s)

-- When a message without NUL and `]` comes with its mark cut anywhere between two reads, no packet is
-- handled: all of it, the mark too, stays in the buffer.
pub calls-cut :
    (packet : CString → Handled) (a : CString) (k : ℕ)
    → Plain a
    → 0 < k
    → k < 6
    → input_calls packet
        (Chunk.bytes (a ++ take k end_of_message) ∷ Chunk.bytes (drop k end_of_message) ∷ [])
        []
      ≡ ([], a ++ end_of_message)
calls-cut packet a k h h0 h1 =
    let ((n, hn), (m, hm)) = parts-Passing k h0 h1 in
    calls-two packet (a ++ take k end_of_message) (drop k end_of_message) n m
      (Passing-append a (take k end_of_message) 0 0 n (Passing-Plain a h) hn) hm
    ∙ ap (λ t. ([], t))
        (append_assoc a (take k end_of_message) (drop k end_of_message)
          ∙ ap (λ t. a ++ t) (take-drop k end_of_message))
