-- ===== src/Client/Receive.antt =====
-- What is received of what was sent.
use clicon.Base.{
  ℕ, zero, suc, ◌+◌, ◌-◌, ◌<◌, ◌≤◌, ◌≡◌, refl, sym, ap, ◌∙◌, Bool, true, false, List, [], ◌∷◌, ◌++◌,
  arith, inl, inr, length, take, drop, leb, ◌==◌, if◌then◌else◌, append_assoc, append-nil,
  length-append, Bool-cases, ==_iff,
}
use mathlib.Core.Path.{subst}
use clicon.Proto.Types.{Msg, sizeof_msg, Sized}
use clicon.Client.Socket.{
  Arrival, bytes, again, broken, leftover, ReadResult, got, atomicio_from, atomicio, message_rcvd,
  rcv_failed, Host16, clicon_msg_rcv,
}

-- Text in pieces, with interruptions between them.
abbrev pub text_of : List Arrival → List ℕ
text_of [] = []
text_of (bytes b bs ∷ rest) = b ∷ (bs ++ text_of rest)
text_of (again ∷ rest) = text_of rest
text_of (broken ∷ rest) = text_of rest

abbrev pub Unbroken : List Arrival → Type 0
Unbroken [] = Unit
Unbroken (bytes b bs ∷ rest) = Unbroken rest
Unbroken (again ∷ rest) = Unbroken rest
Unbroken (broken ∷ rest) = ⊥

-- What `atomicio` gives where there is enough: the first n bytes, and all others are still to be read.
pub record Whole (n : ℕ) (before : List ℕ) (arrivals : List Arrival) (r : ReadResult) : Type 0 where
  pub read_bytes : List ℕ
  pub rest_of : List Arrival
  pub result : r ≡ got (before ++ read_bytes) rest_of
  pub count : length read_bytes ≡ n
  pub in_order : text_of arrivals ≡ read_bytes ++ text_of rest_of
  pub rest_unbroken : Unbroken rest_of

take-drop : (n : ℕ) (xs : List ℕ) → take n xs ++ drop n xs ≡ xs
take-drop zero xs = refl
take-drop (suc n) [] = refl
take-drop (suc n) (x ∷ xs) = ap (λ t. x ∷ t) (take-drop n xs)

length-take : (n : ℕ) (xs : List ℕ) → n ≤ length xs → length (take n xs) ≡ n
length-take zero xs h = refl
length-take (suc n) [] h = absurd (omega arith)
length-take (suc n) (x ∷ xs) h = ap suc (length-take n xs (omega arith))

leftover-text :
    (xs : List ℕ) (rest : List Arrival) → text_of (leftover xs rest) ≡ xs ++ text_of rest
leftover-text [] rest = refl
leftover-text (x ∷ xs) rest = refl

leftover-Unbroken :
    (xs : List ℕ) (rest : List Arrival) → Unbroken rest → Unbroken (leftover xs rest)
leftover-Unbroken [] rest h = h
leftover-Unbroken (x ∷ xs) rest h = h

leb-true : (a b : ℕ) → leb a b ≡ true → a ≤ b
leb-true a b h = ground arith

leb-false : (a b : ℕ) → leb a b ≡ false → b < a
leb-false a b h = ground arith

atomicio_from-Whole :
    (n : ℕ) (before : List ℕ) (arrivals : List Arrival)
    → Unbroken arrivals
    → n ≤ length (text_of arrivals)
    → Whole n before arrivals (atomicio_from n before arrivals)
unfolding atomicio_from
atomicio_from-Whole zero before arrivals whole h = record {
  read_bytes = [];
  rest_of = arrivals;
  result = ap (λ t. got t arrivals) (sym (append-nil before));
  count = refl;
  in_order = refl;
  rest_unbroken = whole;
}
atomicio_from-Whole (suc n) before [] whole h = absurd (omega arith)
atomicio_from-Whole (suc n) before (again ∷ rest) whole h =
    let ih = atomicio_from-Whole (suc n) before rest whole h in
    record {
      read_bytes = ih.read_bytes;
      rest_of = ih.rest_of;
      result = ih.result;
      count = ih.count;
      in_order = ih.in_order;
      rest_unbroken = ih.rest_unbroken;
    }
atomicio_from-Whole (suc n) before (broken ∷ rest) whole h = elim whole [ ]
atomicio_from-Whole (suc n) before (bytes b bs ∷ rest) whole h =
    elim (Bool-cases (leb (length bs) n)) [
      | inl fits ↦
          let fit = leb-true (length bs) n fits in
          let enough : n - length bs ≤ length (text_of rest) =
            omega (arith, length-append bs (text_of rest)) in
          let ih = atomicio_from-Whole (n - length bs) (before ++ b ∷ bs) rest whole enough in
          rw (fits, atomicio_from)
            (record {
              read_bytes = b ∷ (bs ++ ih.read_bytes);
              rest_of = ih.rest_of;
              result =
                  ih.result
                  ∙ ap (λ t. got t ih.rest_of) (append_assoc before (b ∷ bs) ih.read_bytes);
              count = ap suc (
                  length-append bs ih.read_bytes
                  ∙ ap (λ k. length bs + k) ih.count
                  ∙ omega (arith, fit));
              in_order =
                  ap (λ t. b ∷ t)
                    (ap (λ t. bs ++ t) ih.in_order
                      ∙ sym (append_assoc bs ih.read_bytes (text_of ih.rest_of)));
              rest_unbroken = ih.rest_unbroken;
            })
      | inr more ↦
          let over = leb-false (length bs) n more in
          rw (more, atomicio_from)
            (record {
              read_bytes = b ∷ take n bs;
              rest_of = leftover (drop n bs) rest;
              result = refl;
              count = ap suc (length-take n bs (omega arith));
              in_order =
                  ap (λ t. b ∷ t)
                    (ap (λ t. t ++ text_of rest) (sym (take-drop n bs))
                      ∙ append_assoc (take n bs) (drop n bs) (text_of rest)
                      ∙ ap (λ t. take n bs ++ t) (sym (leftover-text (drop n bs) rest)));
              rest_unbroken = leftover-Unbroken (drop n bs) rest whole;
            })
    ]

-- Where no error comes and enough bytes do, `atomicio` gives the first n bytes, whatever the pieces are
-- in which they come and however often it is interrupted, and leaves the others in their order.
pub atomicio-Whole :
    (n : ℕ) (arrivals : List Arrival)
    → Unbroken arrivals
    → n ≤ length (text_of arrivals)
    → Whole n [] arrivals (atomicio n arrivals)
unfolding atomicio
atomicio-Whole n arrivals whole h = atomicio_from-Whole n [] arrivals whole h

atomicio_from-more :
    (n : ℕ) (before : List ℕ) (b : ℕ) (bs : List ℕ) (rest : List Arrival)
    → leb (length bs) n ≡ false
    → atomicio_from (suc n) before (bytes b bs ∷ rest)
      ≡ got (before ++ b ∷ take n bs) (leftover (drop n bs) rest)
unfolding atomicio_from
atomicio_from-more n before b bs rest more = rw (more, atomicio_from) refl

header-read :
    (l0 l1 t0 t1 p : ℕ) (part : List ℕ) (rest : List Arrival)
    → atomicio sizeof_msg (bytes l0 (l1 ∷ t0 ∷ t1 ∷ p ∷ part) ∷ rest)
      ≡ got (l0 ∷ l1 ∷ t0 ∷ t1 ∷ []) (bytes p part ∷ rest)
unfolding atomicio
header-read l0 l1 t0 t1 p part rest =
    let more : leb (length (l1 ∷ t0 ∷ t1 ∷ p ∷ part)) 3 ≡ false = ground arith in
    atomicio_from-more 3 [] l0 (l1 ∷ t0 ∷ t1 ∷ p ∷ part) rest more

length-take-less : (n : ℕ) (xs : List ℕ) → length (take n xs) ≤ length xs
length-take-less zero xs = omega arith
length-take-less (suc n) [] = omega arith
length-take-less (suc n) (x ∷ xs) = omega (arith, length-take-less n xs)

take-short : (n : ℕ) (xs : List ℕ) → length xs < n → (length (take n xs) == n) ≡ false
take-short n xs h = let most = length-take-less n xs in ground arith

take-equal : (n : ℕ) (xs : List ℕ) → (length (take n xs) == n) ≡ leb n (length xs)
take-equal n xs = elim (Bool-cases (leb n (length xs))) [
  | inl e ↦
      let same = length-take n xs (leb-true n (length xs) e) in
      (==_iff (length (take n xs)) n).1 same ∙ sym e
  | inr e ↦ take-short n xs (leb-false n (length xs) e) ∙ sym e
]

-- Where the first piece of a message holds its header and a byte of its body at least, the length in
-- the header is that of a message with a body, and there is memory for it, the message is received if
-- its whole body is in that piece, and refused otherwise, whatever comes after it: the body is read
-- once.
pub clicon_msg_rcv-one_read :
    (granted : ℕ → Bool) (host : Host16) (l0 l1 t0 t1 p : ℕ) (part : List ℕ) (rest : List Arrival)
    → sizeof_msg < host.unpack (l0, l1)
    → granted (host.unpack (l0, l1)) ≡ true
    → clicon_msg_rcv granted host (bytes l0 (l1 ∷ t0 ∷ t1 ∷ p ∷ part) ∷ rest) ≡ (
        if leb (host.unpack (l0, l1) - sizeof_msg) (length (p ∷ part))
        then message_rcvd (record {
          op_len = host.unpack (l0, l1);
          op_type = host.unpack (t0, t1);
          op_body = take (host.unpack (l0, l1) - sizeof_msg) (p ∷ part);
        })
        else rcv_failed)
unfolding clicon_msg_rcv
clicon_msg_rcv-one_read granted host l0 l1 t0 t1 p part rest long memory =
    let header = header-read l0 l1 t0 t1 p part rest in
    let len = host.unpack (l0, l1) in
    let room : leb sizeof_msg len ≡ true = ground arith in
    let body : (len == sizeof_msg) ≡ false = ground arith in
    rw (header, memory, room, body, take-equal (len - sizeof_msg) (p ∷ part), clicon_msg_rcv) refl

-- A message with a body, as it is written to a socket, in one piece.
abbrev pub packed : Host16 → Msg → Arrival
packed host msg =
    let (t0, t1) = host.pack msg.op_type in
    let (l0, l1) = host.pack msg.op_len in bytes l0 (l1 ∷ t0 ∷ t1 ∷ msg.op_body)

take-all : (xs : List ℕ) → take (length xs) xs ≡ xs
take-all [] = refl
take-all (x ∷ xs) = ap (λ t. x ∷ t) (take-all xs)

-- A message that comes in one piece is received as it is, where its length is the one in its header,
-- there is memory, and the host unpacks the two fields as it packed them.
pub clicon_msg_rcv-packed :
    (granted : ℕ → Bool) (host : Host16) (type len p : ℕ) (part : List ℕ) (rest : List Arrival)
    → len ≡ sizeof_msg + length (p ∷ part)
    → granted len ≡ true
    → host.unpack (host.pack len) ≡ len
    → host.unpack (host.pack type) ≡ type
    → clicon_msg_rcv granted host
        (packed host (record { op_len = len; op_type = type; op_body = p ∷ part }) ∷ rest)
      ≡ message_rcvd (record { op_len = len; op_type = type; op_body = p ∷ part })
clicon_msg_rcv-packed granted host type len p part rest size memory len_back type_back =
    let (t0, t1) = host.pack type in
    let (l0, l1) = host.pack len in
    let long : sizeof_msg < host.unpack (l0, l1) =
      subst (λ n. sizeof_msg < n) (sym len_back) (omega arith) in
    let body : len - sizeof_msg ≡ length (p ∷ part) = omega arith in
    let all : leb (length (p ∷ part)) (length (p ∷ part)) ≡ true = ground arith in
    clicon_msg_rcv-one_read granted host l0 l1 t0 t1 p part rest long (ap granted len_back ∙ memory)
    ∙ rw (len_back, type_back, body, all, take-all (p ∷ part)) refl

-- The same of any body that is not empty.
pub clicon_msg_rcv-body :
    (granted : ℕ → Bool) (host : Host16) (type len : ℕ) (body : List ℕ) (rest : List Arrival)
    → Sized (record { op_len = len; op_type = type; op_body = body })
    → 0 < length body
    → granted len ≡ true
    → host.unpack (host.pack len) ≡ len
    → host.unpack (host.pack type) ≡ type
    → clicon_msg_rcv granted host
        (packed host (record { op_len = len; op_type = type; op_body = body }) ∷ rest)
      ≡ message_rcvd (record { op_len = len; op_type = type; op_body = body })
clicon_msg_rcv-body granted host type len [] rest size body = absurd (omega (arith, body))
clicon_msg_rcv-body granted host type len (p ∷ part) rest size body =
    clicon_msg_rcv-packed granted host type len p part rest size
