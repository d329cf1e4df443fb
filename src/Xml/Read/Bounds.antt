-- ===== src/Xml/Read/Bounds.antt =====
-- The buffer of the reader.
use clicon.Base.{
  ℕ, ◌+◌, ◌-◌, ◌*◌, ◌<◌, ◌≡◌, ◌≢◌, refl, sym, ◌∙◌, Bool, true, false, [], ◌∷◌, ◌++◌, Option, none,
  some, leb, ltb, ◌==◌, length, length-append, ◌⊎◌, Bool-cases, inl, inr, arith,
}
use mathlib.Core.Path.{subst}
use clicon.Proto.Types.{CString, strlen}
use clicon.Xml.Copy.{Refused}
use clicon.Xml.Read.{
  fsm, Bytes, ReadState, ReadOutcome, grow, store_char, read_loop, read_document, buflen,
}

-- Reading with no buffer to run over: the characters so far, and the state.
unfoldable pub scan : CString → Bytes → CString → ℕ → ReadOutcome
unfolding fsm
scan endtag Bytes.failure seen state = ReadOutcome.read_failed
scan endtag Bytes.eof seen state = ReadOutcome.document seen Bytes.eof
scan endtag (Bytes.ch c input) seen state = elim (fsm endtag c state == strlen endtag) [
  | true ↦ ReadOutcome.document (seen ++ (c ∷ [])) input
  | false ↦ scan endtag input (seen ++ (c ∷ [])) (fsm endtag c state)
]

-- The reader does as `scan`, or a request for memory is refused.
abbrev Follows : (ℕ → Bool) → ReadOutcome → ReadOutcome → Type 0
Follows granted o plain = (o ≡ plain) ⊎ ((o ≡ ReadOutcome.no_memory) × Refused granted)

-- There is room for a character and a NUL.
abbrev Roomy : ReadState → Type 0
Roomy s = length s.xmlbuf + 1 < s.maxbuf

ltb_room : (n m : ℕ) → n + 1 < m → ltb n m ≡ true
ltb_room n m h = ground arith

leb_room : (n m : ℕ) → leb (m - 1) n ≡ false → n + 1 < m
leb_room n m h = ground arith

-- Growing leaves room, and changes neither the characters nor the state.
abbrev Grown : (ℕ → Bool) → ReadState → Option ReadState → Type 0
Grown granted s none = Refused granted
Grown granted s (some s') = (s'.xmlbuf ≡ s.xmlbuf) × (s'.state ≡ s.state) × Roomy s'

grow-Grown :
    (granted : ℕ → Bool) (s : ReadState)
    → length s.xmlbuf < s.maxbuf
    → 1 < s.maxbuf
    → Grown granted s (grow granted s)
unfolding grow
grow-Grown granted s h one = elim (Bool-cases (leb (s.maxbuf - 1) (length s.xmlbuf))) [
  | inl e ↦ elim (Bool-cases (granted (s.maxbuf * 2))) [
    | inl g ↦ rw (e, g, grow) (refl, refl, omega arith)
    | inr g ↦ rw (e, g, grow) (s.maxbuf * 2, g)
  ]
  | inr e ↦ rw (e, grow) (refl, refl, leb_room (length s.xmlbuf) s.maxbuf e)
]

-- The loop goes on with what `grow` gives.
abbrev going_on : (ℕ → Bool) → CString → Bytes → Option ReadState → ReadOutcome
going_on granted endtag input none = ReadOutcome.no_memory
going_on granted endtag input (some s) = read_loop granted endtag input s

going_on-Follows :
    (granted : ℕ → Bool) (endtag : CString) (input : Bytes)
    → ((s : ReadState)
        → Roomy s
        → Follows granted (read_loop granted endtag input s) (scan endtag input s.xmlbuf s.state))
    → (s : ReadState) (o : Option ReadState) → Grown granted s o
    → Follows granted (going_on granted endtag input o) (scan endtag input s.xmlbuf s.state)
going_on-Follows granted endtag input ih s none refused = inr (refl, refused)
going_on-Follows granted endtag input ih s (some s') (buf, st, room) =
    rw (sym buf, sym st) (ih s' room)

read_loop-going_on :
    (granted : ℕ → Bool) (endtag : CString) (c : ℕ) (input : Bytes) (s : ReadState)
    → Roomy s
    → (fsm endtag c s.state == strlen endtag) ≡ false
    → read_loop granted endtag (Bytes.ch c input) s
      ≡ going_on granted endtag input (grow granted (store_char endtag c s))
unfolding read_loop store_char
read_loop-going_on granted endtag c input s h e =
    rw (ltb_room (length s.xmlbuf) s.maxbuf h, e, read_loop)
      (elim (grow granted (store_char endtag c s)) [ none ↦ refl | some s' ↦ refl ])

read_loop-stop :
    (granted : ℕ → Bool) (endtag : CString) (c : ℕ) (input : Bytes) (s : ReadState)
    → Roomy s
    → (fsm endtag c s.state == strlen endtag) ≡ true
    → read_loop granted endtag (Bytes.ch c input) s
      ≡ ReadOutcome.document (s.xmlbuf ++ (c ∷ [])) input
unfolding read_loop store_char
read_loop-stop granted endtag c input s h e =
    rw (ltb_room (length s.xmlbuf) s.maxbuf h, e, read_loop) refl

pub scan-stop :
    (endtag : CString) (c : ℕ) (input : Bytes) (seen : CString) (state : ℕ)
    → (fsm endtag c state == strlen endtag) ≡ true
    → scan endtag (Bytes.ch c input) seen state ≡ ReadOutcome.document (seen ++ (c ∷ [])) input
unfolding scan
scan-stop endtag c input seen state e = rw (e, scan) refl

pub scan-on :
    (endtag : CString) (c : ℕ) (input : Bytes) (seen : CString) (state : ℕ)
    → (fsm endtag c state == strlen endtag) ≡ false
    → scan endtag (Bytes.ch c input) seen state
      ≡ scan endtag input (seen ++ (c ∷ [])) (fsm endtag c state)
unfolding scan
scan-on endtag c input seen state e = rw (e, scan) refl

Follows-≡ :
    (granted : ℕ → Bool) (o o' plain plain' : ReadOutcome)
    → o ≡ o'
    → plain ≡ plain'
    → Follows granted o' plain'
    → Follows granted o plain
Follows-≡ granted o o' plain plain' e e' h =
    subst (λ t. Follows granted t plain) (sym e) (subst (Follows granted o') (sym e') h)

read_loop-Follows :
    (granted : ℕ → Bool) (endtag : CString) (input : Bytes) (s : ReadState)
    → Roomy s
    → Follows granted (read_loop granted endtag input s) (scan endtag input s.xmlbuf s.state)
unfolding read_loop scan store_char
read_loop-Follows granted endtag Bytes.failure s h = inl refl
read_loop-Follows granted endtag Bytes.eof s h = inl refl
read_loop-Follows granted endtag (Bytes.ch c input) s h =
    elim (Bool-cases (fsm endtag c s.state == strlen endtag)) [
      | inl e ↦ inl (
          read_loop-stop granted endtag c input s h e
          ∙ sym (scan-stop endtag c input s.xmlbuf s.state e))
      | inr e ↦
          let l = length-append s.xmlbuf (c ∷ []) in
          Follows-≡ granted _ _ _ _ (read_loop-going_on granted endtag c input s h e)
            (scan-on endtag c input s.xmlbuf s.state e)
            (going_on-Follows granted endtag input
              (λ s' h'. read_loop-Follows granted endtag input s' h') (store_char endtag c s)
              (grow granted (store_char endtag c s))
              (grow-Grown granted (store_char endtag c s) (omega arith) (omega arith)))
    ]

scan-no_overrun :
    (endtag : CString) (input : Bytes) (seen : CString) (state : ℕ)
    → scan endtag input seen state ≢ ReadOutcome.overrun
unfolding scan
scan-no_overrun endtag Bytes.failure seen state h = absurd cc
scan-no_overrun endtag Bytes.eof seen state h = absurd cc
scan-no_overrun endtag (Bytes.ch c input) seen state h =
    elim (Bool-cases (fsm endtag c state == strlen endtag)) [
      | inl e ↦ let bad = sym (scan-stop endtag c input seen state e) ∙ h in absurd cc
      | inr e ↦
          scan-no_overrun endtag input (seen ++ (c ∷ [])) (fsm endtag c state)
            (sym (scan-on endtag c input seen state e) ∙ h)
    ]

read-Follows :
    (granted : ℕ → Bool) (endtag : CString) (input : Bytes)
    → Follows granted (read_document granted endtag input) (scan endtag input [] 0)
unfolding read_document
read-Follows granted endtag input = elim (Bool-cases (granted buflen)) [
  | inl g ↦ Follows-≡ granted _ _ _ _ (rw g refl) refl (
      read_loop-Follows granted endtag input (record { xmlbuf = []; maxbuf = buflen; state = 0 })
        (omega arith))
  | inr g ↦ inr (rw g refl, (buflen, g))
]

-- Whatever the end tag, the input and the memory, the reader never writes behind its buffer: it gives what
-- reading without a buffer gives, or fails for want of memory that was refused.
pub read-in_bounds :
    (granted : ℕ → Bool) (endtag : CString) (input : Bytes)
    → (read_document granted endtag input ≢ ReadOutcome.overrun)
      × ((read_document granted endtag input ≡ scan endtag input [] 0)
          ⊎ ((read_document granted endtag input ≡ ReadOutcome.no_memory) × Refused granted))
read-in_bounds granted endtag input =
    let f = read-Follows granted endtag input in
    (
      λ h. elim f [
        | inl e ↦ scan-no_overrun endtag input [] 0 (sym e ∙ h)
        | inr (e, refused) ↦ let bad = sym e ∙ h in absurd cc
      ],
      f,
    )
