-- ===== src/Xml/Read.antt =====
-- Reading a document up to an end tag: lib/src/clicon_xml.c.
use clicon.Base.{
  ℕ, zero, suc, ◌+◌, ◌-◌, ◌*◌, ◌≤◌, ◌<◌, ◌≡◌, refl, sym, ap, ◌∙◌, Bool, true, false, List, [], ◌∷◌,
  ◌++◌, Option, none, some, leb, ltb, ◌==◌, if◌then◌else◌, length,
}
use clicon.Proto.Types.{CString, strlen}
use clicon.Strings.{until}
use clicon.Xml.Tree.{Cxobj, strdup, xml_new, ◌>>=◌}
pub mod Bounds
pub mod Endtag

-- The size of the buffer at first.
abbrev pub buflen : ℕ
buflen = 1024

-- The character at a place of a string, 0 at its end.
unfoldable pub char_at : CString → ℕ → ℕ
char_at [] i = 0
char_at (c ∷ s) zero = c
char_at (c ∷ s) (suc i) = char_at s i

unfoldable pub fsm : CString → ℕ → ℕ → ℕ
unfolding char_at
fsm tag ch state = if char_at tag state == ch then state + 1 else 0

-- What the calls of `read` give: characters, then the end of the file or an error.
pub data Bytes : Type 0 where
  eof failure : Bytes
  ch : ℕ → Bytes → Bytes

-- The locals of the loop: the buffer's characters, its size, and the state of the FSM.
pub record ReadState : Type 0 where
  pub xmlbuf : CString
  pub maxbuf : ℕ
  pub state : ℕ

-- `document` with the text that is parsed and the input behind it. An `overrun` is a write behind the buffer.
pub data ReadOutcome : Type 0 where
  document : CString → Bytes → ReadOutcome
  read_failed no_memory overrun : ReadOutcome

-- The buffer for the next character and a NUL: doubled when it is too small.
unfoldable pub grow : (ℕ → Bool) → ReadState → Option ReadState
grow granted s =
    if leb (s.maxbuf - 1) (length s.xmlbuf)
    then (if granted (s.maxbuf * 2) then some record s { maxbuf = s.maxbuf * 2 } else none)
    else some s

-- The character in the buffer.
abbrev pub store_char : CString → ℕ → ReadState → ReadState
unfolding fsm
store_char endtag c s = record s { xmlbuf = s.xmlbuf ++ (c ∷ []); state = fsm endtag c s.state }

unfoldable pub read_loop : (ℕ → Bool) → CString → Bytes → ReadState → ReadOutcome
unfolding store_char grow
read_loop granted endtag Bytes.failure s = ReadOutcome.read_failed
read_loop granted endtag Bytes.eof s = ReadOutcome.document s.xmlbuf Bytes.eof
read_loop granted endtag (Bytes.ch c input) s =
    if ltb (length s.xmlbuf) s.maxbuf
    then (let s' = store_char endtag c s in
        elim (s'.state == strlen endtag) [
          | true ↦ ReadOutcome.document s'.xmlbuf input
          | false ↦ elim (grow granted s') [
            | none ↦ ReadOutcome.no_memory
            | some s'' ↦ read_loop granted endtag input s''
          ]
        ])
    else ReadOutcome.overrun

-- What is parsed, of what file, and how the call fails before that.
unfoldable pub read_document : (ℕ → Bool) → CString → Bytes → ReadOutcome
unfolding read_loop
read_document granted endtag input =
    if granted buflen
    then read_loop granted endtag input (record { xmlbuf = []; maxbuf = buflen; state = 0 })
    else ReadOutcome.no_memory

-- The scanner and the parser, in files generated from clicon_xml_parse.l and clicon_xml_parse.y, are
-- the parameter `grammar`: the node with what was parsed under it, or an error.
unfoldable pub xml_parse :
    (ℕ → Bool) → (CString → Cxobj → Option Cxobj) → CString → Cxobj → Option Cxobj
xml_parse granted grammar str x_up = strdup granted str >>= λ s. grammar s x_up

-- The node "top".
abbrev top : CString
top = 116 ∷ 111 ∷ 112 ∷ []

-- The buffer is a C string, up to its first NUL.
unfoldable pub clicon_xml_parse_file :
    (ℕ → Bool) → (CString → Cxobj → Option Cxobj) → CString → Bytes → Option Cxobj
unfolding read_document xml_parse xml_new until
clicon_xml_parse_file granted grammar endtag input = elim (read_document granted endtag input) [
  | ReadOutcome.document text rest ↦ do
    cx ← xml_new granted top
    xml_parse granted grammar (until (λ c. c == 0) text).0 cx
  | _ ↦ none
]

unfoldable pub clicon_xml_parse_string :
    (ℕ → Bool) → (CString → Cxobj → Option Cxobj) → CString → Option Cxobj
unfolding xml_parse xml_new
clicon_xml_parse_string granted grammar str = do
  cxtop ← xml_new granted top
  xml_parse granted grammar str cxtop
