-- ===== src/Netconf/Input.antt =====
-- The messages of the NETCONF client's input: apps/netconf/netconf_lib.c and netconf_main.c.
use clicon.Base.{
  ℕ, zero, suc, ◌+◌, ◌-◌, ◌≤◌, ◌<◌, ◌≡◌, refl, sym, ap, ◌∙◌, Bool, true, false, ◌&&◌, List, [], ◌∷◌,
  ◌++◌, ◌==◌, if◌then◌else◌, length, take, drop, append_assoc, append-nil, ◌⊎◌, Bool-cases, inl,
  inr, arith,
}
use mathlib.Core.Path.{subst}
use clicon.Proto.Types.{CString, strlen}
use clicon.Xml.Read.{char_at}
pub mod Messages

-- The new state, and whether the tag is complete.
unfoldable pub detect_endtag : CString → ℕ → ℕ → ℕ × Bool
unfolding char_at
detect_endtag tag ch state =
    if char_at tag state == ch
    then (if state + 1 == strlen tag then (0, true) else (state + 1, false))
    else (0, false)

-- "]]>]]>".
abbrev pub end_of_message : CString
end_of_message = 93 ∷ 93 ∷ 62 ∷ 93 ∷ 93 ∷ 62 ∷ []

-- How `packet(h, xf)` comes back: with an error, with the session closed, or with the session open.
pub data Handled : Type 0 where
  failed closed going : Handled

-- The static buffer after a read, the packets that were handled, and the last outcome.
pub record Progress : Type 0 where
  pub xf : CString
  pub packets : List CString
  pub last : Handled

abbrev pub after_packet : CString → Progress → Progress
after_packet p q = record q { packets = p ∷ q.packets }

-- The loop over the characters that were read, NULs skipped. The buffer is reset only when the session
-- goes on.
unfoldable pub input_loop : (CString → Handled) → CString → CString → ℕ → Progress
unfolding detect_endtag
input_loop packet [] xf xml_state = record { xf = xf; packets = []; last = Handled.going }
input_loop packet (c ∷ buf) xf xml_state = elim (c == 0) [
  | true ↦ input_loop packet buf xf xml_state
  | false ↦
      let xf' = xf ++ (c ∷ []) in
      let (state', found) = detect_endtag end_of_message c xml_state in
      elim found [
        | false ↦ input_loop packet buf xf' state'
        | true ↦ elim (packet xf') [
          | Handled.going ↦ after_packet xf' (input_loop packet buf [] state')
          | other ↦ record { xf = xf'; packets = xf' ∷ []; last = other }
        ]
      ]
]

-- What `read` gives: at least one character, the end of the file or a reset connection, or an error.
pub data Chunk : Type 0 where
  bytes : CString → Chunk
  eof error : Chunk

-- A call of `netconf_input_cb` in an open session: the progress, and whether it returns 0.
unfoldable pub netconf_input_cb : (CString → Handled) → Chunk → CString → Progress × Bool
unfolding input_loop
netconf_input_cb packet Chunk.error xf =
    (record { xf = xf; packets = []; last = Handled.going }, false)
netconf_input_cb packet Chunk.eof xf =
    (record { xf = xf; packets = []; last = Handled.closed }, false)
netconf_input_cb packet (Chunk.bytes buf) xf =
    let p = input_loop packet buf xf 0 in (p, elim p.last [ Handled.going ↦ true | _ ↦ false ])

-- The calls for a sequence of reads, until one does not return 0: the packets, and the buffer.
unfoldable pub input_calls : (CString → Handled) → List Chunk → CString → List CString × CString
unfolding netconf_input_cb
input_calls packet [] xf = ([], xf)
input_calls packet (r ∷ rs) xf =
    let (p, ok) = netconf_input_cb packet r xf in
    elim ok [
      | false ↦ (p.packets, p.xf)
      | true ↦ let (more, xf') = input_calls packet rs p.xf in (p.packets ++ more, xf')
    ]
