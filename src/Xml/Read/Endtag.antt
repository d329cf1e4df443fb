-- ===== src/Xml/Read/Endtag.antt =====
-- Where the reader stops.
use clicon.Base.{
  ℕ, suc, ◌+◌, ◌≡◌, refl, sym, ap, ◌∙◌, Bool, true, false, [], ◌∷◌, ◌++◌, ◌==◌, ==_refl, ==_iff,
  length-append, append_assoc, append-nil, ◌⊎◌, Bool-cases, inl, inr, arith,
}
use mathlib.Core.Path.{subst}
use clicon.Proto.Types.{CString, strlen}
use clicon.Strings.Split.{Without}
use clicon.Xml.Copy.{Grants}
use clicon.Xml.Read.{char_at, fsm, Bytes, ReadOutcome, read_document}
use clicon.Xml.Read.Bounds.{scan, scan-stop, scan-on, read-in_bounds}

-- The input that begins with the characters.
abbrev pub feed : CString → Bytes → Bytes
feed [] rest = rest
feed (c ∷ s) rest = Bytes.ch c (feed s rest)

zero_below : (n : ℕ) → (0 == suc n) ≡ false
zero_below n = ground arith

more : (n m k : ℕ) → m ≡ n + suc (suc k) → (n + 1 == m) ≡ false
more n m k h = ground arith

enough : (n m : ℕ) → m ≡ n + 1 → (n + 1 == m) ≡ true
enough n m h = ground arith

differ : (d e : ℕ) → (d == e) ≡ false → (e == d) ≡ false
differ d e h = ground arith

fsm-second : (d e : ℕ) (tag : CString) → (d == e) ≡ false → fsm (d ∷ e ∷ tag) d 1 ≡ 0
unfolding fsm char_at
fsm-second d e tag h = rw (differ d e h) refl

fsm-miss : (d : ℕ) (tag : CString) (c : ℕ) → (d == c) ≡ false → fsm (d ∷ tag) c 0 ≡ 0
unfolding fsm char_at
fsm-miss d tag c h = rw h refl

-- Characters that the tag does not begin with leave the state at 0.
scan-Without :
    (d : ℕ) (tag a : CString) (rest : Bytes) (seen : CString)
    → Without d a
    → scan (d ∷ tag) (feed a rest) seen 0 ≡ scan (d ∷ tag) rest (seen ++ a) 0
scan-Without d tag [] rest seen h = ap (λ t. scan (d ∷ tag) rest t 0) (sym (append-nil seen))
scan-Without d tag (c ∷ a) rest seen (hc, h) =
    let st = fsm-miss d tag c hc in
    scan-on (d ∷ tag) c (feed a rest) seen 0 (rw st (zero_below (strlen tag)))
    ∙ ap (scan (d ∷ tag) (feed a rest) (seen ++ (c ∷ []))) st
    ∙ scan-Without d tag a rest (seen ++ (c ∷ [])) h
    ∙ ap (λ t. scan (d ∷ tag) rest t 0) (append_assoc seen (c ∷ []) a)

char_at-append : (s t : CString) (c : ℕ) → char_at (s ++ (c ∷ t)) (strlen s) ≡ c
unfolding char_at
char_at-append [] t c = refl
char_at-append (x ∷ s) t c = char_at-append s t c

fsm-hit : (s t : CString) (c : ℕ) → fsm (s ++ (c ∷ t)) c (strlen s) ≡ strlen s + 1
unfolding fsm
fsm-hit s t c = rw (char_at-append s t c, ==_refl c) refl

-- The rest of the tag, when what stands before it has been found.
scan-tail :
    (tag s : CString) (c : ℕ) (t : CString) (rest : Bytes) (seen : CString)
    → tag ≡ s ++ (c ∷ t)
    → scan tag (feed (c ∷ t) rest) seen (strlen s) ≡ ReadOutcome.document (seen ++ (c ∷ t)) rest
scan-tail tag s c [] rest seen h =
    let hit : fsm tag c (strlen s) ≡ strlen s + 1 = rw h (fsm-hit s [] c) in
    let l : strlen tag ≡ strlen s + 1 = ap strlen h ∙ length-append s (c ∷ []) in
    scan-stop tag c rest seen (strlen s) (rw hit (enough (strlen s) (strlen tag) l))
scan-tail tag s c (e ∷ t) rest seen h =
    let hit : fsm tag c (strlen s) ≡ strlen s + 1 = rw h (fsm-hit s (e ∷ t) c) in
    let l : strlen tag ≡ strlen s + suc (suc (strlen t)) =
      ap strlen h ∙ length-append s (c ∷ e ∷ t) in
    let next : strlen s + 1 ≡ strlen (s ++ (c ∷ [])) = sym (length-append s (c ∷ [])) in
    scan-on tag c (feed (e ∷ t) rest) seen (strlen s)
      (rw hit (more (strlen s) (strlen tag) (strlen t) l))
    ∙ ap (scan tag (feed (e ∷ t) rest) (seen ++ (c ∷ []))) (hit ∙ next)
    ∙ scan-tail tag (s ++ (c ∷ [])) e t rest (seen ++ (c ∷ []))
        (h ∙ sym (append_assoc s (c ∷ []) (e ∷ t)))
    ∙ ap (λ u. ReadOutcome.document u rest) (append_assoc seen (c ∷ []) (e ∷ t))

read-scan :
    (granted : ℕ → Bool) (endtag : CString) (input : Bytes)
    → Grants granted
    → read_document granted endtag input ≡ scan endtag input [] 0
read-scan granted endtag input all = elim ((read-in_bounds granted endtag input).1) [
  | inl e ↦ e
  | inr (e, (n, refused)) ↦ let granted_n = all n in absurd cc
]

-- When all memory is granted and the first character of the end tag is not in the text before it, the
-- reader takes exactly that text and the tag, and leaves the input behind it.
pub read-tag :
    (granted : ℕ → Bool) (d : ℕ) (tag a : CString) (rest : Bytes)
    → Grants granted
    → Without d a
    → read_document granted (d ∷ tag) (feed a (feed (d ∷ tag) rest))
      ≡ ReadOutcome.document (a ++ (d ∷ tag)) rest
read-tag granted d tag a rest all w =
    read-scan granted (d ∷ tag) _ all
    ∙ scan-Without d tag a (feed (d ∷ tag) rest) [] w
    ∙ scan-tail (d ∷ tag) [] d tag rest a refl

-- When the end tag follows on another of its first character, which is nowhere else in the tag, the
-- reader passes the tag by: with all memory granted it reads on as if the tag had not been there.
pub read-missed :
    (granted : ℕ → Bool) (d e : ℕ) (tag : CString) (rest : Bytes)
    → Grants granted
    → Without d (e ∷ tag)
    → read_document granted (d ∷ e ∷ tag) (feed (d ∷ d ∷ e ∷ tag) rest)
      ≡ scan (d ∷ e ∷ tag) rest (d ∷ d ∷ e ∷ tag) 0
read-missed granted d e tag rest all (h, w) =
    let hit : fsm (d ∷ e ∷ tag) d 0 ≡ 1 = fsm-hit [] (e ∷ tag) d in
    let off : fsm (d ∷ e ∷ tag) d 1 ≡ 0 = fsm-second d e tag h in
    read-scan granted (d ∷ e ∷ tag) _ all
    ∙ scan-on (d ∷ e ∷ tag) d _ [] 0
        (rw hit (more 0 (strlen (d ∷ e ∷ tag)) (strlen tag) (omega arith)))
    ∙ ap (scan (d ∷ e ∷ tag) (feed (d ∷ e ∷ tag) rest) (d ∷ [])) hit
    ∙ scan-on (d ∷ e ∷ tag) d _ (d ∷ []) 1 (rw off (zero_below (suc (strlen tag))))
    ∙ ap (scan (d ∷ e ∷ tag) (feed (e ∷ tag) rest) (d ∷ d ∷ [])) off
    ∙ scan-Without d (e ∷ tag) (e ∷ tag) rest (d ∷ d ∷ []) (h, w)

-- A document is what was read, in front of what is left, and ends with the tag or the file.
abbrev pub Taken : CString → Bytes → CString → Bytes → Type 0
Taken endtag input text rest =
    (input ≡ feed text rest) × ((rest ≡ Bytes.eof) ⊎ ((pre : CString) × (text ≡ pre ++ endtag)))

-- `p` of the tag has been found, and `c` and `q` are to come.
abbrev Matched : CString → CString → ℕ → Type 0
Matched endtag seen state =
    (pre : CString) × (p : CString) × (c : ℕ) × (q : CString) × (seen ≡ pre ++ p)
    × (endtag ≡ p ++ (c ∷ q))
    × (state ≡ strlen p)

-- The characters that are still to be read of a document.
abbrev Rest : CString → Bytes → CString → CString → Bytes → Type 0
Rest endtag input seen text rest =
    (new : CString) × (text ≡ seen ++ new)
    × (input ≡ feed new rest)
    × ((rest ≡ Bytes.eof) ⊎ ((pre : CString) × (text ≡ pre ++ endtag)))

Rest-ch :
    (endtag : CString) (c : ℕ) (input : Bytes) (seen text : CString) (rest : Bytes)
    → Rest endtag input (seen ++ (c ∷ [])) text rest
    → Rest endtag (Bytes.ch c input) seen text rest
Rest-ch endtag c input seen text rest (new, et, ei, last) =
    (c ∷ new, et ∙ append_assoc seen (c ∷ []) new, ap (Bytes.ch c) ei, last)

-- A character that is not the next of the tag.
fsm-other : (p q : CString) (c x : ℕ) → (c == x) ≡ false → fsm (p ++ (c ∷ q)) x (strlen p) ≡ 0
unfolding fsm
fsm-other p q c x h = rw (char_at-append p q c, h) refl

Matched-none : (d : ℕ) (tag seen : CString) → Matched (d ∷ tag) seen 0
Matched-none d tag seen = (seen, [], d, tag, sym (append-nil seen), refl, refl)

-- After the next character the tag is complete, or the reader goes on.
abbrev After : CString → CString → ℕ → ℕ → Type 0
After endtag seen x state =
    (((fsm endtag x state == strlen endtag) ≡ true)
      × (pre : CString) × (seen ++ (x ∷ []) ≡ pre ++ endtag))
    ⊎ (((fsm endtag x state == strlen endtag) ≡ false)
        × Matched endtag (seen ++ (x ∷ [])) (fsm endtag x state))

After-miss :
    (d : ℕ) (tag seen : CString) (x state : ℕ)
    → fsm (d ∷ tag) x state ≡ 0
    → After (d ∷ tag) seen x state
After-miss d tag seen x state h =
    inr (rw h (zero_below (strlen tag)), rw h (Matched-none d tag (seen ++ (x ∷ []))))

After-hit :
    (endtag pre p q seen : CString) (x : ℕ)
    → seen ≡ pre ++ p
    → endtag ≡ p ++ (x ∷ q)
    → After endtag seen x (strlen p)
After-hit endtag pre p [] seen x es et =
    let hit : fsm endtag x (strlen p) ≡ strlen p + 1 = rw et (fsm-hit p [] x) in
    let l : strlen endtag ≡ strlen p + 1 = ap strlen et ∙ length-append p (x ∷ []) in
    inl (
      rw hit (enough (strlen p) (strlen endtag) l),
      pre,
      ap (λ t. t ++ (x ∷ [])) es ∙ append_assoc pre p (x ∷ []) ∙ ap (λ t. pre ++ t) (sym et),
    )
After-hit endtag pre p (e ∷ q) seen x es et =
    let hit : fsm endtag x (strlen p) ≡ strlen p + 1 = rw et (fsm-hit p (e ∷ q) x) in
    let l : strlen endtag ≡ strlen p + suc (suc (strlen q)) =
      ap strlen et ∙ length-append p (x ∷ e ∷ q) in
    inr (
      rw hit (more (strlen p) (strlen endtag) (strlen q) l),
      (
        pre,
        p ++ (x ∷ []),
        e,
        q,
        ap (λ t. t ++ (x ∷ [])) es ∙ append_assoc pre p (x ∷ []),
        et ∙ sym (append_assoc p (x ∷ []) (e ∷ q)),
        hit ∙ sym (length-append p (x ∷ [])),
      ),
    )

Matched-After :
    (d : ℕ) (tag seen : CString) (x state : ℕ)
    → Matched (d ∷ tag) seen state
    → After (d ∷ tag) seen x state
Matched-After d tag seen x state (pre, p, c, q, es, et, en) = elim (Bool-cases (c == x)) [
  | inl e ↦
      let same : c ≡ x = (==_iff c x).0 e in
      let et' : d ∷ tag ≡ p ++ (x ∷ q) = et ∙ ap (λ t. p ++ (t ∷ q)) same in
      subst (After (d ∷ tag) seen x) (sym en) (After-hit (d ∷ tag) pre p q seen x es et')
  | inr e ↦ After-miss d tag seen x state (rw (en, et) (fsm-other p q c x e))
]

scan-Rest :
    (d : ℕ) (tag : CString) (input : Bytes) (seen : CString) (state : ℕ) (text : CString)
    (rest : Bytes)
    → Matched (d ∷ tag) seen state
    → scan (d ∷ tag) input seen state ≡ ReadOutcome.document text rest
    → Rest (d ∷ tag) input seen text rest
unfolding scan
scan-Rest d tag Bytes.failure seen state text rest m h = absurd cc
scan-Rest d tag Bytes.eof seen state text rest m h =
    let et : seen ≡ text = cc in
    let er : Bytes.eof ≡ rest = cc in ([], sym et ∙ sym (append-nil seen), er, inl (sym er))
scan-Rest d tag (Bytes.ch x input) seen state text rest m h =
    elim (Matched-After d tag seen x state m) [
      | inl (e, pre, ep) ↦
          let same = sym (scan-stop (d ∷ tag) x input seen state e) ∙ h in
          let et : seen ++ (x ∷ []) ≡ text = cc in
          let er : input ≡ rest = cc in (x ∷ [], sym et, ap (Bytes.ch x) er, inr (pre, sym et ∙ ep))
      | inr (e, m') ↦ Rest-ch (d ∷ tag) x input seen text rest (
          scan-Rest d tag input (seen ++ (x ∷ [])) (fsm (d ∷ tag) x state) text rest m'
            (sym (scan-on (d ∷ tag) x input seen state e) ∙ h))
    ]

-- When the end tag is not empty and the reader gives a text to parse, the input is that text with what is
-- left behind it, and either nothing is left or the text ends with the tag.
pub read-Taken :
    (granted : ℕ → Bool) (d : ℕ) (tag : CString) (input : Bytes) (text : CString) (rest : Bytes)
    → read_document granted (d ∷ tag) input ≡ ReadOutcome.document text rest
    → Taken (d ∷ tag) input text rest
read-Taken granted d tag input text rest h = elim ((read-in_bounds granted (d ∷ tag) input).1) [
  | inl e ↦
      let (new, et, ei, last) =
        scan-Rest d tag input [] 0 text rest (Matched-none d tag []) (sym e ∙ h) in
      (ei ∙ ap (λ t. feed t rest) (sym et), last)
  | inr (e, refused) ↦ let bad = sym e ∙ h in absurd cc
]
