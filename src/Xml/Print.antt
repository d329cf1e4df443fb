-- ===== src/Xml/Print.antt =====
-- Printing a tree to a buffer: lib/src/clicon_xml.c.
use clicon.Base.{
  ℕ, ◌+◌, ◌*◌, ◌≡◌, refl, sym, ap, ◌∙◌, Bool, true, false, ◌&&◌, not, List, [], ◌∷◌, ◌++◌, Option,
  none, some, if◌then◌else◌, replicate,
}
use mathlib.Core.Path.{subst}
use clicon.Proto.Types.{CString}
use clicon.Xml.Tree.{Node, Cxobj, Childvec, CxobjType, same_type, xml_type, xml_value, ◌>>=◌}
use clicon.Xml.Find.{xml_child_each, first, xml_body}
use clicon.Xml.Copy.{stripped, stripped_all, bare, Gives, dup-Gives, xml_dup}

abbrev xml_indent : ℕ
xml_indent = 3

-- `%*s` of the empty string.
abbrev spaces : ℕ → CString
spaces n = replicate n 32

abbrev newline : CString
newline = 10 ∷ []

-- The namespace and a colon, if there is one.
abbrev prefix : Option CString → CString
prefix none = []
prefix (some ns) = ns ++ (58 ∷ [])

abbrev has_body : Cxobj → Bool
unfolding xml_body
has_body cx = elim (xml_body cx) [ none ↦ false | some s ↦ true ]

module _ (null_text : CString) where
  -- `%s` of a value: of NULL, what the C library prints.
  abbrev printed : Option CString → CString
  printed none = null_text
  printed (some s) = s

  -- The text of a node, by its type: of an attribute ` name="value"`, and of an element the tag around
  -- what its traversals printed. With no body the tags stand on lines of their own, in pretty print.
  unfoldable pub node_text :
      CxobjType
      → Option CString
      → CString
      → Option CString
      → ℕ
      → Bool
      → Bool
      → CString
      → CString
      → CString
  node_text CxobjType.cx_body namespace name val level prettyprint body attrs rest = printed val
  node_text CxobjType.cx_attr namespace name val level prettyprint body attrs rest =
      (32 ∷ []) ++ (prefix namespace ++ (name ++ ((61 ∷ 34 ∷ []) ++ (printed val ++ (34 ∷ [])))))
  node_text CxobjType.cx_elmnt namespace name val level prettyprint body attrs rest =
      let indent = spaces (level * xml_indent) in
      (if prettyprint then indent else [])
      ++ ((60 ∷ [])
          ++ (prefix namespace
              ++ (name
                  ++ (attrs
                      ++ ((62 ∷ [])
                          ++ ((if prettyprint && not body then newline else [])
                              ++ (rest
                                  ++ ((if prettyprint && not body then indent else [])
                                      ++ ((60 ∷ 47 ∷ [])
                                          ++ (name
                                              ++ ((62 ∷ [])
                                                  ++ (if prettyprint
                                                      then newline
                                                      else []))))))))))))

  -- What `clicon_xml2cbuf(cb, cx, level, prettyprint)` appends to the buffer. Each of the two traversals of
  -- the children calls it on some of them.
  unfoldable mutual
    unfolding has_body node_text

    pub clicon_xml2cbuf : Cxobj → ℕ → Bool → CString
    clicon_xml2cbuf (Cxobj.xml x xs) level prettyprint =
        node_text x.x_type x.x_namespace x.x_name x.x_value level prettyprint
          (has_body (Cxobj.xml x xs)) (attributes xs (level + 1) prettyprint)
          (element_content xs (level + 1) prettyprint)

    pub attributes : Childvec → ℕ → Bool → CString
    attributes Childvec.nil level prettyprint = []
    attributes (Childvec.cons x xs) level prettyprint =
        let text = clicon_xml2cbuf x level prettyprint in
        let rest = attributes xs level prettyprint in
        if same_type (xml_type x) CxobjType.cx_attr then text ++ rest else rest

    pub element_content : Childvec → ℕ → Bool → CString
    element_content Childvec.nil level prettyprint = []
    element_content (Childvec.cons x xs) level prettyprint =
        let text = clicon_xml2cbuf x level prettyprint in
        let rest = element_content xs level prettyprint in
        if same_type (xml_type x) CxobjType.cx_attr then rest else text ++ rest

-- No node of the tree has a namespace.
mutual
  pub data Unqualified : Cxobj → Type 0 where
    node :
        (x : Node) (xs : Childvec)
        → x.x_namespace ≡ none
        → UnqualifiedAll xs
        → Unqualified (Cxobj.xml x xs)

  pub data UnqualifiedAll : Childvec → Type 0 where
    nothing : UnqualifiedAll Childvec.nil
    child :
        (x : Cxobj) (xs : Childvec)
        → Unqualified x
        → UnqualifiedAll xs
        → UnqualifiedAll (Childvec.cons x xs)

body_of : List Cxobj → Option CString
body_of bodies = first bodies >>= xml_value

body_of-cons :
    (x y : Cxobj) (xs ys : List Cxobj) (b : Bool)
    → xml_value x ≡ xml_value y
    → body_of xs ≡ body_of ys
    → body_of (if b then x ∷ xs else xs) ≡ body_of (if b then y ∷ ys else ys)
unfolding body_of
body_of-cons x y xs ys true e h = e
body_of-cons x y xs ys false e h = h

body_of-stripped :
    (xs : Childvec)
    → body_of (xml_child_each (some CxobjType.cx_body) (stripped_all xs))
      ≡ body_of (xml_child_each (some CxobjType.cx_body) xs)
unfolding stripped stripped_all xml_child_each
body_of-stripped Childvec.nil = refl
body_of-stripped (Childvec.cons (Cxobj.xml x zs) xs) =
    body_of-cons _ _ _ _ (same_type x.x_type CxobjType.cx_body) refl (body_of-stripped xs)

xml_body-stripped :
    (x : Node) (xs : Childvec)
    → xml_body (Cxobj.xml (bare x) (stripped_all xs)) ≡ xml_body (Cxobj.xml x xs)
unfolding xml_body body_of
xml_body-stripped x xs = body_of-stripped xs

has_body-stripped :
    (x : Node) (xs : Childvec)
    → has_body (Cxobj.xml (bare x) (stripped_all xs)) ≡ has_body (Cxobj.xml x xs)
unfolding has_body
has_body-stripped x xs = ap (λ o. elim o [ none ↦ false | some s ↦ true ]) (xml_body-stripped x xs)

module _ (null_text : CString) where
  node_text-same :
      (t : CxobjType) (name : CString) (val : Option CString) (level : ℕ) (prettyprint : Bool)
      {ns ns' : Option CString} {b b' : Bool} {a a' c c' : CString}
      → ns ≡ ns'
      → b ≡ b'
      → a ≡ a'
      → c ≡ c'
      → node_text null_text t ns name val level prettyprint b a c
        ≡ node_text null_text t ns' name val level prettyprint b' a' c'
  node_text-same t name val level prettyprint en eb ea ec = rw (en, eb, ea, ec) refl

  mutual
    unfolding clicon_xml2cbuf attributes element_content stripped stripped_all

    print_mutual :
        (c : Cxobj) (level : ℕ) (prettyprint : Bool)
        → Unqualified c
        → clicon_xml2cbuf null_text (stripped c) level prettyprint
          ≡ clicon_xml2cbuf null_text c level prettyprint
    print_mutual _ level prettyprint (Unqualified.node x xs hn h) =
        node_text-same x.x_type x.x_name x.x_value level prettyprint (sym hn)
          (has_body-stripped x xs) (attributes_mutual xs (level + 1) prettyprint h)
          (contents_mutual xs (level + 1) prettyprint h)

    attributes_mutual :
        (xs : Childvec) (level : ℕ) (prettyprint : Bool)
        → UnqualifiedAll xs
        → attributes null_text (stripped_all xs) level prettyprint
          ≡ attributes null_text xs level prettyprint
    attributes_mutual _ level prettyprint UnqualifiedAll.nothing = refl
    attributes_mutual _ level prettyprint
          (UnqualifiedAll.child _ xs (Unqualified.node y ys hn hy) h) =
        let b = same_type y.x_type CxobjType.cx_attr in
        ap
          (λ t.
            if b
            then t ++ attributes null_text (stripped_all xs) level prettyprint
            else attributes null_text (stripped_all xs) level prettyprint)
          (print_mutual (Cxobj.xml y ys) level prettyprint (Unqualified.node y ys hn hy))
        ∙ ap
            (λ r.
              if b then clicon_xml2cbuf null_text (Cxobj.xml y ys) level prettyprint ++ r else r)
            (attributes_mutual xs level prettyprint h)

    contents_mutual :
        (xs : Childvec) (level : ℕ) (prettyprint : Bool)
        → UnqualifiedAll xs
        → element_content null_text (stripped_all xs) level prettyprint
          ≡ element_content null_text xs level prettyprint
    contents_mutual _ level prettyprint UnqualifiedAll.nothing = refl
    contents_mutual _ level prettyprint
          (UnqualifiedAll.child _ xs (Unqualified.node y ys hn hy) h) =
        let b = same_type y.x_type CxobjType.cx_attr in
        ap
          (λ t.
            if b
            then element_content null_text (stripped_all xs) level prettyprint
            else t ++ element_content null_text (stripped_all xs) level prettyprint)
          (print_mutual (Cxobj.xml y ys) level prettyprint (Unqualified.node y ys hn hy))
        ∙ ap
            (λ r.
              if b then r else clicon_xml2cbuf null_text (Cxobj.xml y ys) level prettyprint ++ r)
            (contents_mutual xs level prettyprint h)

  -- When no node of a tree has a namespace and xml_dup gives a copy, clicon_xml2cbuf prints the copy as it
  -- prints the tree, at every level, in pretty print and not.
  pub print-dup :
      (granted : ℕ → Bool) (c copy : Cxobj) (level : ℕ) (prettyprint : Bool)
      → Unqualified c
      → xml_dup granted c ≡ some copy
      → clicon_xml2cbuf null_text copy level prettyprint
        ≡ clicon_xml2cbuf null_text c level prettyprint
  print-dup granted c copy level prettyprint h e =
      ap (λ t. clicon_xml2cbuf null_text t level prettyprint)
        (subst (Gives granted (stripped c)) e (dup-Gives granted c))
      ∙ print_mutual c level prettyprint h
