-- ===== src/Xml/Tests.antt =====
-- Trees and documents that are read.
use clicon.Base.{ℕ, ◌≡◌, ◌≢◌, ◌⊎◌, refl, Bool, true, false, [], ◌∷◌, ◌++◌, none, some}
use clicon.Proto.Types.{CString}
use clicon.Xml.Tree.{Node, Cxobj, Childvec, CxobjType}
use clicon.Xml.Copy.{xml_dup, stripped, Gives, Refused, dup-Gives}
use clicon.Xml.Print.{clicon_xml2cbuf, Unqualified, UnqualifiedAll}
use clicon.Xml.Read.{Bytes, ReadOutcome, read_document}
use clicon.Xml.Read.Bounds.{scan, read-in_bounds}
use clicon.Xml.Read.Endtag.{feed, read-tag}

abbrev always : ℕ → Bool
always n = true

-- `<a k="v">t</a>`.
abbrev element : Node
element = record {
  x_name = 97 ∷ [];
  x_namespace = none;
  x_type = CxobjType.cx_elmnt;
  x_value = none;
  x_index = 0;
}

abbrev attribute : Node
attribute = record {
  x_name = 107 ∷ [];
  x_namespace = none;
  x_type = CxobjType.cx_attr;
  x_value = some (118 ∷ []);
  x_index = 0;
}

abbrev body : Node
body = record {
  x_name = 98 ∷ [];
  x_namespace = none;
  x_type = CxobjType.cx_body;
  x_value = some (116 ∷ []);
  x_index = 0;
}

abbrev kids : Childvec
kids =
    Childvec.cons (Cxobj.xml attribute Childvec.nil)
      (Childvec.cons (Cxobj.xml body Childvec.nil) Childvec.nil)

abbrev tree : Cxobj
tree = Cxobj.xml element kids

printed_tree :
    clicon_xml2cbuf [] tree 0 false
    ≡ 60 ∷ 97 ∷ 32 ∷ 107 ∷ 61 ∷ 34 ∷ 118 ∷ 34 ∷ 62 ∷ 116 ∷ 60 ∷ 47 ∷ 97 ∷ 62 ∷ []
unfolding clicon_xml2cbuf
printed_tree = refl

dup-Gives_example : Gives always (stripped tree) (xml_dup always tree)
dup-Gives_example = dup-Gives always tree

tree-Unqualified : Unqualified tree
tree-Unqualified = Unqualified.node element kids refl (
    UnqualifiedAll.child _ _ (Unqualified.node attribute Childvec.nil refl UnqualifiedAll.nothing) (
      UnqualifiedAll.child _ _ (Unqualified.node body Childvec.nil refl UnqualifiedAll.nothing)
        UnqualifiedAll.nothing))

-- "x<e>" and more.
abbrev end_tag : CString
end_tag = 60 ∷ 101 ∷ 62 ∷ []

read-in_bounds_example :
    (read_document always end_tag (feed (120 ∷ []) Bytes.eof) ≢ ReadOutcome.overrun)
    × ((read_document always end_tag (feed (120 ∷ []) Bytes.eof)
          ≡ scan end_tag (feed (120 ∷ []) Bytes.eof) [] 0)
        ⊎ ((read_document always end_tag (feed (120 ∷ []) Bytes.eof) ≡ ReadOutcome.no_memory)
            × Refused always))
read-in_bounds_example = read-in_bounds always end_tag (feed (120 ∷ []) Bytes.eof)

read-tag_example :
    read_document always end_tag (feed (120 ∷ []) (feed end_tag (Bytes.ch 121 Bytes.eof)))
    ≡ ReadOutcome.document ((120 ∷ []) ++ end_tag) (Bytes.ch 121 Bytes.eof)
read-tag_example =
    read-tag always 60 (101 ∷ 62 ∷ []) (120 ∷ []) (Bytes.ch 121 Bytes.eof) (λ n. refl) (refl, tt)
