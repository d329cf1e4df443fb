-- ===== src/Netconf/Filter/Named.antt =====
-- The elements that the subtree filter keeps.
use clicon.Base.{
  ◌≡◌, refl, sym, ap, ◌∙◌, Bool, true, false, List, Option, none, some, All, ◌⊎◌, inl, inr,
  Bool-cases,
}
use mathlib.Core.Path.{subst}
use clicon.Proto.Types.{CString}
use clicon.Xml.Tree.{
  Node, Cxobj, Childvec, CxobjType, same_type, children, xml_name, xml_type, ◌>>=◌,
}
use clicon.Xml.Find.{xml_child_each, xml_find, Found, find-Found}
use clicon.Netconf.Filter.{
  leafstring, keep, elements, select_parent, Selection, select_siblings, select_children,
}
use clicon.Netconf.Filter.Subtree.{Pruned, Filtered, siblings-Filtered}

-- The filter has a child of the element's name.
abbrev pub InFilter : Cxobj → Cxobj → Type 0
InFilter filter s = (f : Cxobj) × (xml_find filter (xml_name s) ≡ some f)

abbrev ElementsIn : Cxobj → Option Childvec → Type 0
ElementsIn filter none = Unit
ElementsIn filter (some ys) = All (InFilter filter) (xml_child_each (some CxobjType.cx_elmnt) ys)

-- A child that is kept is no element, or has a name of the filter.
abbrev KeptIn : Cxobj → Option (Cxobj × Bool) → Type 0
KeptIn filter none = Unit
KeptIn filter (some (y, true)) = Unit
KeptIn filter (some (y, false)) =
    (same_type (xml_type y) CxobjType.cx_elmnt ≡ false) ⊎ InFilter filter y

ElementsIn-cons :
    (filter y : Cxobj) (ys : Childvec)
    → (same_type (xml_type y) CxobjType.cx_elmnt ≡ false) ⊎ InFilter filter y
    → All (InFilter filter) (xml_child_each (some CxobjType.cx_elmnt) ys)
    → All (InFilter filter) (xml_child_each (some CxobjType.cx_elmnt) (Childvec.cons y ys))
unfolding xml_child_each
ElementsIn-cons filter y ys (inl e) h = rw e h
ElementsIn-cons filter y ys (inr named) h =
    elim (Bool-cases (same_type (xml_type y) CxobjType.cx_elmnt)) [
      | inl e ↦ rw e (named, h)
      | inr e ↦ rw e h
    ]

ElementsIn-keep :
    (filter : Cxobj) (o : Option (Cxobj × Bool)) (os : Option Childvec)
    → KeptIn filter o
    → ElementsIn filter os
    → ElementsIn filter (o >>= λ s'. os >>= λ ys. some (keep s' ys))
ElementsIn-keep filter none os h hs = tt
ElementsIn-keep filter (some (y, r)) none h hs = tt
ElementsIn-keep filter (some (y, true)) (some ys) h hs = hs
ElementsIn-keep filter (some (y, false)) (some ys) h hs = ElementsIn-cons filter y ys h hs

-- A part of a tree has its root.
Pruned-name : (x y : Cxobj) → Pruned x y → xml_name x ≡ xml_name y
Pruned-name _ _ (Pruned.node x xs ys h) = refl

KeptIn-Filtered :
    (filter s f : Cxobj) (o : Option (Cxobj × Bool))
    → xml_find filter (xml_name s) ≡ some f
    → Filtered s o
    → KeptIn filter o
KeptIn-Filtered filter s f none e h = tt
KeptIn-Filtered filter s f (some (y, true)) e h = tt
KeptIn-Filtered filter s f (some (y, false)) e h =
    inr (f, ap (xml_find filter) (sym (Pruned-name s y h)) ∙ e)

KeptIn-leaf :
    (filter s f : Cxobj) (value : Option CString)
    → xml_find filter (xml_name s) ≡ some f
    → xml_name f ≡ xml_name s
    → KeptIn filter (elim value [ some v ↦ some (s, false) | none ↦ select_siblings f s ])
KeptIn-leaf filter s f none e same =
    KeptIn-Filtered filter s f (select_siblings f s) e (siblings-Filtered f s same)
KeptIn-leaf filter s f (some v) e same = inr (f, e)

KeptIn-Found :
    (filter s : Cxobj) (fs : List Cxobj) (o : Option Cxobj)
    → xml_find filter (xml_name s) ≡ o
    → Found (xml_name s) fs o
    → KeptIn filter (elim o [
      | none ↦ some (s, true)
      | some f ↦ elim (leafstring f) [ some v ↦ some (s, false) | none ↦ select_siblings f s ]
    ])
KeptIn-Found filter s fs none e found = tt
KeptIn-Found filter s fs (some f) e (before, after, eq, others, same) =
    KeptIn-leaf filter s f (leafstring f) e same

KeptIn-step :
    (filter s : Cxobj) (b : Bool)
    → same_type (xml_type s) CxobjType.cx_elmnt ≡ b
    → KeptIn filter (elim b [
      | false ↦ some (s, false)
      | true ↦ elim (xml_find filter (xml_name s)) [
        | none ↦ some (s, true)
        | some f ↦ elim (leafstring f) [ some v ↦ some (s, false) | none ↦ select_siblings f s ]
      ]
    ])
KeptIn-step filter s false e = inl e
KeptIn-step filter s true e =
    KeptIn-Found filter s _ (xml_find filter (xml_name s)) refl (find-Found filter (xml_name s))

children-ElementsIn :
    (filter : Cxobj) (xs : Childvec) → ElementsIn filter (select_children filter xs)
unfolding select_children select_siblings xml_child_each
children-ElementsIn filter Childvec.nil = tt
children-ElementsIn filter (Childvec.cons s xs) =
    ElementsIn-keep filter _ _ (KeptIn-step filter s _ refl) (children-ElementsIn filter xs)

-- What is left of a parent.
abbrev LeftIn : Cxobj → Option (Cxobj × Bool) → Type 0
LeftIn filter none = Unit
LeftIn filter (some (y, r)) =
    All (InFilter filter) (xml_child_each (some CxobjType.cx_elmnt) (children y))

LeftIn-node :
    (filter : Cxobj) (x : Node) (os : Option Childvec)
    → ElementsIn filter os
    → LeftIn filter (os >>= λ ys. some (Cxobj.xml x ys, false))
LeftIn-node filter x none h = tt
LeftIn-node filter x (some ys) h = h

LeftIn-recurse :
    (filter parent : Cxobj) (b : Bool) (s : Selection) (o : Option (Cxobj × Bool))
    → s ≡ Selection.recurse
    → LeftIn filter o
    → LeftIn filter (elim b [
      | false ↦ none
      | true ↦ elim s [
        | Selection.nomatch ↦ some (parent, true)
        | Selection.match ↦ some (parent, false)
        | Selection.recurse ↦ o
      ]
    ])
LeftIn-recurse filter parent false s o e h = tt
LeftIn-recurse filter parent true Selection.nomatch o e h = absurd cc
LeftIn-recurse filter parent true Selection.match o e h = absurd cc
LeftIn-recurse filter parent true Selection.recurse o e h = h

siblings-LeftIn :
    (filter parent : Cxobj)
    → select_parent filter parent ≡ Selection.recurse
    → LeftIn filter (select_siblings filter parent)
unfolding select_siblings
siblings-LeftIn filter (Cxobj.xml x xs) h =
    LeftIn-recurse filter (Cxobj.xml x xs) _ _ _ h
      (LeftIn-node filter x (select_children filter xs) (children-ElementsIn filter xs))

-- When the filter has elements that are no leafs, and the attribute and content matches let the parent
-- pass, each element that is left directly below the parent has a child of its name in the filter.
pub siblings-InFilter :
    (filter parent y : Cxobj) (remove : Bool)
    → select_parent filter parent ≡ Selection.recurse
    → select_siblings filter parent ≡ some (y, remove)
    → All (InFilter filter) (elements y)
siblings-InFilter filter parent y remove h e =
    subst (LeftIn filter) e (siblings-LeftIn filter parent h)
