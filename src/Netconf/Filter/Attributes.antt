-- ===== src/Netconf/Filter/Attributes.antt =====
-- The attribute match of the subtree filter.
use clicon.Base.{
  ◌≡◌, refl, ap, ◌∙◌, Bool, true, false, List, [], ◌∷◌, Option, none, some, ◌==◌, if◌then◌else◌,
  str_eq, str_eq_refl, All,
}
use clicon.Proto.Types.{CString}
use clicon.Xml.Tree.{
  Cxobj, Childvec, CxobjType, children, xml_name, xml_type, xml_value, xml_child_nr,
}
use clicon.Xml.Find.{xml_child_each, xml_find, xml_find_value}
use clicon.Netconf.Filter.{
  attributes_match, content_match, count_containments, select_parent, Selection, select_siblings,
}

-- An attribute with a value, and the first child of its name.
abbrev pub Attribute : Cxobj → Cxobj → Type 0
Attribute filter a =
    (xml_type a ≡ CxobjType.cx_attr)
    × (xml_find filter (xml_name a) ≡ some a)
    × (v : CString) × (xml_value a ≡ some v)

each-attributes :
    (filter : Cxobj) (xs : Childvec)
    → All (Attribute filter) (xml_child_each none xs)
    → (xml_child_each (some CxobjType.cx_attr) xs ≡ xml_child_each none xs)
      × (xml_child_each (some CxobjType.cx_elmnt) xs ≡ [])
unfolding xml_child_each
each-attributes filter Childvec.nil h = (refl, refl)
each-attributes filter (Childvec.cons x xs) ((t, f, v, ev), h) =
    let (attrs, elems) = each-attributes filter xs h in (rw t (ap (λ l. x ∷ l) attrs), rw t elems)

attributes_match-All :
    (filter : Cxobj) (attrs : List Cxobj)
    → All (Attribute filter) attrs
    → attributes_match filter attrs ≡ true
unfolding attributes_match xml_find_value
attributes_match-All filter [] h = refl
attributes_match-All filter (a ∷ attrs) ((t, f, v, ev), h) =
    rw (f, ev, str_eq_refl v, attributes_match-All filter attrs h) refl

match_either : (b : Bool) → (if b then Selection.match else Selection.match) ≡ Selection.match
match_either true = refl
match_either false = refl

select_parent-attributes :
    (filter parent : Cxobj)
    → All (Attribute filter) (xml_child_each none (children filter))
    → select_parent filter parent ≡ Selection.match
unfolding select_parent content_match count_containments
select_parent-attributes filter parent h =
    let (attrs, elems) = each-attributes filter (children filter) h in
    rw (attrs, elems, attributes_match-All filter _ h) (match_either (xml_child_nr filter == 0))

matched :
    (parent : Cxobj) (b : Bool) (s : Selection) (o : Option (Cxobj × Bool))
    → b ≡ true
    → s ≡ Selection.match
    → ◌≡◌ {A = Option (Cxobj × Bool)}
        (elim b [
          | false ↦ none
          | true ↦ elim s [
            | Selection.nomatch ↦ some (parent, true)
            | Selection.match ↦ some (parent, false)
            | Selection.recurse ↦ o
          ]
        ])
        (some (parent, false))
matched parent b s o eb es = rw (eb, es) refl

-- A filter with no children but attributes, each with a value and the first of its name, selects all
-- of any parent of its name, whatever attributes the parent has.
pub attributes-select :
    (filter parent : Cxobj)
    → All (Attribute filter) (xml_child_each none (children filter))
    → xml_name filter ≡ xml_name parent
    → select_siblings filter parent ≡ some (parent, false)
unfolding select_siblings
attributes-select filter (Cxobj.xml x xs) h e =
    let same : str_eq (xml_name filter) x.x_name ≡ true =
      ap (λ n. str_eq n x.x_name) e ∙ str_eq_refl x.x_name in
    matched (Cxobj.xml x xs) _ _ _ same (select_parent-attributes filter (Cxobj.xml x xs) h)
