-- ===== src/Xml/Find.antt =====
-- Looking for a child: lib/src/clicon_xml.c.
use clicon.Base.{
  ◌≡◌, refl, sym, ap, false, List, [], ◌∷◌, ◌++◌, Option, none, some, if◌then◌else◌, str_eq,
  Bool-cases, inl, inr, All, eq_of_str_eq,
}
use clicon.Proto.Types.{CString}
use clicon.Xml.Tree.{
  Cxobj, Childvec, CxobjType, same_type, xml_name, xml_type, xml_value, children, ◌>>=◌,
}

-- The rest of a traversal by `xml_child_each`, `none` for any type: the children of the type, from the
-- front on.
unfoldable pub xml_child_each : Option CxobjType → Childvec → List Cxobj
xml_child_each type Childvec.nil = []
xml_child_each none (Childvec.cons x xs) = x ∷ xml_child_each none xs
xml_child_each (some type) (Childvec.cons x xs) =
    let rest = xml_child_each (some type) xs in
    if same_type (xml_type x) type then x ∷ rest else rest

-- The first of the nodes with the name.
unfoldable pub first_named : CString → List Cxobj → Option Cxobj
unfolding str_eq
first_named name [] = none
first_named name (x ∷ xs) = if str_eq name (xml_name x) then some x else first_named name xs

-- Children of every type, attributes and bodies too.
unfoldable pub xml_find : Cxobj → CString → Option Cxobj
unfolding first_named xml_child_each
xml_find x_up name = first_named name (xml_child_each none (children x_up))

abbrev pub first : List Cxobj → Option Cxobj
first [] = none
first (x ∷ xs) = some x

unfoldable pub xml_body : Cxobj → Option CString
unfolding xml_child_each
xml_body xn = first (xml_child_each (some CxobjType.cx_body) (children xn)) >>= xml_value

unfoldable pub xml_find_value : Cxobj → CString → Option CString
unfolding xml_find
xml_find_value x_up name = xml_find x_up name >>= xml_value

unfoldable pub xml_find_body : Cxobj → CString → Option CString
unfolding xml_find xml_body
xml_find_body xn name = xml_find xn name >>= xml_body

-- The child has not the name.
abbrev pub Other : CString → Cxobj → Type 0
Other name x = str_eq name (xml_name x) ≡ false

-- What a search by name is to give.
abbrev pub Found : CString → List Cxobj → Option Cxobj → Type 0
Found name xs none = All (Other name) xs
Found name xs (some x) =
    (before : List Cxobj) × (after : List Cxobj) × (xs ≡ before ++ (x ∷ after))
    × All (Other name) before
    × (xml_name x ≡ name)

Found-later :
    (name : CString) (x : Cxobj) (xs : List Cxobj) (o : Option Cxobj)
    → Other name x
    → Found name xs o
    → Found name (x ∷ xs) o
Found-later name x xs none other f = (other, f)
Found-later name x xs (some y) other (before, after, eq, others, same) =
    (x ∷ before, after, ap (λ t. x ∷ t) eq, (other, others), same)

first_named-Found : (name : CString) (xs : List Cxobj) → Found name xs (first_named name xs)
unfolding first_named
first_named-Found name [] = tt
first_named-Found name (x ∷ xs) = elim (Bool-cases (str_eq name (xml_name x))) [
  | inl e ↦ rw (e, first_named) ([], xs, refl, tt, sym (eq_of_str_eq name (xml_name x) e))
  | inr e ↦
      rw (e, first_named)
        (Found-later name x xs (first_named name xs) e (first_named-Found name xs))
]

-- xml_find gives the first of the children, of whatever type, that has the name, and NULL when none has.
pub find-Found :
    (x : Cxobj) (name : CString) → Found name (xml_child_each none (children x)) (xml_find x name)
unfolding xml_find
find-Found x name = first_named-Found name (xml_child_each none (children x))
