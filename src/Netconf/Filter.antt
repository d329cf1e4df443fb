-- ===== src/Netconf/Filter.antt =====
-- The subtree filter: apps/netconf/netconf_filter.c.
use clicon.Base.{
  ℕ, zero, suc, ◌+◌, ◌≡◌, refl, sym, ap, ◌∙◌, Bool, true, false, ◌&&◌, ◌||◌, not, List, [], ◌∷◌,
  ◌++◌, Option, none, some, ◌==◌, if◌then◌else◌, str_eq,
}
use clicon.Proto.Types.{CString, strlen}
use clicon.Xml.Tree.{
  Node, Cxobj, Childvec, CxobjType, same_type, root, children, xml_name, xml_type, xml_value,
  xml_child_nr, childvec_len, nth, ◌>>=◌,
}
use clicon.Xml.Find.{xml_child_each, xml_find, xml_find_value}
pub mod Attributes
pub mod Subtree
pub mod Named
pub mod Clean

-- The value of an element whose only child is a body without children.
unfoldable pub leafstring : Cxobj → Option CString
leafstring (Cxobj.xml x (Childvec.cons (Cxobj.xml c Childvec.nil) Childvec.nil)) =
    if same_type x.x_type CxobjType.cx_elmnt && same_type c.x_type CxobjType.cx_body
    then c.x_value
    else none
leafstring _ = none

abbrev pub elements : Cxobj → List Cxobj
elements x = xml_child_each (some CxobjType.cx_elmnt) (children x)

-- How many elements of the filter are no leafs with a value.
unfoldable pub count_containments : List Cxobj → ℕ
unfolding leafstring
count_containments [] = 0
count_containments (f ∷ fs) = elim (leafstring f) [
  | some s ↦ count_containments fs
  | none ↦ count_containments fs + 1
]

-- Two strings, none of them NULL, that are the same.
abbrev pub both_equal : Option CString → Option CString → Bool
both_equal (some af) (some an) = str_eq af an
both_equal _ _ = false

-- Each attribute has the value that the filter, not the tree, has under its name.
unfoldable pub attributes_match : Cxobj → List Cxobj → Bool
unfolding xml_find_value
attributes_match filter [] = true
attributes_match filter (attr ∷ attrs) =
    both_equal (xml_value attr) (xml_find_value filter (xml_name attr))
    && attributes_match filter attrs

-- For each leaf of the filter, a child of the parent of that name that is no leaf, or one with that value.
unfoldable pub leaf_match : Cxobj → Cxobj → Bool
unfolding leafstring xml_find
leaf_match parent f = elim (leafstring f) [
  | none ↦ true
  | some fstr ↦ elim (xml_find parent (xml_name f)) [
    | none ↦ false
    | some s ↦ elim (leafstring s) [ none ↦ true | some sstr ↦ str_eq fstr sstr ]
  ]
]

unfoldable pub content_match : Cxobj → List Cxobj → Bool
unfolding leaf_match
content_match parent [] = true
content_match parent (f ∷ fs) = leaf_match parent f && content_match parent fs

-- The steps before the children: the parent goes, stays whole, or is searched.
pub data Selection : Type 0 where
  nomatch match recurse : Selection

unfoldable pub select_parent : Cxobj → Cxobj → Selection
unfolding childvec_len attributes_match content_match count_containments xml_child_each
select_parent filter parent =
    if xml_child_nr filter == 0
    then Selection.match
    else if not
        (attributes_match filter (xml_child_each (some CxobjType.cx_attr) (children filter)))
    then Selection.nomatch
    else if not (content_match parent (elements filter))
    then Selection.nomatch
    else if count_containments (elements filter) == 0
    then Selection.match
    else Selection.recurse

-- A child, in front of the rest unless it is to be removed.
abbrev keep : Cxobj × Bool → Childvec → Childvec
keep (s, true) xs = xs
keep (s, false) xs = Childvec.cons s xs

-- `none` is the failed assertion that the names are the same. The flag is `remove_me`. The loop over the
-- parent's elements goes on behind a child that it prunes, so it comes to each of them once.
unfoldable mutual
  unfolding select_parent leafstring xml_find

  pub select_siblings : Cxobj → Cxobj → Option (Cxobj × Bool)
  select_siblings filter (Cxobj.xml x xs) = elim (str_eq (xml_name filter) x.x_name) [
    | false ↦ none
    | true ↦ elim (select_parent filter (Cxobj.xml x xs)) [
      | Selection.nomatch ↦ some (Cxobj.xml x xs, true)
      | Selection.match ↦ some (Cxobj.xml x xs, false)
      | Selection.recurse ↦ select_children filter xs >>= λ ys. some (Cxobj.xml x ys, false)
    ]
  ]

  pub select_children : Cxobj → Childvec → Option Childvec
  select_children filter Childvec.nil = some Childvec.nil
  select_children filter (Childvec.cons s xs) = do
    s' ← elim (same_type (xml_type s) CxobjType.cx_elmnt) [
      | false ↦ some (s, false)
      | true ↦ elim (xml_find filter (xml_name s)) [
        | none ↦ some (s, true)
        | some f ↦ elim (leafstring f) [ some value ↦ some (s, false) | none ↦ select_siblings f s ]
      ]
    ]
    ys ← select_children filter xs
    some (keep s' ys)

-- The tree after the call, which does not heed `remove_me`.
unfoldable pub xml_filter : Cxobj → Cxobj → Option Cxobj
unfolding select_siblings
xml_filter xf xn = select_siblings xf xn >>= λ r. some r.0

-- `enum operation_type`.
pub data OperationType : Type 0 where
  op_merge op_replace op_create op_delete op_remove op_none : OperationType

abbrev merge_name : CString
merge_name = 109 ∷ 101 ∷ 114 ∷ 103 ∷ 101 ∷ []

abbrev replace_name : CString
replace_name = 114 ∷ 101 ∷ 112 ∷ 108 ∷ 97 ∷ 99 ∷ 101 ∷ []

abbrev create_name : CString
create_name = 99 ∷ 114 ∷ 101 ∷ 97 ∷ 116 ∷ 101 ∷ []

abbrev delete_name : CString
delete_name = 100 ∷ 101 ∷ 108 ∷ 101 ∷ 116 ∷ 101 ∷ []

abbrev remove_name : CString
remove_name = 114 ∷ 101 ∷ 109 ∷ 111 ∷ 118 ∷ 101 ∷ []

abbrev pub operation_name : CString
operation_name = 111 ∷ 112 ∷ 101 ∷ 114 ∷ 97 ∷ 116 ∷ 105 ∷ 111 ∷ 110 ∷ []

-- The operation of a string, if it names one.
abbrev operation_of : CString → Option OperationType
unfolding str_eq
operation_of opstr =
    if str_eq merge_name opstr
    then some OperationType.op_merge
    else if str_eq replace_name opstr
    then some OperationType.op_replace
    else if str_eq create_name opstr
    then some OperationType.op_create
    else if str_eq delete_name opstr
    then some OperationType.op_delete
    else if str_eq remove_name opstr
    then some OperationType.op_remove
    else none

-- The new operation. `none` is the error, with the message "bad-attribute" in the buffer for errors.
unfoldable pub get_operation : Cxobj → OperationType → Option OperationType
unfolding operation_of xml_find_value
get_operation xn op = elim (xml_find_value xn operation_name) [
  | none ↦ some op
  | some opstr ↦ operation_of opstr
]

-- The child vector less the first child of the name, if that is an attribute.
unfoldable pub prune_operation : Childvec → Childvec
unfolding str_eq
prune_operation Childvec.nil = Childvec.nil
prune_operation (Childvec.cons x xs) = elim (str_eq operation_name (xml_name x)) [
  | true ↦ if same_type (xml_type x) CxobjType.cx_attr then xs else Childvec.cons x xs
  | false ↦ Childvec.cons x (prune_operation xs)
]

unfoldable mutual
  unfolding prune_operation

  pub netconf_clean : Cxobj → Cxobj
  netconf_clean (Cxobj.xml x xs) = Cxobj.xml x (prune_operation (clean_children xs))

  -- Every element among the children is cleaned. That changes neither names nor types, so that the same
  -- attribute is pruned before it, in the source, and after it.
  pub clean_children : Childvec → Childvec
  clean_children Childvec.nil = Childvec.nil
  clean_children (Childvec.cons x xs) =
      let rest = clean_children xs in
      elim (same_type (xml_type x) CxobjType.cx_elmnt) [
        | true ↦ Childvec.cons (netconf_clean x) rest
        | false ↦ Childvec.cons x rest
      ]
