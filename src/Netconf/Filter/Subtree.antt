-- ===== src/Netconf/Filter/Subtree.antt =====
-- What the subtree filter leaves of a tree.
use clicon.Base.{
  ◌≡◌, refl, ap, ◌∙◌, Bool, true, false, List, Option, none, some, str_eq, str_eq_refl,
}
use clicon.Proto.Types.{CString}
use clicon.Xml.Tree.{Node, Cxobj, Childvec, CxobjType, same_type, xml_name, xml_type, ◌>>=◌}
use clicon.Xml.Find.{xml_find, Found, find-Found}
use clicon.Netconf.Filter.{
  leafstring, keep, select_parent, Selection, select_siblings, select_children,
}

-- The second tree is the first less some elements below its root.
mutual
  pub data Pruned : Cxobj → Cxobj → Type 0 where
    node :
        (x : Node) (xs ys : Childvec) → PrunedAll xs ys → Pruned (Cxobj.xml x xs) (Cxobj.xml x ys)

  pub data PrunedAll : Childvec → Childvec → Type 0 where
    nothing : PrunedAll Childvec.nil Childvec.nil
    kept :
        (x y : Cxobj) (xs ys : Childvec)
        → Pruned x y
        → PrunedAll xs ys
        → PrunedAll (Childvec.cons x xs) (Childvec.cons y ys)
    pruned :
        (x : Cxobj) (xs ys : Childvec)
        → xml_type x ≡ CxobjType.cx_elmnt
        → PrunedAll xs ys
        → PrunedAll (Childvec.cons x xs) ys

mutual
  Pruned-refl : (x : Cxobj) → Pruned x x
  Pruned-refl (Cxobj.xml x xs) = Pruned.node x xs xs (PrunedAll-refl xs)

  PrunedAll-refl : (xs : Childvec) → PrunedAll xs xs
  PrunedAll-refl Childvec.nil = PrunedAll.nothing
  PrunedAll-refl (Childvec.cons x xs) = PrunedAll.kept x x xs xs (Pruned-refl x) (PrunedAll-refl xs)

-- What the filter is to give for a parent: a result, with a part of the tree.
abbrev pub Filtered : Cxobj → Option (Cxobj × Bool) → Type 0
Filtered parent none = ⊥
Filtered parent (some (y, remove)) = Pruned parent y

abbrev FilteredAll : Childvec → Option Childvec → Type 0
FilteredAll xs none = ⊥
FilteredAll xs (some ys) = PrunedAll xs ys

-- The same for a child, which may be pruned when it is an element.
abbrev FilteredChild : Cxobj → Option (Cxobj × Bool) → Type 0
FilteredChild s none = ⊥
FilteredChild s (some (y, true)) = xml_type s ≡ CxobjType.cx_elmnt
FilteredChild s (some (y, false)) = Pruned s y

elmnt_of : (t : CxobjType) → same_type t CxobjType.cx_elmnt ≡ true → t ≡ CxobjType.cx_elmnt
elmnt_of CxobjType.cx_elmnt h = refl
elmnt_of CxobjType.cx_attr h = absurd cc
elmnt_of CxobjType.cx_body h = absurd cc

Filtered-child :
    (s : Cxobj) (o : Option (Cxobj × Bool))
    → xml_type s ≡ CxobjType.cx_elmnt
    → Filtered s o
    → FilteredChild s o
Filtered-child s none t h = h
Filtered-child s (some (y, true)) t h = t
Filtered-child s (some (y, false)) t h = h

Filtered-keep :
    (s : Cxobj) (xs : Childvec) (o : Option (Cxobj × Bool)) (os : Option Childvec)
    → FilteredChild s o
    → FilteredAll xs os
    → FilteredAll (Childvec.cons s xs) (o >>= λ s'. os >>= λ ys. some (keep s' ys))
Filtered-keep s xs none os h hs = h
Filtered-keep s xs (some (y, r)) none h hs = hs
Filtered-keep s xs (some (y, true)) (some ys) h hs = PrunedAll.pruned s xs ys h hs
Filtered-keep s xs (some (y, false)) (some ys) h hs = PrunedAll.kept s y xs ys h hs

Filtered-node :
    (x : Node) (xs : Childvec) (os : Option Childvec)
    → FilteredAll xs os
    → Filtered (Cxobj.xml x xs) (os >>= λ ys. some (Cxobj.xml x ys, false))
Filtered-node x xs none h = h
Filtered-node x xs (some ys) h = Pruned.node x xs ys h

Filtered-leaf :
    (s : Cxobj) (value : Option CString) (o : Option (Cxobj × Bool))
    → xml_type s ≡ CxobjType.cx_elmnt
    → Filtered s o
    → FilteredChild s (elim value [ some v ↦ some (s, false) | none ↦ o ])
Filtered-leaf s none o t h = Filtered-child s o t h
Filtered-leaf s (some v) o t h = Pruned-refl s

-- A filter of the child's name, or none.
Filtered-Found :
    (s : Cxobj) (fs : List Cxobj) (o : Option Cxobj)
    → xml_type s ≡ CxobjType.cx_elmnt
    → Found (xml_name s) fs o
    → ((f : Cxobj) → str_eq (xml_name f) (xml_name s) ≡ true → Filtered s (select_siblings f s))
    → FilteredChild s (elim o [
      | none ↦ some (s, true)
      | some f ↦ elim (leafstring f) [ some v ↦ some (s, false) | none ↦ select_siblings f s ]
    ])
Filtered-Found s fs none t found ih = t
Filtered-Found s fs (some f) t (before, after, eq, others, same) ih =
    Filtered-leaf s (leafstring f) (select_siblings f s) t
      (ih f (rw same (str_eq_refl (xml_name s))))

Filtered-step :
    (filter s : Cxobj) (b : Bool)
    → same_type (xml_type s) CxobjType.cx_elmnt ≡ b
    → ((f : Cxobj) → str_eq (xml_name f) (xml_name s) ≡ true → Filtered s (select_siblings f s))
    → FilteredChild s (elim b [
      | false ↦ some (s, false)
      | true ↦ elim (xml_find filter (xml_name s)) [
        | none ↦ some (s, true)
        | some f ↦ elim (leafstring f) [ some v ↦ some (s, false) | none ↦ select_siblings f s ]
      ]
    ])
Filtered-step filter s false e ih = Pruned-refl s
Filtered-step filter s true e ih =
    Filtered-Found s _ (xml_find filter (xml_name s)) (elmnt_of (xml_type s) e)
      (find-Found filter (xml_name s)) ih

mutual
  unfolding select_siblings select_children

  select-Filtered :
      (filter parent : Cxobj)
      → str_eq (xml_name filter) (xml_name parent) ≡ true
      → Filtered parent (select_siblings filter parent)
  select-Filtered filter (Cxobj.xml x xs) e =
      rw (e, Filtered, select_siblings)
        (elim (select_parent filter (Cxobj.xml x xs))
          as (λ s. Filtered (Cxobj.xml x xs) (elim s [
            | Selection.nomatch ↦ some (Cxobj.xml x xs, true)
            | Selection.match ↦ some (Cxobj.xml x xs, false)
            | Selection.recurse ↦ select_children filter xs >>= λ ys. some (Cxobj.xml x ys, false)
          ])) [
            | Selection.nomatch ↦ Pruned-refl (Cxobj.xml x xs)
            | Selection.match ↦ Pruned-refl (Cxobj.xml x xs)
            | Selection.recurse ↦ Filtered-node x xs _ (children-Filtered filter xs)
          ])

  children-Filtered : (filter : Cxobj) (xs : Childvec) → FilteredAll xs (select_children filter xs)
  children-Filtered filter Childvec.nil = PrunedAll.nothing
  children-Filtered filter (Childvec.cons s xs) =
      Filtered-keep s xs _ _ (Filtered-step filter s _ refl (λ f e. select-Filtered f s e))
        (children-Filtered filter xs)

-- When the filter and the tree have the same name, select_siblings and all its recursive calls get
-- past the assertion, and what it leaves is the tree less some elements below its root.
pub siblings-Filtered :
    (filter parent : Cxobj)
    → xml_name filter ≡ xml_name parent
    → Filtered parent (select_siblings filter parent)
siblings-Filtered filter parent e =
    select-Filtered filter parent
      (ap (λ n. str_eq n (xml_name parent)) e ∙ str_eq_refl (xml_name parent))
