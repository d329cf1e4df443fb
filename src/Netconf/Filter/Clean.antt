-- ===== src/Netconf/Filter/Clean.antt =====
-- Cleaning a tree of its operation attributes.
use clicon.Base.{◌≡◌, refl, sym, ap, ◌∙◌, Bool, true, false, str_eq, ◌⊎◌, inl, inr, Bool-cases}
use mathlib.Core.Path.{subst}
use clicon.Xml.Tree.{Node, Cxobj, Childvec, CxobjType, same_type, root, xml_name, xml_type}
use clicon.Netconf.Filter.{operation_name, prune_operation, netconf_clean, clean_children}

-- An attribute with the name "operation".
abbrev pub IsOperation : Cxobj → Type 0
IsOperation x = (str_eq operation_name (xml_name x) ≡ true) × (xml_type x ≡ CxobjType.cx_attr)

-- None of the children has the name.
abbrev pub NotNamed : Childvec → Type 0
NotNamed Childvec.nil = Unit
NotNamed (Childvec.cons x xs) = (str_eq operation_name (xml_name x) ≡ false) × NotNamed xs

-- At most one child has the name, and that is an attribute.
abbrev pub OneNamed : Childvec → Type 0
OneNamed Childvec.nil = Unit
OneNamed (Childvec.cons x xs) =
    (IsOperation x × NotNamed xs) ⊎ ((str_eq operation_name (xml_name x) ≡ false) × OneNamed xs)

-- The condition holds at a node and at all elements below it.
mutual
  pub data Everywhere (P : Childvec → Type 0) : Cxobj → Type 0 where
    at : (x : Node) (xs : Childvec) → P xs → EverywhereAll P xs → Everywhere P (Cxobj.xml x xs)

  pub data EverywhereAll (P : Childvec → Type 0) : Childvec → Type 0 where
    none_left : EverywhereAll P Childvec.nil
    element :
        (x : Cxobj) (xs : Childvec)
        → same_type (xml_type x) CxobjType.cx_elmnt ≡ true
        → Everywhere P x
        → EverywhereAll P xs
        → EverywhereAll P (Childvec.cons x xs)
    other :
        (x : Cxobj) (xs : Childvec)
        → same_type (xml_type x) CxobjType.cx_elmnt ≡ false
        → EverywhereAll P xs
        → EverywhereAll P (Childvec.cons x xs)

netconf_clean-root : (x : Cxobj) → root (netconf_clean x) ≡ root x
unfolding netconf_clean
netconf_clean-root (Cxobj.xml x xs) = refl

-- Cleaning changes no root, so the children's names and types are as they were.
cleaned : Bool → Cxobj → Cxobj
unfolding netconf_clean
cleaned true x = netconf_clean x
cleaned false x = x

cleaned-root : (b : Bool) (x : Cxobj) → root (cleaned b x) ≡ root x
unfolding cleaned
cleaned-root true x = netconf_clean-root x
cleaned-root false x = refl

clean_children-cons :
    (x : Cxobj) (xs : Childvec)
    → clean_children (Childvec.cons x xs)
      ≡ Childvec.cons (cleaned (same_type (xml_type x) CxobjType.cx_elmnt) x) (clean_children xs)
unfolding clean_children cleaned
clean_children-cons x xs =
    elim (same_type (xml_type x) CxobjType.cx_elmnt)
      as (λ b.
        elim b [
          | true ↦ Childvec.cons (netconf_clean x) (clean_children xs)
          | false ↦ Childvec.cons x (clean_children xs)
        ]
        ≡ Childvec.cons (cleaned b x) (clean_children xs)) [ true ↦ refl | false ↦ refl ]

clean_children-NotNamed : (xs : Childvec) → NotNamed xs → NotNamed (clean_children xs)
unfolding clean_children
clean_children-NotNamed Childvec.nil h = tt
clean_children-NotNamed (Childvec.cons x xs) (e, h) =
    subst NotNamed (sym (clean_children-cons x xs)) (
      subst (λ r. str_eq operation_name r.x_name ≡ false) (sym (cleaned-root _ x)) e,
      clean_children-NotNamed xs h,
    )

clean_children-OneNamed : (xs : Childvec) → OneNamed xs → OneNamed (clean_children xs)
unfolding clean_children
clean_children-OneNamed Childvec.nil h = tt
clean_children-OneNamed (Childvec.cons x xs) (inl ((e, t), h)) =
    subst OneNamed (sym (clean_children-cons x xs)) (
      inl (
        subst (λ r. (str_eq operation_name r.x_name ≡ true) × (r.x_type ≡ CxobjType.cx_attr))
            (sym (cleaned-root _ x)) (e, t),
        clean_children-NotNamed xs h,
      ))
clean_children-OneNamed (Childvec.cons x xs) (inr (e, h)) =
    subst OneNamed (sym (clean_children-cons x xs)) (
      inr (
        subst (λ r. str_eq operation_name r.x_name ≡ false) (sym (cleaned-root _ x)) e,
        clean_children-OneNamed xs h,
      ))

prune-NotNamed : (xs : Childvec) → OneNamed xs → NotNamed (prune_operation xs)
unfolding prune_operation
prune-NotNamed Childvec.nil h = tt
prune-NotNamed (Childvec.cons x xs) (inl ((e, t), h)) = rw (e, t, prune_operation) h
prune-NotNamed (Childvec.cons x xs) (inr (e, h)) = rw (e, prune_operation) (e, prune-NotNamed xs h)

prune-EverywhereAll :
    (P : Childvec → Type 0) (xs : Childvec)
    → EverywhereAll P xs
    → EverywhereAll P (prune_operation xs)
unfolding prune_operation
prune-EverywhereAll P _ EverywhereAll.none_left = EverywhereAll.none_left
prune-EverywhereAll P _ (EverywhereAll.element x xs t hx h) =
    elim (Bool-cases (str_eq operation_name (xml_name x))) [
      | inl e ↦ elim (Bool-cases (same_type (xml_type x) CxobjType.cx_attr)) [
        | inl a ↦ rw (e, a, prune_operation) h
        | inr a ↦ rw (e, a, prune_operation) (EverywhereAll.element x xs t hx h)
      ]
      | inr e ↦
          rw (e, prune_operation)
            (EverywhereAll.element x (prune_operation xs) t hx (prune-EverywhereAll P xs h))
    ]
prune-EverywhereAll P _ (EverywhereAll.other x xs t h) =
    elim (Bool-cases (str_eq operation_name (xml_name x))) [
      | inl e ↦ elim (Bool-cases (same_type (xml_type x) CxobjType.cx_attr)) [
        | inl a ↦ rw (e, a, prune_operation) h
        | inr a ↦ rw (e, a, prune_operation) (EverywhereAll.other x xs t h)
      ]
      | inr e ↦
          rw (e, prune_operation)
            (EverywhereAll.other x (prune_operation xs) t (prune-EverywhereAll P xs h))
    ]

clean-element :
    (x : Cxobj) (xs : Childvec)
    → same_type (xml_type x) CxobjType.cx_elmnt ≡ true
    → Everywhere NotNamed (netconf_clean x)
    → EverywhereAll NotNamed (clean_children xs)
    → EverywhereAll NotNamed (clean_children (Childvec.cons x xs))
unfolding cleaned
clean-element x xs t hx h =
    subst (EverywhereAll NotNamed)
      (sym (clean_children-cons x xs ∙ ap (λ b. Childvec.cons (cleaned b x) (clean_children xs)) t))
      (EverywhereAll.element (netconf_clean x) (clean_children xs)
        (ap (λ r. same_type r.x_type CxobjType.cx_elmnt) (netconf_clean-root x) ∙ t) hx h)

clean-other :
    (x : Cxobj) (xs : Childvec)
    → same_type (xml_type x) CxobjType.cx_elmnt ≡ false
    → EverywhereAll NotNamed (clean_children xs)
    → EverywhereAll NotNamed (clean_children (Childvec.cons x xs))
unfolding cleaned
clean-other x xs t h =
    subst (EverywhereAll NotNamed)
      (sym (clean_children-cons x xs ∙ ap (λ b. Childvec.cons (cleaned b x) (clean_children xs)) t))
      (EverywhereAll.other x (clean_children xs) t h)

mutual
  unfolding netconf_clean clean_children

  clean-Everywhere : (x : Cxobj) → Everywhere OneNamed x → Everywhere NotNamed (netconf_clean x)
  clean-Everywhere _ (Everywhere.at x xs one h) =
      Everywhere.at x (prune_operation (clean_children xs))
        (prune-NotNamed (clean_children xs) (clean_children-OneNamed xs one))
        (prune-EverywhereAll NotNamed (clean_children xs) (clean-EverywhereAll xs h))

  clean-EverywhereAll :
      (xs : Childvec) → EverywhereAll OneNamed xs → EverywhereAll NotNamed (clean_children xs)
  clean-EverywhereAll _ EverywhereAll.none_left = EverywhereAll.none_left
  clean-EverywhereAll _ (EverywhereAll.element x xs t hx h) =
      clean-element x xs t (clean-Everywhere x hx) (clean-EverywhereAll xs h)
  clean-EverywhereAll _ (EverywhereAll.other x xs t h) =
      clean-other x xs t (clean-EverywhereAll xs h)

-- When every element of a tree has at most one child named "operation", and that an attribute, no
-- element of the tree that netconf_clean leaves has one.
pub clean-NotNamed : (x : Cxobj) → Everywhere OneNamed x → Everywhere NotNamed (netconf_clean x)
clean-NotNamed x h = clean-Everywhere x h
