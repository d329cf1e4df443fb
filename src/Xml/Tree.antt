-- ===== src/Xml/Tree.antt =====
-- The nodes of a tree and their access functions: lib/src/clicon_xml.c.
use clicon.Base.{
  ℕ, zero, suc, ◌+◌, ◌*◌, Bool, true, false, [], ◌++◌, Option, none, some, if◌then◌else◌,
}
use clicon.Proto.Types.{CString, strlen}

-- `enum cxobj_type`, less the value for errors, which no node has.
pub data CxobjType : Type 0 where
  cx_elmnt cx_attr cx_body : CxobjType

abbrev pub same_type : CxobjType → CxobjType → Bool
same_type CxobjType.cx_elmnt CxobjType.cx_elmnt = true
same_type CxobjType.cx_attr CxobjType.cx_attr = true
same_type CxobjType.cx_body CxobjType.cx_body = true
same_type _ _ = false

-- `struct xml` less its children. Every node has a name. The parent is the node above in the tree, and
-- the index of `xml_child_each` a place in a traversal.
pub record Node : Type 0 where
  pub x_name : CString
  pub x_namespace : Option CString
  pub x_type : CxobjType
  pub x_value : Option CString
  pub x_index : ℕ

-- A node and the vector of its children.
mutual
  pub data Cxobj : Type 0 where
    xml : Node → Childvec → Cxobj

  pub data Childvec : Type 0 where
    nil : Childvec
    cons : Cxobj → Childvec → Childvec

abbrev pub root : Cxobj → Node
root (Cxobj.xml x xs) = x

abbrev pub children : Cxobj → Childvec
children (Cxobj.xml x xs) = xs

abbrev pub xml_name : Cxobj → CString
xml_name x = (root x).x_name

abbrev pub xml_namespace : Cxobj → Option CString
xml_namespace x = (root x).x_namespace

abbrev pub xml_type : Cxobj → CxobjType
xml_type x = (root x).x_type

abbrev pub xml_value : Cxobj → Option CString
xml_value x = (root x).x_value

abbrev pub xml_index : Cxobj → ℕ
xml_index x = (root x).x_index

unfoldable pub childvec_len : Childvec → ℕ
childvec_len Childvec.nil = 0
childvec_len (Childvec.cons x xs) = suc (childvec_len xs)

abbrev pub xml_child_nr : Cxobj → ℕ
xml_child_nr x = childvec_len (children x)

-- The child at a place, if the vector is that long.
unfoldable pub nth : Childvec → ℕ → Option Cxobj
nth Childvec.nil i = none
nth (Childvec.cons x xs) zero = some x
nth (Childvec.cons x xs) (suc i) = nth xs i

abbrev pub xml_child_i : Cxobj → ℕ → Option Cxobj
xml_child_i x i = nth (children x) i

-- One child more, at the end.
unfoldable pub append : Childvec → Cxobj → Childvec
append Childvec.nil x = Childvec.cons x Childvec.nil
append (Childvec.cons y ys) x = Childvec.cons y (append ys x)

unfoldable pub appends : Childvec → Childvec → Childvec
appends Childvec.nil ys = ys
appends (Childvec.cons x xs) ys = Childvec.cons x (appends xs ys)

-- The old index comes back too.
abbrev pub xml_index_set : Cxobj → ℕ → Cxobj × ℕ
xml_index_set (Cxobj.xml x xs) index = (Cxobj.xml record x { x_index = index } xs, x.x_index)

-- The old type comes back too.
abbrev pub xml_type_set : Cxobj → CxobjType → Cxobj × CxobjType
xml_type_set (Cxobj.xml x xs) type = (Cxobj.xml record x { x_type = type } xs, x.x_type)

infixl 5 ◌>>=◌
abbrev pub ◌>>=◌ : {A B : Type 0} → Option A → (A → Option B) → Option B
none >>= f = none
some a >>= f = f a

-- What is there already, or nothing.
abbrev pub value_or_empty : Option CString → CString
value_or_empty none = []
value_or_empty (some s) = s

-- `sizeof(cxobj)`, and of a pointer.
abbrev pub sizeof_cxobj : ℕ
sizeof_cxobj = 56

-- A node of zeros, with a name.
abbrev pub fresh : CString → Node
fresh name = record {
  x_name = name;
  x_namespace = none;
  x_type = CxobjType.cx_elmnt;
  x_value = none;
  x_index = 0;
}

-- The memory: which requests `malloc` and `realloc` grant. What a failed call leaves behind is not
-- described: `none` is the error return.
module _ (granted : ℕ → Bool) where
  abbrev pub strdup : CString → Option CString
  strdup s = if granted (strlen s + 1) then some s else none

  abbrev pub strdup_if : Option CString → Option (Option CString)
  strdup_if none = some none
  strdup_if (some s) = strdup s >>= λ t. some (some t)

  -- A name, never NULL here.
  unfoldable pub xml_name_set : Cxobj → CString → Option Cxobj
  xml_name_set (Cxobj.xml x xs) name = do
    s ← strdup name
    some (Cxobj.xml record x { x_name = s } xs)

  unfoldable pub xml_namespace_set : Cxobj → Option CString → Option Cxobj
  xml_namespace_set (Cxobj.xml x xs) namespace = do
    s ← strdup_if namespace
    some (Cxobj.xml record x { x_namespace = s } xs)

  unfoldable pub xml_value_set : Cxobj → Option CString → Option Cxobj
  xml_value_set (Cxobj.xml x xs) val = do
    s ← strdup_if val
    some (Cxobj.xml record x { x_value = s } xs)

  -- The new value is the node's too. NULL as the result is `none`.
  unfoldable pub xml_value_append : Cxobj → Option CString → Option (Cxobj × CString)
  xml_value_append x none = xml_value x >>= λ s. some (x, s)
  xml_value_append (Cxobj.xml x xs) (some val) =
      let value = value_or_empty x.x_value ++ val in
      if granted (strlen value + 1)
      then some (Cxobj.xml record x { x_value = some value } xs, value)
      else none

  unfoldable pub xml_child_append : Cxobj → Cxobj → Option Cxobj
  unfolding childvec_len append
  xml_child_append (Cxobj.xml x xs) xc =
      if granted ((childvec_len xs + 1) * 8) then some (Cxobj.xml x (append xs xc)) else none

  -- A node with a name that stands alone, as with NULL for its parent.
  unfoldable pub xml_new : CString → Option Cxobj
  unfolding xml_name_set
  xml_new name =
      if granted sizeof_cxobj then xml_name_set (Cxobj.xml (fresh []) Childvec.nil) name else none

  -- The new node as the last child of its parent.
  unfoldable pub xml_new_under : CString → Cxobj → Option (Cxobj × Cxobj)
  unfolding xml_new xml_child_append
  xml_new_under name xp = do xn ← xml_new name; xp' ← xml_child_append xp xn; some (xp', xn)
