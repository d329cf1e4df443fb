-- ===== src/Xml/Copy.antt =====
-- Copying trees: lib/src/clicon_xml.c.
use clicon.Base.{
  false, ℕ, ◌+◌, ◌*◌, ◌≡◌, refl, sym, ap, ◌∙◌, Bool, true, [], ◌∷◌, Option, none, some, Bool-cases,
  inl, inr, if◌then◌else◌,
}
use mathlib.Core.Path.{subst}
use clicon.Proto.Types.{CString, strlen}
use clicon.Xml.Tree.{
  Node, Cxobj, Childvec, root, children, xml_name, xml_type, xml_value, xml_type_set, childvec_len,
  append, appends, ◌>>=◌, strdup, xml_name_set, xml_child_append, xml_new, sizeof_cxobj, fresh,
}

-- The copy of a string that is not NULL, and else what is there.
copied_value : (ℕ → Bool) → Option CString → Option CString → Option (Option CString)
copied_value granted none old = some old
copied_value granted (some s) old = strdup granted s >>= λ t. some (some t)

abbrev put_value : Cxobj → Option CString → Cxobj
put_value (Cxobj.xml x xs) val = Cxobj.xml record x { x_value = val } xs

unfoldable pub copy_one : (ℕ → Bool) → Cxobj → Cxobj → Option Cxobj
unfolding copied_value xml_name_set
copy_one granted xn0 xn1 = do
  val ← copied_value granted (xml_value xn0) (xml_value xn1)
  xml_name_set granted (put_value (xml_type_set xn1 (xml_type xn0)).0 val) (xml_name xn0)

-- Each child is copied behind the children that are there. It is put into the vector before the copy,
-- in the source, and filled there.
unfoldable mutual
  unfolding copy_one xml_new xml_child_append

  pub xml_copy : (ℕ → Bool) → Cxobj → Cxobj → Option Cxobj
  xml_copy granted (Cxobj.xml x xs) x1 = do
    x1' ← copy_one granted (Cxobj.xml x xs) x1
    copy_children granted xs x1'

  copy_children : (ℕ → Bool) → Childvec → Cxobj → Option Cxobj
  copy_children granted Childvec.nil x1 = some x1
  copy_children granted (Childvec.cons x xs) x1 = do
    xn ← xml_new granted (xml_name x)
    xcopy ← xml_copy granted x xn
    x1' ← xml_child_append granted x1 xcopy
    copy_children granted xs x1'

-- The name of the new node: "new".
abbrev new_name : CString
new_name = 110 ∷ 101 ∷ 119 ∷ []

unfoldable pub xml_dup : (ℕ → Bool) → Cxobj → Option Cxobj
unfolding xml_copy xml_new
xml_dup granted x0 = do x1 ← xml_new granted new_name; xml_copy granted x0 x1

-- The node with its name, type and value only.
abbrev pub bare : Node → Node
bare x = record {
  x_name = x.x_name;
  x_namespace = none;
  x_type = x.x_type;
  x_value = x.x_value;
  x_index = 0;
}

-- The tree with no namespace and no index in any node.
unfoldable mutual
  pub stripped : Cxobj → Cxobj
  stripped (Cxobj.xml x xs) = Cxobj.xml (bare x) (stripped_all xs)

  pub stripped_all : Childvec → Childvec
  stripped_all Childvec.nil = Childvec.nil
  stripped_all (Childvec.cons x xs) = Childvec.cons (stripped x) (stripped_all xs)

abbrev over_value : Option CString → Option CString → Option CString
over_value none old = old
over_value (some val) old = some val

-- A copied node over what was there: the name, the type and a value are new.
abbrev pub over : Node → Node → Node
over x old = record old {
  x_name = x.x_name;
  x_type = x.x_type;
  x_value = over_value x.x_value old.x_value;
}

over_value-none : (v : Option CString) → over_value v none ≡ v
over_value-none none = refl
over_value-none (some val) = refl

over-fresh : (x : Node) (name : CString) → over x (fresh name) ≡ bare x
over-fresh x name =
    ap
      (λ v. record {
        x_name = x.x_name;
        x_namespace = none;
        x_type = x.x_type;
        x_value = v;
        x_index = 0;
      })
      (over_value-none x.x_value)

-- Every request for memory is granted.
abbrev pub Grants : (ℕ → Bool) → Type 0
Grants granted = (n : ℕ) → granted n ≡ true

-- A request is refused.
abbrev pub Refused : (ℕ → Bool) → Type 0
Refused granted = (n : ℕ) × (granted n ≡ false)

-- The outcome is the result, or there is an error and some memory was refused.
abbrev pub Gives : {A : Type 0} → (ℕ → Bool) → A → Option A → Type 0
Gives granted a none = Refused granted
Gives granted a (some b) = b ≡ a

pub Gives-bind :
    {A B : Type 0} (granted : ℕ → Bool) (a : A) (b : B) (o : Option A) (f : A → Option B)
    → Gives granted a o
    → Gives granted b (f a)
    → Gives granted b (o >>= f)
Gives-bind granted a b none f h k = h
Gives-bind granted a b (some a') f h k = subst (λ t. Gives granted b (f t)) (sym h) k

pub Gives-if :
    {A : Type 0} (granted : ℕ → Bool) (n : ℕ) (a : A) (o : Option A)
    → Gives granted a o
    → Gives granted a (if granted n then o else none)
Gives-if granted n a o h = elim (Bool-cases (granted n)) [ inl e ↦ rw e h | inr e ↦ rw e (n, e) ]

strdup-Gives : (granted : ℕ → Bool) (s : CString) → Gives granted s (strdup granted s)
strdup-Gives granted s = Gives-if granted (strlen s + 1) s (some s) refl

pub new-Gives :
    (granted : ℕ → Bool) (name : CString)
    → Gives granted (Cxobj.xml (fresh name) Childvec.nil) (xml_new granted name)
unfolding xml_new xml_name_set
new-Gives granted name =
    Gives-if granted sizeof_cxobj _ _
      (Gives-bind granted name _ (strdup granted name) _ (strdup-Gives granted name) refl)

pub append-Gives :
    (granted : ℕ → Bool) (x : Node) (xs : Childvec) (xc : Cxobj)
    → Gives granted (Cxobj.xml x (append xs xc)) (xml_child_append granted (Cxobj.xml x xs) xc)
unfolding xml_child_append
append-Gives granted x xs xc = Gives-if granted ((childvec_len xs + 1) * 8) _ _ refl

copied_value-Gives :
    (granted : ℕ → Bool) (val old : Option CString)
    → Gives granted (over_value val old) (copied_value granted val old)
unfolding copied_value
copied_value-Gives granted none old = refl
copied_value-Gives granted (some s) old =
    Gives-bind granted s _ (strdup granted s) _ (strdup-Gives granted s) refl

copy_one-Gives :
    (granted : ℕ → Bool) (x : Node) (xs : Childvec) (n : Node) (ns : Childvec)
    → Gives granted (Cxobj.xml (over x n) ns) (copy_one granted (Cxobj.xml x xs) (Cxobj.xml n ns))
unfolding copy_one xml_name_set
copy_one-Gives granted x xs n ns =
    Gives-bind granted (over_value x.x_value n.x_value) _ _ _
      (copied_value-Gives granted x.x_value n.x_value)
      (Gives-bind granted x.x_name _ _ _ (strdup-Gives granted x.x_name) refl)

pub appends-append :
    (ns : Childvec) (x : Cxobj) (xs : Childvec)
    → appends (append ns x) xs ≡ appends ns (Childvec.cons x xs)
unfolding append appends
appends-append Childvec.nil x xs = refl
appends-append (Childvec.cons n ns) x xs = ap (Childvec.cons n) (appends-append ns x xs)

appends-bare :
    (ns : Childvec) (y : Node) (ys xs : Childvec)
    → appends (append ns (Cxobj.xml (over y (fresh y.x_name)) ys)) xs
      ≡ appends ns (Childvec.cons (Cxobj.xml (bare y) ys) xs)
appends-bare ns y ys xs =
    appends-append ns _ xs
    ∙ ap (λ n. appends ns (Childvec.cons (Cxobj.xml n ys) xs)) (over-fresh y y.x_name)

pub appends-nil : (ns : Childvec) → appends ns Childvec.nil ≡ ns
unfolding appends
appends-nil Childvec.nil = refl
appends-nil (Childvec.cons n ns) = ap (Childvec.cons n) (appends-nil ns)

mutual
  unfolding xml_copy copy_children stripped stripped_all appends

  copy-Gives :
      (granted : ℕ → Bool) (c : Cxobj) (n : Node) (ns : Childvec)
      → Gives granted
          (Cxobj.xml (over (root c) n) (appends ns (stripped_all (children c))))
          (xml_copy granted c (Cxobj.xml n ns))
  copy-Gives granted (Cxobj.xml x xs) n ns =
      Gives-bind granted (Cxobj.xml (over x n) ns) _ _ _ (copy_one-Gives granted x xs n ns)
        (children-Gives granted xs (over x n) ns)

  children-Gives :
      (granted : ℕ → Bool) (xs : Childvec) (n : Node) (ns : Childvec)
      → Gives granted
          (Cxobj.xml n (appends ns (stripped_all xs)))
          (copy_children granted xs (Cxobj.xml n ns))
  children-Gives granted Childvec.nil n ns = ap (Cxobj.xml n) (sym (appends-nil ns))
  children-Gives granted (Childvec.cons (Cxobj.xml y ys) xs) n ns =
      Gives-bind granted (Cxobj.xml (fresh y.x_name) Childvec.nil) _ _ _
        (new-Gives granted y.x_name)
        (Gives-bind granted (Cxobj.xml (over y (fresh y.x_name)) (stripped_all ys)) _ _ _
          (copy-Gives granted (Cxobj.xml y ys) (fresh y.x_name) Childvec.nil)
          (Gives-bind granted _ _ _ _ (append-Gives granted n ns _) (
            subst
              (λ t. Gives granted (Cxobj.xml n t) (
                copy_children granted xs (
                  Cxobj.xml n (append ns (Cxobj.xml (over y (fresh y.x_name)) (stripped_all ys))))))
              (appends-bare ns y (stripped_all ys) (stripped_all xs))
              (children-Gives granted xs n
                (append ns (Cxobj.xml (over y (fresh y.x_name)) (stripped_all ys)))))))

-- When xml_dup gives a copy, it is the tree with the namespace and the index of every node lost and
-- all else kept, and it gives one unless memory is refused.
pub dup-Gives : (granted : ℕ → Bool) (x : Cxobj) → Gives granted (stripped x) (xml_dup granted x)
unfolding xml_dup stripped appends
dup-Gives granted (Cxobj.xml x xs) = Gives-bind granted _ _ _ _ (new-Gives granted new_name) (
    subst
      (λ n.
        Gives granted (Cxobj.xml n (stripped_all xs))
          (xml_copy granted (Cxobj.xml x xs) (Cxobj.xml (fresh new_name) Childvec.nil)))
      (over-fresh x new_name) (copy-Gives granted (Cxobj.xml x xs) (fresh new_name) Childvec.nil))
