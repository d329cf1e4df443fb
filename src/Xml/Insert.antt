-- ===== src/Xml/Insert.antt =====
-- Moving nodes: lib/src/clicon_xml.c.
use clicon.Base.{ℕ, zero, suc, ◌<◌, refl, sym, ap, Bool, Option, none, some, arith}
use mathlib.Core.Path.{subst}
use clicon.Proto.Types.{CString}
use clicon.Xml.Tree.{
  Node, Cxobj, Childvec, children, childvec_len, nth, append, appends, ◌>>=◌, xml_child_append,
  xml_new, fresh, xml_child_nr,
}
use clicon.Xml.Copy.{Gives, Gives-bind, new-Gives, append-Gives, appends-append, appends-nil}

-- The vector less the child at a place: those behind it move up.
unfoldable pub shift_up : ℕ → Childvec → Option Childvec
shift_up i Childvec.nil = none
shift_up zero (Childvec.cons x xs) = some xs
shift_up (suc i) (Childvec.cons x xs) = shift_up i xs >>= λ ys. some (Childvec.cons x ys)

-- The child is told by its place in the vector. `none` is the error that it is not there.
unfoldable pub xml_prune : Cxobj → ℕ → Option Cxobj
unfolding shift_up
xml_prune (Cxobj.xml x xs) i = shift_up i xs >>= λ ys. some (Cxobj.xml x ys)

-- `xml_addsub` of a child of `oldp`, given with its place: taken from there, and put last under `xp`.
unfoldable pub xml_addsub : (ℕ → Bool) → Cxobj → Cxobj → ℕ → Cxobj → Option (Cxobj × Cxobj)
unfolding xml_prune xml_child_append
xml_addsub granted xp oldp i xc = do
  oldp' ← xml_prune oldp i
  xp' ← xml_child_append granted xp xc
  some (xp', oldp')

-- The first child moves as long as there is one: at most `fuel` times.
unfoldable pub move_children : (ℕ → Bool) → ℕ → Cxobj → Cxobj → Option (Cxobj × Cxobj)
unfolding xml_addsub nth
move_children granted zero xc xp = none
move_children granted (suc fuel) xc xp = elim (nth (children xp) 0) [
  | none ↦ some (xc, xp)
  | some x ↦ do (xc', xp') ← xml_addsub granted xc xp 0 x; move_children granted fuel xc' xp'
]

-- The parent with the new child. `xml_insert` returns the child; where a move fails it goes on to return it.
unfoldable pub xml_insert : (ℕ → Bool) → Cxobj → CString → Option Cxobj
unfolding move_children childvec_len xml_child_append
xml_insert granted xp tag = do
  xc ← xml_new granted tag
  (xc', xp') ← move_children granted (suc (xml_child_nr xp)) xc xp
  xml_child_append granted xp' xc'

move-Gives :
    (granted : ℕ → Bool) (fuel : ℕ) (c : Node) (cs : Childvec) (p : Node) (ps : Childvec)
    → childvec_len ps < fuel
    → Gives granted
        (Cxobj.xml c (appends cs ps), Cxobj.xml p Childvec.nil)
        (move_children granted fuel (Cxobj.xml c cs) (Cxobj.xml p ps))
unfolding move_children appends childvec_len xml_addsub xml_prune nth shift_up
move-Gives granted zero c cs p ps h = absurd (omega arith)
move-Gives granted (suc fuel) c cs p Childvec.nil h =
    ap (λ t. (Cxobj.xml c t, Cxobj.xml p Childvec.nil)) (sym (appends-nil cs))
move-Gives granted (suc fuel) c cs p (Childvec.cons x ps) h =
    Gives-bind granted (Cxobj.xml c (append cs x), Cxobj.xml p ps) _ _ _
      (Gives-bind granted _ _ _ _ (append-Gives granted c cs x) refl)
      (subst
        (λ t.
          Gives granted (Cxobj.xml c t, Cxobj.xml p Childvec.nil)
            (move_children granted fuel (Cxobj.xml c (append cs x)) (Cxobj.xml p ps)))
        (appends-append cs x ps) (move-Gives granted fuel c (append cs x) p ps (omega arith)))

-- xml_insert leaves the new node as the only child of the parent, with the parent's children in their
-- order and a node of zeros but for its name, unless memory is refused.
pub insert-Gives :
    (granted : ℕ → Bool) (x : Node) (xs : Childvec) (tag : CString)
    → Gives granted
        (Cxobj.xml x (Childvec.cons (Cxobj.xml (fresh tag) xs) Childvec.nil))
        (xml_insert granted (Cxobj.xml x xs) tag)
unfolding xml_insert appends append
insert-Gives granted x xs tag =
    Gives-bind granted (Cxobj.xml (fresh tag) Childvec.nil) _ _ _ (new-Gives granted tag) (
      Gives-bind granted (Cxobj.xml (fresh tag) xs, Cxobj.xml x Childvec.nil) _ _ _
        (move-Gives granted (suc (childvec_len xs)) (fresh tag) Childvec.nil x xs (omega arith))
        (append-Gives granted x Childvec.nil (Cxobj.xml (fresh tag) xs)))
