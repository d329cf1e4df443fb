-- ===== src/Netconf/Tests.antt =====
-- Filters and messages of the NETCONF client.
use clicon.Base.{
  ℕ, ◌≡◌, refl, ◌++◌, false, [], ◌∷◌, none, some, take, drop, map, arith, str_eq, All, inl,
}
use clicon.Xml.Find.{xml_child_each, xml_find}
use clicon.Proto.Types.{CString}
use clicon.Xml.Tree.{Node, Cxobj, Childvec, CxobjType}
use clicon.Netconf.Input.{Handled, Chunk, input_loop, input_calls, end_of_message}
use clicon.Netconf.Input.Messages.{stream, loop-stream, calls-cut}
use clicon.Netconf.Filter.{
  select_parent, select_siblings, elements, netconf_clean, operation_name, xml_filter,
}
use clicon.Netconf.Filter.Attributes.{attributes-select}
use clicon.Netconf.Filter.Subtree.{Filtered, siblings-Filtered}
use clicon.Netconf.Filter.Named.{InFilter, siblings-InFilter}
use clicon.Netconf.Filter.Clean.{Everywhere, EverywhereAll, NotNamed, clean-NotNamed}

abbrev goes_on : CString → Handled
goes_on s = Handled.going

loop-stream_example : input_loop goes_on (stream ((97 ∷ []) ∷ (98 ∷ []) ∷ [])) [] 0 ≡ record {
  xf = [];
  packets = map (λ a. a ++ end_of_message) ((97 ∷ []) ∷ (98 ∷ []) ∷ []);
  last = Handled.going;
}
loop-stream_example =
    loop-stream goes_on ((97 ∷ []) ∷ (98 ∷ []) ∷ []) ((refl, refl, tt), ((refl, refl, tt), tt))
      (λ s. refl)

calls-cut_example :
    input_calls goes_on
      (Chunk.bytes ((97 ∷ []) ++ take 2 end_of_message) ∷ Chunk.bytes (drop 2 end_of_message) ∷ [])
      []
    ≡ ([], (97 ∷ []) ++ end_of_message)
calls-cut_example = calls-cut goes_on (97 ∷ []) 2 (refl, refl, tt) (omega arith) (omega arith)

abbrev node : CString → CxobjType → Node
node name type = record {
  x_name = name;
  x_namespace = none;
  x_type = type;
  x_value = some [];
  x_index = 0;
}

abbrev branch : ℕ → Childvec → Cxobj
branch name xs = Cxobj.xml (node (name ∷ []) CxobjType.cx_elmnt) xs

abbrev two : Cxobj → Cxobj → Childvec
two x y = Childvec.cons x (Childvec.cons y Childvec.nil)

-- `<a><b/><c/></a>`, and a filter for `b`.
abbrev config : Cxobj
config = branch 97 (two (branch 98 Childvec.nil) (branch 99 Childvec.nil))

abbrev for_b : Cxobj
for_b = branch 97 (Childvec.cons (branch 98 Childvec.nil) Childvec.nil)

-- `<a k="">`.
abbrev with_attribute : Cxobj
with_attribute =
    branch 97
      (Childvec.cons (Cxobj.xml (node (107 ∷ []) CxobjType.cx_attr) Childvec.nil) Childvec.nil)

filtered : xml_filter for_b config ≡ some for_b
unfolding xml_filter
filtered = refl

attributes-select_example : select_siblings with_attribute config ≡ some (config, false)
unfolding xml_child_each xml_find
attributes-select_example =
    attributes-select with_attribute config ((refl, refl, [], refl), tt) refl

siblings-Filtered_example : Filtered config (select_siblings for_b config)
siblings-Filtered_example = siblings-Filtered for_b config refl

siblings-InFilter_example : All (InFilter for_b) (elements for_b)
unfolding select_parent select_siblings
siblings-InFilter_example = siblings-InFilter for_b config for_b false refl refl

-- An element with an operation attribute.
abbrev operation : Cxobj
operation = Cxobj.xml (node operation_name CxobjType.cx_attr) Childvec.nil

clean-NotNamed_example :
    Everywhere NotNamed (netconf_clean (branch 97 (Childvec.cons operation Childvec.nil)))
unfolding str_eq
clean-NotNamed_example = clean-NotNamed (branch 97 (Childvec.cons operation Childvec.nil)) (
    Everywhere.at _ _ (inl ((refl, refl), tt))
      (EverywhereAll.other operation Childvec.nil refl EverywhereAll.none_left))
