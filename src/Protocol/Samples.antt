-- ===== src/Protocol/Samples.antt =====
-- A small type of JSON values, for the tests: its parser knows one text.
use cxxmcp.Prelude.{
  ◌≡◌, refl, ap, Bytes, text, bytes_eq, Option, none, some, [], ◌∷◌, ◌++◌, ℤ, if◌then◌else◌,
}
use cxxmcp.Prelude.Dict.{Dict, find}
use cxxmcp.Protocol.Json.{View, JsonApi, JsonLaws, IsUpdated}
use cxxmcp.Protocol.Encode.{int_text}

mutual
  pub data Tree : Type 0 where
    nothing : Tree
    whole : ℤ → Tree
    words : Bytes → Tree
    struct : Trees → Tree

  pub data Trees : Type 0 where
    nil : Trees
    cons : Bytes → Tree → Trees → Trees

abbrev pub dict : Trees → Dict Tree
dict nil = []
dict (cons key value ms) = (key, value) ∷ dict ms

abbrev pub trees : Dict Tree → Trees
trees [] = nil
trees ((key, value) ∷ ms) = cons key value (trees ms)

abbrev pub tree_view : Tree → View Tree
tree_view nothing = View.null
tree_view (whole z) = View.integer z
tree_view (words s) = View.string s
tree_view (struct ms) = View.object (dict ms)

abbrev pub set_tree_member : Bytes → Tree → Tree → Tree
set_tree_member key value (struct ms) = struct (cons key value ms)
set_tree_member key value j = j

-- objects up to the first member
unfoldable pub dump_tree : Tree → Bytes
unfolding int_text
dump_tree nothing = text "null"
dump_tree (whole z) = int_text z
dump_tree (words s) = b'"' ∷ s ++ (b'"' ∷ [])
dump_tree (struct nil) = text "{}"
dump_tree (struct (cons key value ms)) = text "{..}"

-- The parser knows one text.
unfoldable pub sample : Bytes → Tree → JsonApi Tree
unfolding bytes_eq
sample known document = record {
  view = tree_view;
  null_value = nothing;
  empty_object = struct nil;
  of_integer = whole;
  of_string = words;
  of_array = λ items. nothing;
  set_member = set_tree_member;
  parse = λ s. known_document s;
  dump = dump_tree;
}
  where
    known_document : Bytes → Option Tree
    known_document s = if bytes_eq s known then some document else none

set_member_laws :
    (key : Bytes) (value j : Tree) (ms : Dict Tree)
    → tree_view j ≡ View.object ms
    → IsUpdated key value ms (tree_view (set_tree_member key value j))
unfolding find
set_member_laws key value (struct ns) ms h = (
  (key, value) ∷ dict ns,
  refl,
  λ k. ap (λ l. if bytes_eq key k then some value else find k l) (object_injective h),
)
  where
    object_injective : {a b : Dict Tree} → View.object a ≡ View.object b → a ≡ b
    object_injective e = cc
set_member_laws key value nothing ms h = absurd (cc h)
set_member_laws key value (whole z) ms h = absurd (cc h)
set_member_laws key value (words s) ms h = absurd (cc h)

pub sample_laws : (known : Bytes) (document : Tree) → JsonLaws (sample known document)
unfolding sample
sample_laws known document = record {
  view_null = refl;
  view_empty = refl;
  view_integer = λ z h. refl;
  view_string = λ s. refl;
  view_set_member = set_member_laws;
}
