-- ===== src/Partition/Nodes.antt =====
-- The documents of gopkg.in/yaml.v3 as internal/domain/service/workload_partitioner.go walks them:
-- findNodeByKey, findNodeInMapping, cloneYAMLNode, and the writes through the pointers they return.
-- The content of a mapping holds its keys and values in turn, as the library documents: where a key
-- has no value, the source would panic, and the definitions find nothing.
use vuhive_cloud.Common.{
  ℕ, ◌≡◌, refl, ap, Bool, true, false, Option, none, some, arith, if◌then◌else◌, Text, text_eq,
  text_eq_iff, is_some,
}
use vuhive_cloud.Common.Int.{ℤ}

pub data Kind : Type 0 where
  document sequence mapping scalar alias no_kind : Kind

-- The fields that are only copied. `alias_of` is the address of the node that an alias stands for.
pub record Mark : Type 0 where
  pub style : ℕ
  pub tag : Text
  pub anchor : Text
  pub alias_of : Option ℕ
  pub head_comment : Text
  pub line_comment : Text
  pub foot_comment : Text
  pub line : ℤ
  pub column : ℤ

mutual
  pub data Node : Type 0 where
    node : Kind → Mark → Text → Nodes → Node

  pub data Nodes : Type 0 where
    end : Nodes
    item : Node → Nodes → Nodes

abbrev pub kind_of : Node → Kind
kind_of (node k m v content) = k

abbrev pub value_of : Node → Text
value_of (node k m v content) = v

abbrev pub content_of : Node → Nodes
content_of (node k m v content) = content

-- `n.Value = text` and a write to `n.Content`.
abbrev pub with_value : Text → Node → Node
with_value text (node k m v content) = node k m text content

abbrev pub with_content : Nodes → Node → Node
with_content content (node k m v old) = node k m v content

abbrev pub is_mapping : Node → Bool
is_mapping (node mapping m v content) = true
is_mapping (node _ m v content) = false

abbrev pub is_sequence : Node → Bool
is_sequence (node sequence m v content) = true
is_sequence (node _ m v content) = false

unfoldable mutual
  pub clone_yaml_node : Node → Node
  clone_yaml_node (node k m v content) = node k m v (clone_all content)

  clone_all : Nodes → Nodes
  clone_all end = end
  clone_all (item n rest) = item (clone_yaml_node n) (clone_all rest)

-- The value of the first entry with the key.
unfoldable pub find_entry : Text → Nodes → Option Node
find_entry key end = none
find_entry key (item k end) = none
find_entry key (item k (item v rest)) =
    if text_eq (value_of k) key then some v else find_entry key rest

unfoldable pub find_node_in_mapping : Text → Node → Option Node
unfolding find_entry
find_node_in_mapping key n = if is_mapping n then find_entry key (content_of n) else none

abbrev or_else : Option Node → Option Node → Option Node
or_else none o = o
or_else (some n) o = some n

unfoldable mutual
  unfolding find_node_in_mapping

  pub find_node_by_key : Text → Node → Option Node
  find_node_by_key key (node document m v content) = find_in_children key content
  find_node_by_key key (node k m v content) = find_node_in_mapping key (node k m v content)

  find_in_children : Text → Nodes → Option Node
  find_in_children key end = none
  find_in_children key (item n rest) = or_else (find_node_by_key key n) (find_in_children key rest)

-- A write through the pointer that `find_node_in_mapping` returns.
unfoldable pub set_entry : Text → Node → Nodes → Nodes
set_entry key new end = end
set_entry key new (item k end) = item k end
set_entry key new (item k (item v rest)) =
    if text_eq (value_of k) key
    then item k (item new rest)
    else item k (item v (set_entry key new rest))

unfoldable pub set_in_mapping : Text → Node → Node → Node
unfolding set_entry
set_in_mapping key new n =
    if is_mapping n then with_content (set_entry key new (content_of n)) n else n

-- A write through the pointer that `find_node_by_key` returns.
unfoldable mutual
  unfolding find_node_by_key set_in_mapping

  pub set_by_key : Text → Node → Node → Node
  set_by_key key new (node document m v content) =
      node document m v (set_in_children key new content)
  set_by_key key new (node k m v content) = set_in_mapping key new (node k m v content)

  set_in_children : Text → Node → Nodes → Nodes
  set_in_children key new end = end
  set_in_children key new (item n rest) =
      if is_some (find_node_by_key key n)
      then item (set_by_key key new n) rest
      else item n (set_in_children key new rest)

mutual
  unfolding clone_yaml_node

  clone_all_lem : (content : Nodes) → clone_all content ≡ content
  clone_all_lem end = refl
  clone_all_lem (item n rest) = cc (clone_lem n, clone_all_lem rest)

  clone_lem : (n : Node) → clone_yaml_node n ≡ n
  clone_lem (node k m v content) = ap (node k m v) (clone_all_lem content)

-- A clone is the same document.
pub clone_yaml_node_lem : (n : Node) → clone_yaml_node n ≡ n
clone_yaml_node_lem n = clone_lem n

-- What an entry holds after a write to the first entry with a key.
abbrev pub written : Node → Option Node → Option Node
written new none = none
written new (some old) = some new

pub find_entry-set_entry :
    (key j : Text) (new : Node) (content : Nodes)
    → find_entry j (set_entry key new content)
      ≡ (if text_eq key j then written new (find_entry key content) else find_entry j content)
unfolding find_entry set_entry
find_entry-set_entry key j new end = ground arith
find_entry-set_entry key j new (item k end) = ground arith
find_entry-set_entry key j new (item k (item v rest)) = ground (
  arith,
  text_eq_iff key j,
  text_eq_iff (value_of k) key,
  text_eq_iff (value_of k) j,
  find_entry-set_entry key j new rest,
)

pub find_node_in_mapping-set_in_mapping :
    (key j : Text) (new n : Node)
    → find_node_in_mapping j (set_in_mapping key new n) ≡ (
        if text_eq key j
        then written new (find_node_in_mapping key n)
        else find_node_in_mapping j n)
unfolding find_node_in_mapping set_in_mapping
find_node_in_mapping-set_in_mapping key j new (node mapping m v content) =
    find_entry-set_entry key j new content
find_node_in_mapping-set_in_mapping key j new (node document m v content) = ground arith
find_node_in_mapping-set_in_mapping key j new (node sequence m v content) = ground arith
find_node_in_mapping-set_in_mapping key j new (node scalar m v content) = ground arith
find_node_in_mapping-set_in_mapping key j new (node alias m v content) = ground arith
find_node_in_mapping-set_in_mapping key j new (node no_kind m v content) = ground arith

mutual
  unfolding find_node_by_key set_by_key

  find_set :
      (key j : Text) (new n : Node)
      → find_node_by_key j (set_by_key key new n)
        ≡ (if text_eq key j then written new (find_node_by_key key n) else find_node_by_key j n)
  find_set key j new (node document m v content) = find_set_children key j new content
  find_set key j new (node mapping m v content) =
      find_node_in_mapping-set_in_mapping key j new (node mapping m v content)
  find_set key j new (node sequence m v content) =
      find_node_in_mapping-set_in_mapping key j new (node sequence m v content)
  find_set key j new (node scalar m v content) =
      find_node_in_mapping-set_in_mapping key j new (node scalar m v content)
  find_set key j new (node alias m v content) =
      find_node_in_mapping-set_in_mapping key j new (node alias m v content)
  find_set key j new (node no_kind m v content) =
      find_node_in_mapping-set_in_mapping key j new (node no_kind m v content)

  find_set_children :
      (key j : Text) (new : Node) (content : Nodes)
      → find_in_children j (set_in_children key new content) ≡ (
          if text_eq key j
          then written new (find_in_children key content)
          else find_in_children j content)
  find_set_children key j new end = ground arith
  find_set_children key j new (item n rest) =
      ground (arith, text_eq_iff key j, find_set key j new n, find_set_children key j new rest)

-- What a key holds after a write through the pointer found for a key.
pub find_node_by_key-set_by_key :
    (key j : Text) (new n : Node)
    → find_node_by_key j (set_by_key key new n)
      ≡ (if text_eq key j then written new (find_node_by_key key n) else find_node_by_key j n)
find_node_by_key-set_by_key key j new n = find_set key j new n
