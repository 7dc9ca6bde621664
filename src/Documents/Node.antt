-- ===== src/Documents/Node.antt =====
-- `TiptapNode` of src/documents: a JSON value that is to be a node, whatever its shape. An object is a
-- node with the four plain fields and its content; any other value is `scalar`, and has no fields.
use crmp_backend.Base.{
  Option, none, List, [], ◌∷◌, ◌++◌, Json, null, Result, ok, err, internal_server_error,
}

pub record NodeData : Type 0 where
  pub type : Option Json
  pub text : Option Json
  pub marks : Option Json
  pub attrs : Option Json

-- `content`: missing, an array, or any other value.
mutual
  pub data Node : Type 0 where
    node : NodeData → Content → Node
    scalar : Json → Node

  pub data Content : Type 0 where
    missing : Content
    other : Json → Content
    children : Nodes → Content

  pub data Nodes : Type 0 where
    nil : Nodes
    cons : Node → Nodes → Nodes

-- `node.type`, where null has no properties to read.
abbrev pub type_of : Node → Result (Option Json)
type_of (node d c) = ok d.type
type_of (scalar null) = err internal_server_error
type_of (scalar _) = ok none

-- The node and all nodes under it, each before its children.
unfoldable mutual
  pub all_nodes : Node → List Node
  all_nodes (scalar v) = scalar v ∷ []
  all_nodes (node d c) = node d c ∷ nodes_in c

  pub nodes_in : Content → List Node
  nodes_in missing = []
  nodes_in (other v) = []
  nodes_in (children ns) = nodes_of ns

  pub nodes_of : Nodes → List Node
  nodes_of nil = []
  nodes_of (cons n ns) = all_nodes n ++ nodes_of ns
