-- ===== src/Tree.antt =====
-- mls/tree: the ratchet tree.
pub mod Math
pub mod ParentNode
pub mod Node
pub mod RatchetTree
pub mod Extension
pub mod Lifetime
pub mod Capabilities
pub mod Certificate
pub mod HpkeCiphertext
pub mod Credential
pub mod LeafNodeSource
pub mod LeafNode
pub mod UpdatePathNode
pub mod UpdatePath
