-- ===== src/Graphs.antt =====
-- packages/contracts/src/autolean_contracts/graphs.py: the research graphs of a bundle, and the
-- checks that their models run after the fields are read. The constraints of single fields are
-- the validation library's. Validation has `_validate_graph` with its cycle check.
pub mod Validation
pub mod Counting
pub mod Visits
pub mod Dictionaries
pub mod Acyclic
pub mod Ending
use auto_lean.Base.{
  Bool, true, not, ◌&&◌, ◌||◌, Option, List, [], ◌∷◌, String, Result, ok, value_error, ◌>>=◌, ◌>>◌,
  guard, if◌then◌else◌, map, ◌==◌, string_Eq,
}
use auto_lean.Base.Int.{ℤ}
use auto_lean.Base.Lists.{all, contains, distinct}
use auto_lean.Json.{Fields}
use Validation.{Link, validate_graph}

pub data MathematicalNodeKindV1 : Type 0 where
  definition theorem lemma example notation convention : MathematicalNodeKindV1

pub data MathematicalEdgeKindV1 : Type 0 where
  uses defines specializes equivalent_to motivates : MathematicalEdgeKindV1

pub data FormalNodeKindV1 : Type 0 where
  definition theorem instance_kind notation import_kind : FormalNodeKindV1

pub data FormalEdgeKindV1 : Type 0 where
  signature_depends_on body_depends_on imports instance_depends_on : FormalEdgeKindV1

pub data ExecutionNodeKindV1 : Type 0 where
  ingest rights_review normalize formalize fidelity_review prove verify integrate :
      ExecutionNodeKindV1

pub data ExecutionEdgeKindV1 : Type 0 where
  blocked_by produces retry_of supersedes : ExecutionEdgeKindV1

-- An identifier stands for its `value`.
pub record MathematicalNodeV1 : Type 0 where
  pub node_id : String
  pub kind : MathematicalNodeKindV1
  pub label : String
  pub source_span_ids : List String
  pub metadata : Fields

pub record MathematicalEdgeV1 : Type 0 where
  pub edge_id : String
  pub source : String
  pub target : String
  pub kind : MathematicalEdgeKindV1

pub record FormalNodeV1 : Type 0 where
  pub node_id : String
  pub kind : FormalNodeKindV1
  pub declaration_name : String
  pub metadata : Fields

pub record FormalEdgeV1 : Type 0 where
  pub edge_id : String
  pub source : String
  pub target : String
  pub kind : FormalEdgeKindV1

pub record ExecutionNodeV1 : Type 0 where
  pub node_id : String
  pub kind : ExecutionNodeKindV1
  pub label : String
  pub metadata : Fields

pub record ExecutionEdgeV1 : Type 0 where
  pub edge_id : String
  pub source : String
  pub target : String
  pub kind : ExecutionEdgeKindV1

pub record MathematicalGraphV1 : Type 0 where
  pub graph_id : String
  pub revision : ℤ
  pub nodes : List MathematicalNodeV1
  pub edges : List MathematicalEdgeV1

pub record FormalGraphV1 : Type 0 where
  pub graph_id : String
  pub revision : ℤ
  pub nodes : List FormalNodeV1
  pub edges : List FormalEdgeV1

pub record ExecutionGraphV1 : Type 0 where
  pub graph_id : String
  pub revision : ℤ
  pub nodes : List ExecutionNodeV1
  pub edges : List ExecutionEdgeV1

-- What `_validate_graph` reads of the edges of a graph.
abbrev pub mathematical_link : MathematicalEdgeV1 → Link
mathematical_link e = record { edge_id = e.edge_id; source = e.source; target = e.target }

abbrev pub formal_link : FormalEdgeV1 → Link
formal_link e = record { edge_id = e.edge_id; source = e.source; target = e.target }

abbrev pub execution_link : ExecutionEdgeV1 → Link
execution_link e = record { edge_id = e.edge_id; source = e.source; target = e.target }

-- Equivalence and motivation may be cyclic.
abbrev pub is_dependency : MathematicalEdgeKindV1 → Bool
is_dependency MathematicalEdgeKindV1.equivalent_to = Bool.false
is_dependency MathematicalEdgeKindV1.motivates = Bool.false
is_dependency _ = true

unfoldable pub dependency_edges : List MathematicalEdgeV1 → List MathematicalEdgeV1
dependency_edges [] = []
dependency_edges (e ∷ edges) =
    let rest = dependency_edges edges in if is_dependency e.kind then e ∷ rest else rest

unfoldable pub validate_mathematical : MathematicalGraphV1 → Result (Unit {0})
validate_mathematical g = do
  validate_graph (map (λ n. n.node_id) g.nodes) (map mathematical_link g.edges) true
  validate_graph (map (λ n. n.node_id) g.nodes) (map mathematical_link (dependency_edges g.edges))
      Bool.false

unfoldable pub validate_formal : FormalGraphV1 → Result (Unit {0})
validate_formal g =
    validate_graph (map (λ n. n.node_id) g.nodes) (map formal_link g.edges) Bool.false

unfoldable pub validate_execution : ExecutionGraphV1 → Result (Unit {0})
validate_execution g =
    validate_graph (map (λ n. n.node_id) g.nodes) (map execution_link g.edges) Bool.false

pub data AlignmentRelationV1 : Type 0 where
  formalizes defines supports approximates : AlignmentRelationV1

-- `confidence` is the number's shortest representation.
pub record CrossGraphAlignmentV1 : Type 0 where
  pub alignment_id : String
  pub mathematical_node_id : String
  pub formal_node_id : String
  pub relation : AlignmentRelationV1
  pub source_span_ids : List String
  pub confidence : String
  pub reviewer_id : Option String

pub record GraphBundleV1 : Type 0 where
  pub mathematical : MathematicalGraphV1
  pub formal : FormalGraphV1
  pub execution : ExecutionGraphV1
  pub alignments : List CrossGraphAlignmentV1

-- The loop over the alignments: all its failures raise the same error.
unfoldable pub validate_endpoints :
    List String → List String → List CrossGraphAlignmentV1 → Result (Unit {0})
validate_endpoints mathematical_ids formal_ids [] = ok tt
validate_endpoints mathematical_ids formal_ids (a ∷ rest) = do
  guard (contains a.mathematical_node_id mathematical_ids) value_error
  guard (contains a.formal_node_id formal_ids) value_error
  validate_endpoints mathematical_ids formal_ids rest

unfoldable pub validate_alignments : GraphBundleV1 → Result (Unit {0})
validate_alignments b = do
  guard (distinct (map (λ a. a.alignment_id) b.alignments)) value_error
  validate_endpoints (map (λ n. n.node_id) b.mathematical.nodes)
      (map (λ n. n.node_id) b.formal.nodes) b.alignments

-- The graphs of a bundle are validated before the bundle.
unfoldable pub validate_bundle : GraphBundleV1 → Result (Unit {0})
validate_bundle b = do
  validate_mathematical b.mathematical
  validate_formal b.formal
  validate_execution b.execution
  validate_alignments b
